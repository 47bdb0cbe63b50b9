-- ===== src/Prelude/Lists.antt =====
-- Lists measured and indexed by native numbers, and predicates over them.
use Prim.Native.Nat.{ℕ, zero, suc, ◌+◌, ◌<◌}
use mathlib.Core.Path.{◌≡◌, refl, ap, ap₂}
use mathlib.Core.Bool.{Bool, true}
use listnun.Prelude.Tests.{if◌then◌else◌, Bool-cases}
use mathlib.Core.Logic.{◌⊎◌, inl, inr}
use mathlib.Core.Option.{Option, none, some}
use mathlib.Core.List.{List, [], ◌∷◌, ◌++◌, map}
use native.Mathlib.Omega.{arith}

module _ {ℓ} {A : Type ℓ} where
  abbrev pub length : List A → ℕ
  length [] = 0
  length (x ∷ xs) = suc (length xs)

  abbrev pub get_elem? : List A → ℕ → Option A
  get_elem? [] i = none
  get_elem? (x ∷ xs) zero = some x
  get_elem? (x ∷ xs) (suc i) = get_elem? xs i

  pub length-append : (xs ys : List A) → length (xs ++ ys) ≡ length xs + length ys
  length-append [] ys = omega arith
  length-append (x ∷ xs) ys = omega (arith, length-append xs ys)

  pub get_elem?-of_lt : (xs : List A) (i : ℕ) → i < length xs → (a : A) × (get_elem? xs i ≡ some a)
  get_elem?-of_lt [] i h = elim h [ ]
  get_elem?-of_lt (x ∷ xs) zero h = (x, refl)
  get_elem?-of_lt (x ∷ xs) (suc i) h = get_elem?-of_lt xs i (omega arith)

-- A predicate by recursion computes to tuples, which the tactics read and build.
abbrev pub All {ℓ κ} : {A : Type ℓ} → (A → Type κ) → List A → Type κ
All P [] = Unit
All P (x ∷ xs) = P x × All P xs

pub All-append {ℓ κ} :
    {A : Type ℓ} (P : A → Type κ) (xs ys : List A) → All P xs → All P ys → All P (xs ++ ys)
All-append P [] ys hx hy = hy
All-append P (x ∷ xs) ys hx hy = (hx.0, All-append P xs ys hx.1 hy)

-- Some element satisfies the predicate.
abbrev pub Any {ℓ} : {A : Type ℓ} → (A → Type 0) → List A → Type 0
Any P [] = ⊥
Any P (x ∷ xs) = P x ⊎ Any P xs

module _ {ℓ κ} {A : Type ℓ} where
  pub All-imp : (P Q : A → Type κ) → ((x : A) → P x → Q x) → (xs : List A) → All P xs → All Q xs
  All-imp P Q f [] h = tt
  All-imp P Q f (x ∷ xs) h = (f x h.0, All-imp P Q f xs h.1)

  pub All-both : (P Q : A → Type κ) (xs : List A) → All P xs → All Q xs → All (λ x. P x × Q x) xs
  All-both P Q [] h k = tt
  All-both P Q (x ∷ xs) h k = ((h.0, k.0), All-both P Q xs h.1 k.1)

  pub All-of : (P : A → Type κ) → ((x : A) → P x) → (xs : List A) → All P xs
  All-of P f [] = tt
  All-of P f (x ∷ xs) = (f x, All-of P f xs)

  pub All-map :
      (P Q : A → Type κ) (f : A → A)
      → ((x : A) → P x → Q (f x))
      → (xs : List A) → All P xs
      → All Q (map f xs)
  All-map P Q f g [] h = tt
  All-map P Q f g (x ∷ xs) h = (g x h.0, All-map P Q f g xs h.1)

module _ {ℓ} {A : Type ℓ} where
  pub Any-imp : (P Q : A → Type 0) → ((x : A) → P x → Q x) → (xs : List A) → Any P xs → Any Q xs
  Any-imp P Q f [] h = h
  Any-imp P Q f (x ∷ xs) (inl p) = inl (f x p)
  Any-imp P Q f (x ∷ xs) (inr h) = inr (Any-imp P Q f xs h)

  -- An element with one predicate has also what holds of every element.
  pub Any-All :
      (P Q R : A → Type 0)
      → ((x : A) → P x → Q x → R x)
      → (xs : List A) → Any P xs
      → All Q xs
      → Any R xs
  Any-All P Q R f [] h k = h
  Any-All P Q R f (x ∷ xs) (inl p) k = inl (f x p k.0)
  Any-All P Q R f (x ∷ xs) (inr h) k = inr (Any-All P Q R f xs h k.1)

  pub Any-elim : {C : Type 0} (P : A → Type 0) → ((x : A) → P x → C) → (xs : List A) → Any P xs → C
  Any-elim P f [] h = absurd h
  Any-elim P f (x ∷ xs) (inl p) = f x p
  Any-elim P f (x ∷ xs) (inr h) = Any-elim P f xs h

  -- Every element of a list stands in it.
  pub All-self :
      (P : A → A → Type 0) → ((x : A) → P x x) → (xs : List A) → All (λ x. Any (P x) xs) xs
  All-self P r [] = tt
  All-self P r (x ∷ xs) = (
    inl (r x),
    All-imp (λ y. Any (P y) xs) (λ y. Any (P y) (x ∷ xs)) (λ y h. inr h) xs (All-self P r xs),
  )

  pub map-cong : (f g : A → A) (xs : List A) → All (λ x. f x ≡ g x) xs → map f xs ≡ map g xs
  map-cong f g [] h = refl
  map-cong f g (x ∷ xs) h = ap₂ ◌∷◌ h.0 (map-cong f g xs h.1)

  pub map-map : (f g : A → A) (xs : List A) → map f (map g xs) ≡ map (λ x. f (g x)) xs
  map-map f g [] = refl
  map-map f g (x ∷ xs) = ap (λ ys. f (g x) ∷ ys) (map-map f g xs)

  pub map-id : (xs : List A) → map (λ x. x) xs ≡ xs
  map-id [] = refl
  map-id (x ∷ xs) = ap (λ ys. x ∷ ys) (map-id xs)

module _ {ℓ} {A : Type ℓ} where
  abbrev pub filter : (A → Bool) → List A → List A
  filter p [] = []
  filter p (x ∷ xs) = let rest = filter p xs in if p x then x ∷ rest else rest

  -- What a filter leaves out, another that is at least as strict leaves out.
  pub filter-filter :
      (p q : A → Bool)
      → ((x : A) → p x ≡ true → q x ≡ true)
      → (xs : List A) → filter p (filter q xs) ≡ filter p xs
  filter-filter p q h [] = refl
  filter-filter p q h (x ∷ xs) = elim (Bool-cases (q x)) [
    | inl e ↦ rw (e, filter-filter p q h xs) refl
    | inr e ↦ elim (Bool-cases (p x)) [
      | inl k ↦ let l : q x ≡ true = h x k in cc
      | inr k ↦ rw (e, k, filter-filter p q h xs) refl
    ]
  ]

  pub filter-map :
      (p : A → Bool) (f : A → A)
      → ((x : A) → p (f x) ≡ p x)
      → (xs : List A) → filter p (map f xs) ≡ map f (filter p xs)
  filter-map p f h [] = refl
  filter-map p f h (x ∷ xs) = elim (Bool-cases (p x)) [
    | inl e ↦ rw (h x, e, filter-map p f h xs) refl
    | inr e ↦ rw (h x, e, filter-map p f h xs) refl
  ]

  -- A change that a filter does not see, of elements that it leaves out.
  pub filter-map_same :
      (p : A → Bool) (f : A → A)
      → ((x : A) → p (f x) ≡ p x)
      → ((x : A) → p x ≡ true → f x ≡ x)
      → (xs : List A) → filter p (map f xs) ≡ filter p xs
  filter-map_same p f h k [] = refl
  filter-map_same p f h k (x ∷ xs) = elim (Bool-cases (p x)) [
    | inl e ↦ rw (h x, e, k x e, filter-map_same p f h k xs) refl
    | inr e ↦ rw (h x, e, filter-map_same p f h k xs) refl
  ]

  pub filter-All :
      (p : A → Bool) (P : A → Type 0) (xs : List A)
      → All P xs
      → All (λ x. P x × (p x ≡ true)) (filter p xs)
  filter-All p P [] h = tt
  filter-All p P (x ∷ xs) h = elim (Bool-cases (p x)) [
    | inl e ↦ rw e ((h.0, e), filter-All p P xs h.1)
    | inr e ↦ rw e (filter-All p P xs h.1)
  ]
