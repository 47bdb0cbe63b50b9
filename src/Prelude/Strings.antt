-- ===== src/Prelude/Strings.antt =====
-- Go strings as lists of bytes, with the functions of package `strings` that the code calls.
use Prim.Native.Nat.{ℕ, ◌+◌}
use Prim.Native.Char.{code}
use Prim.Native.String.{String}
use mathlib.Core.Path.{◌≡◌, refl}
use mathlib.Core.Logic.{◌↔◌, ◌≢◌, inl, inr}
use mathlib.Core.Bool.{Bool, true, false, ◌&&◌, ◌||◌}
use mathlib.Core.List.{List, [], ◌∷◌, ◌++◌}
use native.Mathlib.Omega.{arith}
use listnun.Prelude.Tests.{◌==◌, ==_iff, if◌then◌else◌, Bool-cases}

abbrev pub Text : Type 0
Text = List ℕ

-- The bytes of an ASCII literal.
abbrev pub codes : String → Text
codes String.[] = []
codes (String.◌∷◌ c s) = code c ∷ codes s

unfoldable pub text_eq : Text → Text → Bool
text_eq [] [] = true
text_eq [] (y ∷ ys) = false
text_eq (x ∷ xs) [] = false
text_eq (x ∷ xs) (y ∷ ys) = x == y && text_eq xs ys

pub text_eq_sound : (s t : Text) → text_eq s t ≡ true → s ≡ t
unfolding text_eq
text_eq_sound [] [] h = refl
text_eq_sound [] (y ∷ ys) h = cc
text_eq_sound (x ∷ xs) [] h = cc
text_eq_sound (x ∷ xs) (y ∷ ys) h = ground (arith, text_eq_sound xs ys)

pub text_eq_refl : (s : Text) → text_eq s s ≡ true
unfolding text_eq
text_eq_refl [] = refl
text_eq_refl (x ∷ xs) = ground (arith, text_eq_refl xs)

pub text_eq_iff : (s t : Text) → (text_eq s t ≡ true) ↔ (s ≡ t)
text_eq_iff s t = (text_eq_sound s t, λ e. rw e (text_eq_refl t))

-- A set of strings, as Go keeps one in the keys of a map.
unfoldable pub contains : List Text → Text → Bool
contains [] s = false
contains (t ∷ ts) s = text_eq t s || contains ts s

-- strings.HasPrefix
unfoldable pub has_prefix : Text → Text → Bool
has_prefix s [] = true
has_prefix [] (p ∷ ps) = false
has_prefix (c ∷ s) (p ∷ ps) = c == p && has_prefix s ps

-- strings.Contains
unfoldable pub has_substring : Text → Text → Bool
has_substring [] sub = has_prefix [] sub
has_substring (c ∷ s) sub = has_prefix (c ∷ s) sub || has_substring s sub

abbrev drop : Text → Text → Text
drop s [] = s
drop [] (p ∷ ps) = []
drop (c ∷ s) (p ∷ ps) = drop s ps

-- strings.TrimPrefix
unfoldable pub trim_prefix : Text → Text → Text
trim_prefix s p = if has_prefix s p then drop s p else s

-- strings.Count of one byte.
unfoldable pub count_byte : ℕ → Text → ℕ
count_byte b [] = 0
count_byte b (c ∷ s) = if c == b then count_byte b s + 1 else count_byte b s

-- The next byte of strings.Split's result.
abbrev pub split_cons : Bool → ℕ → List Text → List Text
split_cons true c parts = [] ∷ parts
split_cons false c [] = (c ∷ []) ∷ []
split_cons false c (p ∷ ps) = (c ∷ p) ∷ ps

-- strings.Split at one byte.
unfoldable pub split : ℕ → Text → List Text
split b [] = [] ∷ []
split b (c ∷ s) = split_cons (c == b) c (split b s)

-- strings.Join
unfoldable pub join : Text → List Text → Text
join sep [] = []
join sep (p ∷ []) = p
join sep (p ∷ q ∷ ps) = p ++ (sep ++ join sep (q ∷ ps))

split_ne : (b : ℕ) (s : Text) → split b s ≢ []
unfolding split
split_ne b [] = λ e. cc
split_ne b (c ∷ s) = go (c == b) (split b s)
  where
    go : (t : Bool) (parts : List Text) → split_cons t c parts ≢ []
    go true parts = λ e. cc
    go false [] = λ e. cc
    go false (p ∷ ps) = λ e. cc

-- Joining the parts of a text by the byte that it was split at gives the text back.
pub join-split : (b : ℕ) (s : Text) → join (b ∷ []) (split b s) ≡ s
unfolding join split
join-split b [] = refl
join-split b (c ∷ s) =
    go (split b s) (c == b) (λ e. (==_iff c b).0 e) (join-split b s) (split_ne b s)
  where
    go :
        (parts : List Text) (t : Bool)
        → (t ≡ true → c ≡ b)
        → join (b ∷ []) parts ≡ s
        → parts ≢ []
        → join (b ∷ []) (split_cons t c parts) ≡ c ∷ s
    go [] t h e n = absurd (n refl)
    go (p ∷ ps) true h e n = rw (e, h refl)
    go (p ∷ []) false h e n = rw e
    go (p ∷ q ∷ ps) false h e n = rw e

-- A text that begins with a label without the byte splits off that label.
pub split-append :
    (b : ℕ) (label rest : Text)
    → count_byte b label ≡ 0
    → split b (label ++ (b ∷ rest)) ≡ label ∷ split b rest
unfolding split count_byte
split-append b [] rest h = rw ((==_iff b b).1 refl)
split-append b (c ∷ label) rest h = elim (Bool-cases (c == b)) [
  | inl e ↦ absurd (ground arith)
  | inr e ↦ rw (e, split-append b label rest (ground arith))
]

pub join-cons-split : (b : ℕ) (p s : Text) → join (b ∷ []) (p ∷ split b s) ≡ p ++ (b ∷ s)
unfolding join
join-cons-split b p s = go (split b s) (join-split b s) (split_ne b s)
  where
    go :
        (parts : List Text)
        → join (b ∷ []) parts ≡ s
        → parts ≢ []
        → join (b ∷ []) (p ∷ parts) ≡ p ++ (b ∷ s)
    go [] e n = absurd (n refl)
    go (q ∷ qs) e n = rw e

pub count_byte-append :
    (b : ℕ) (s t : Text) → count_byte b (s ++ t) ≡ count_byte b s + count_byte b t
unfolding count_byte
count_byte-append b [] t = omega arith
count_byte-append b (c ∷ s) t = ground (arith, count_byte-append b s t)
