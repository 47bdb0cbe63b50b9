-- ===== src/Segments/Like.antt =====
-- What the `contains` conditions of internal/segments/segments.go match: PostgreSQL's ILIKE on the
-- pattern that they build.
use listnun.Prelude.{
  ℕ, ◌≡◌, refl, ap, ◌∙◌, inl, inr, Bool, true, false, ◌&&◌, ◌||◌, Option, none, some, List, [], ◌∷◌,
  ◌++◌, map, if◌then◌else◌, ◌==◌, Bool-cases, Text, codes, has_prefix, has_substring,
}
use mathlib.Core.Path.{ap₂}
use mathlib.Core.List.{append_assoc}
use listnun.Segments.{
  Env, Field, attribute, email, name, joined, list, status, unconfirmed, last_opened, last_clicked,
  field_other, Condition, contains, sql, is_nothing, escape_byte, escape_like, text,
  compile_condition,
}

-- The elements of a LIKE pattern: a run of any bytes, one byte of any kind, a byte itself.
data Element : Type 0 where
  any_run any_one : Element
  itself : (c : ℕ) → Element

abbrev element : ℕ → Element
element c = if c == 37 then any_run else if c == 95 then any_one else itself c

-- A pattern's elements; a backslash makes the next byte stand for itself.
elements : Bool → Text → List Element
elements escaped [] = []
elements true (c ∷ p) = itself c ∷ elements false p
elements false (c ∷ p) =
    let rest = elements false p in
    let next = elements true p in if c == 92 then next else element c ∷ rest

-- A byte that is escaped stands for itself.
elements-escape_byte :
    (c : ℕ) (r : Text) → elements false (escape_byte c ++ r) ≡ itself c ∷ elements false r
unfolding elements
elements-escape_byte c r = elim (Bool-cases (c == 92)) [
  | inl e ↦ rw e refl
  | inr e ↦ elim (Bool-cases (c == 37)) [
    | inl f ↦ rw (e, f) refl
    | inr f ↦ elim (Bool-cases (c == 95)) [
      | inl g ↦ rw (e, f, g) refl
      | inr g ↦ rw (e, f, g, e, f, g) refl
    ]
  ]
]

elements-append :
    (c : ℕ) (s r : Text)
    → elements false ((escape_byte c ++ s) ++ r) ≡ itself c ∷ elements false (s ++ r)
elements-append c s r =
    ap (elements false) (append_assoc (escape_byte c) s r) ∙ elements-escape_byte c (s ++ r)

elements-escape_like :
    (v : Text) → elements false (escape_like v ++ (37 ∷ [])) ≡ map itself v ++ (any_run ∷ [])
unfolding escape_like elements
elements-escape_like [] = refl
elements-escape_like (c ∷ v) =
    elements-append c (escape_like v) (37 ∷ []) ∙ ap (λ es. itself c ∷ es) (elements-escape_like v)

some_suffix : (Text → Bool) → Text → Bool
some_suffix f [] = f []
some_suffix f (c ∷ s) = f (c ∷ s) || some_suffix f s

module _ (fold : ℕ → ℕ) where
  matches : List Element → Text → Bool
  matches [] s = is_nothing s
  matches (any_run ∷ es) s = some_suffix (matches es) s
  matches (any_one ∷ es) [] = false
  matches (any_one ∷ es) (x ∷ s) = matches es s
  matches (itself c ∷ es) [] = false
  matches (itself c ∷ es) (x ∷ s) = fold x == fold c && matches es s

  -- `s ILIKE pattern`, where `fold` is the fold of cases.
  pub ilike : Text → Text → Bool
  ilike s pattern = matches (elements false pattern) s

  run-matches : (s : Text) → some_suffix (matches []) s ≡ true
  unfolding some_suffix matches
  run-matches [] = refl
  run-matches (c ∷ s) = run-matches s

  prefix-matches :
      (v s : Text)
      → matches (map itself v ++ (any_run ∷ [])) s ≡ has_prefix (map fold s) (map fold v)
  unfolding matches has_prefix
  prefix-matches [] s = run-matches s
  prefix-matches (c ∷ v) [] = refl
  prefix-matches (c ∷ v) (x ∷ s) = ap (λ b. fold x == fold c && b) (prefix-matches v s)

  substring-matches :
      (v s : Text)
      → some_suffix (matches (map itself v ++ (any_run ∷ []))) s
        ≡ has_substring (map fold s) (map fold v)
  unfolding some_suffix has_substring
  substring-matches v [] = prefix-matches v []
  substring-matches v (x ∷ s) = ap₂ ◌||◌ (prefix-matches v (x ∷ s)) (substring-matches v s)

  -- The wildcards of a value stand for themselves.
  pub ilike-escape_like :
      (v s : Text)
      → ilike s (codes "%" ++ (escape_like v ++ codes "%"))
        ≡ has_substring (map fold s) (map fold v)
  unfolding ilike elements matches
  ilike-escape_like v s =
      ap (λ es. some_suffix (matches es) s) (elements-escape_like v) ∙ substring-matches v s

-- The column that a condition on text reads; the key of an attribute is not blank.
abbrev pub column : Env → Condition → Option Text
column env c = elim c.field [
  | attribute ↦
      if is_nothing (env.trim_space c.key)
      then none
      else some (codes "subscribers.attribs->>" ++ env.quote c.key)
  | email ↦ some (codes "subscribers.email")
  | name ↦ some (codes "subscribers.name")
  | _ ↦ none
]

-- A `contains` condition on an e-mail address, a name or an attribute compiles to ILIKE with a quoted
-- pattern, which matches exactly the texts that hold the condition's value as it is, whatever
-- wildcards it has, but for the fold of cases.
pub compile_condition-contains :
    (env : Env) (c : Condition) (col : Text)
    → c.op ≡ contains
    → column env c ≡ some col
    → (pattern : Text) × (compile_condition env c
        ≡ sql (col ++ (codes " ILIKE " ++ env.quote pattern)))
      × ((fold : ℕ → ℕ) (s : Text)
          → ilike fold s pattern ≡ has_substring (map fold s) (map fold c.value))
unfolding compile_condition text
compile_condition-contains env c col op h = (
  codes "%" ++ (escape_like c.value ++ codes "%"),
  go c.field refl h,
  λ fold s. ilike-escape_like fold c.value s,
)
  where
    nowhere : Option Text
    nowhere = none

    shown :
        (x : Text)
        → some x ≡ some col
        → sql
            (x ++ (codes " ILIKE " ++ env.quote (codes "%" ++ (escape_like c.value ++ codes "%"))))
          ≡ sql (
              col
              ++ (codes " ILIKE " ++ env.quote (codes "%" ++ (escape_like c.value ++ codes "%"))))
    shown x q = cc

    go :
        (f : Field)
        → c.field ≡ f
        → column env c ≡ some col
        → compile_condition env c
          ≡ sql (
              col
              ++ (codes " ILIKE " ++ env.quote (codes "%" ++ (escape_like c.value ++ codes "%"))))
    go email e k =
        let q : some (codes "subscribers.email") ≡ some col = rw e at k in
        rw (e, compile_condition) (rw (op, text) (shown _ q))
    go name e k =
        let q : some (codes "subscribers.name") ≡ some col = rw e at k in
        rw (e, compile_condition) (rw (op, text) (shown _ q))
    go attribute e k = elim (Bool-cases (is_nothing (env.trim_space c.key))) [
      | inl b ↦ let q : nowhere ≡ some col = rw b at (rw e at k) in cc
      | inr b ↦
          let q : some (codes "subscribers.attribs->>" ++ env.quote c.key) ≡ some col =
            rw b at (rw e at k) in
          rw (e, compile_condition) (rw (b, op, text) (shown _ q))
    ]
    go joined e k = let q : nowhere ≡ some col = rw e at k in cc
    go list e k = let q : nowhere ≡ some col = rw e at k in cc
    go status e k = let q : nowhere ≡ some col = rw e at k in cc
    go unconfirmed e k = let q : nowhere ≡ some col = rw e at k in cc
    go last_opened e k = let q : nowhere ≡ some col = rw e at k in cc
    go last_clicked e k = let q : nowhere ≡ some col = rw e at k in cc
    go (field_other s) e k = let q : nowhere ≡ some col = rw e at k in cc
