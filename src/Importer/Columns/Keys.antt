-- ===== src/Importer/Columns/Keys.antt =====
-- AttributeKey: the shape of the keys, and that a key is its own key.
use listnun.Prelude.{
  ℕ, ◌≡◌, ◌⊎◌, inl, inr, refl, sym, ap, Bool, true, false, not, [], ◌∷◌, Text, arith, ◌==◌, ==_iff,
}
use mathlib.Core.Bool.{false≢true}
use listnun.Importer.Types.{Std}
use listnun.Importer.Columns.{
  is_word, underscore, emit, collapse_from, trim_left, trim_right, keep_end, attribute_key,
}

-- Words joined by single underscores: with `start`, the text begins with a word, and it ends with
-- one.
abbrev pub Words : Bool → Text → Type 0
Words start [] = start ≡ false
Words start (c ∷ s) =
    ((is_word c ≡ true) × Words false s) ⊎ (start ≡ false) × (c ≡ underscore) × Words true s

-- Nothing, or words joined by single underscores.
abbrev pub IsKey : Text → Type 0
IsKey k = (k ≡ []) ⊎ Words true k

-- No byte but those of words and underscores, and no two underscores in a row.
abbrev Sparse : Bool → Text → Type 0
Sparse after_gap [] = Unit {0}
Sparse after_gap (c ∷ s) =
    ((is_word c ≡ true) × Sparse false s) ⊎ (after_gap ≡ false) × (c ≡ underscore) × Sparse true s

underscore_not_word : is_word underscore ≡ false
unfolding is_word
underscore_not_word = refl

word_ne_underscore : (c : ℕ) → is_word c ≡ true → (c == underscore) ≡ false
unfolding is_word
word_ne_underscore c h = ground arith

collapse_from-Sparse : (inside : Bool) (s : Text) → Sparse inside (collapse_from inside s)
unfolding collapse_from
collapse_from-Sparse inside [] = tt
collapse_from-Sparse inside (c ∷ s) =
    go (is_word c) inside refl (collapse_from-Sparse (not (is_word c)) s)
  where
    go :
        (w inside : Bool)
        → is_word c ≡ w
        → Sparse (not w) (collapse_from (not w) s)
        → Sparse inside (emit w inside c (collapse_from (not w) s))
    go true inside e h = inl (e, h)
    go false true e h = h
    go false false e h = inr (refl, refl, h)

Sparse-weaken : (s : Text) → Sparse true s → Sparse false s
Sparse-weaken [] h = tt
Sparse-weaken (c ∷ s) (inl h) = inl h
Sparse-weaken (c ∷ s) (inr h) = absurd (false≢true (sym h.0))

trim_left-Sparse : (gap : Bool) (s : Text) → Sparse gap s → Sparse true (trim_left s)
unfolding trim_left
trim_left-Sparse gap [] h = tt
trim_left-Sparse gap (c ∷ s) (inl (w, h)) = rw (word_ne_underscore c w) (inl (w, h))
trim_left-Sparse gap (c ∷ s) (inr (g, e, h)) =
    rw ((==_iff c underscore).1 e) (trim_left-Sparse true s h)

keep_word : (c : ℕ) (s : Text) → is_word c ≡ true → keep_end (c == underscore) c s ≡ c ∷ s
keep_word c s w = rw (word_ne_underscore c w)

trim_right-Words :
    (gap : Bool) (s : Text) → Sparse gap s → (trim_right s ≡ []) ⊎ Words gap (trim_right s)
unfolding trim_right
trim_right-Words gap [] h = inl refl
trim_right-Words gap (c ∷ s) (inl (w, h)) = elim (trim_right-Words false s h) [
  | inl e ↦ inr (rw (keep_word c (trim_right s) w, e) (inl (w, refl)))
  | inr k ↦ inr (rw (keep_word c (trim_right s) w) (inl (w, k)))
]
trim_right-Words gap (c ∷ s) (inr (g, e, h)) =
    rw ((==_iff c underscore).1 e) (go (trim_right s) (trim_right-Words true s h))
  where
    go :
        (r : Text)
        → (r ≡ []) ⊎ Words true r
        → (keep_end true c r ≡ []) ⊎ Words gap (keep_end true c r)
    go [] k = inl refl
    go (d ∷ r) (inl k) = absurd (cc)
    go (d ∷ r) (inr k) = inr (inr (g, e, k))

attribute_key-IsKey : (std : Std) (h : Text) → IsKey (attribute_key std h)
unfolding attribute_key
attribute_key-IsKey std h =
    trim_right-Words true _ (trim_left-Sparse false _ (collapse_from-Sparse false (std.to_lower h)))

collapse_from-Words : (start : Bool) (s : Text) → Words start s → collapse_from start s ≡ s
unfolding collapse_from
collapse_from-Words start [] k = refl
collapse_from-Words start (c ∷ s) (inl (w, k)) = rw w (ap (◌∷◌ c) (collapse_from-Words false s k))
collapse_from-Words start (c ∷ s) (inr (g, e, k)) =
    rw (g, e, underscore_not_word) (ap (◌∷◌ underscore) (collapse_from-Words true s k))

Words-weaken : (s : Text) → Words true s → Words false s
Words-weaken [] k = absurd (false≢true (sym k))
Words-weaken (c ∷ s) (inl k) = inl k
Words-weaken (c ∷ s) (inr (g, e, k)) = absurd (false≢true (sym g))

trim_left-Words : (s : Text) → Words true s → trim_left s ≡ s
unfolding trim_left
trim_left-Words [] k = refl
trim_left-Words (c ∷ s) (inl (w, k)) = rw (word_ne_underscore c w)
trim_left-Words (c ∷ s) (inr (g, e, k)) = absurd (false≢true (sym g))

trim_right-fixed : (start : Bool) (s : Text) → Words start s → trim_right s ≡ s
unfolding trim_right
trim_right-fixed start [] k = refl
trim_right-fixed start (c ∷ s) (inl (w, k)) = rw (trim_right-fixed false s k) (keep_word c s w)
trim_right-fixed start (c ∷ []) (inr (g, e, k)) = absurd (false≢true (sym k))
trim_right-fixed start (c ∷ d ∷ s) (inr (g, e, k)) = rw (trim_right-fixed true (d ∷ s) k, e)

attribute_key_fixed :
    (std : Std) (k : Text) → std.to_lower k ≡ k → IsKey k → attribute_key std k ≡ k
unfolding attribute_key
attribute_key_fixed std k lower (inl e) = rw (lower, e)
attribute_key_fixed std k lower (inr w) =
    rw (lower, collapse_from-Words false k (Words-weaken k w), trim_left-Words k w)
      (trim_right-fixed true k w)

-- Every key is empty or words of lower case letters and digits joined by single underscores, and,
-- where the lower case of a text is the text itself if it has no other bytes, the key of a key is
-- that key, so that what GuessColumn proposes is what newColumnMap saves.
attribute_key_idem :
    (std : Std) (h : Text)
    → ((k : Text) → IsKey k → std.to_lower k ≡ k)
    → IsKey (attribute_key std h) × (attribute_key std (attribute_key std h) ≡ attribute_key std h)
attribute_key_idem std h lower =
    let k = attribute_key-IsKey std h in (k, attribute_key_fixed std _ (lower _ k) k)
