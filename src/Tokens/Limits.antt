-- ===== src/Tokens/Limits.antt =====
-- How often a token can be used.
use listnun.Prelude.{
  ℕ, ◌+◌, ◌-◌, ◌≤◌, ◌≡◌, refl, Bool, false, Option, none, some, List, [], ◌∷◌, Text, text_eq,
  text_eq_iff, text_eq_refl, ltb, if◌then◌else◌, arith, Bool-cases, inl, inr, All, ◌∙◌,
}
use listnun.Tokens.{
  max_tries, Token, Tokens, Call, sets, checks, gets, deletes, cleans, put, expired, set,
  check_token, check, get_token, get, delete, clean_token, clean, call, call_all,
}
use listnun.Tokens.Views.{put-same, put-other}

text_eq_comm : (s t : Text) → text_eq s t ≡ text_eq t s
unfolding text_eq
text_eq_comm [] [] = refl
text_eq_comm [] (y ∷ ys) = refl
text_eq_comm (x ∷ xs) [] = refl
text_eq_comm (x ∷ xs) (y ∷ ys) = ground (arith, text_eq_comm xs ys)

module _ {A : Type 0} where
  -- The checks that are left, and whether a value can be got.
  abbrev pub tries : Option (Token A) → ℕ
  tries none = 0
  tries (some t) = max_tries - t.count

  abbrev pub uses : Option (Token A) → ℕ
  uses none = 0
  uses (some t) = 1

  abbrev passed : Option A → ℕ
  passed none = 0
  passed (some x) = 1

  abbrev pub is_check : Text → Call A → Bool
  is_check id (checks now k) = text_eq k id
  is_check id _ = false

  abbrev pub is_get : Text → Call A → Bool
  is_get id (gets now k) = text_eq k id
  is_get id _ = false

  abbrev pub is_set : Text → Call A → Bool
  is_set id (sets now k ttl x) = text_eq k id
  is_set id _ = false

  -- The calls of a kind that returned a value.
  abbrev pub successes : (Call A → Bool) → List (Call A) → List (Option A) → ℕ
  successes p (c ∷ cs) (r ∷ rs) = (if p c then passed r else 0) + successes p cs rs
  successes p _ _ = 0

  -- The effect of one call on one token: what it passes it takes.
  abbrev Takes : Text → Call A → Tokens A → Option A × Tokens A → Type 0
  Takes id c s r =
      ((if is_check id c then passed r.0 else 0) + tries (r.1 id) ≤ tries (s id))
      × ((if is_get id c then passed r.0 else 0) + uses (r.1 id) ≤ uses (s id))

  checked-Takes :
      (now : ℕ) (id : Text) (t : Option (Token A)) (s : Tokens A)
      → s id ≡ t
      → let r = check_token now id t s in
        (passed r.0 + tries (r.1 id) ≤ tries t) × (0 + uses (r.1 id) ≤ uses t)
  unfolding check_token
  checked-Takes now id none s e = rw e (omega arith, omega arith)
  checked-Takes now id (some t) s e = elim (Bool-cases (expired now t)) [
    | inl x ↦ rw (x, check_token, put-same id none s) (omega arith, omega arith)
    | inr x ↦ elim (Bool-cases (ltb max_tries (t.count + 1))) [
      | inl m ↦ rw (x, m, check_token, put-same id none s) (omega arith, omega arith)
      | inr m ↦
          rw (x, m, check_token, put-same id (some (record t { count = t.count + 1 })) s)
            (ground arith, omega arith)
    ]
  ]

  got-Takes :
      (now : ℕ) (id : Text) (t : Option (Token A)) (s : Tokens A)
      → s id ≡ t
      → let r = get_token now id t s in
        (0 + tries (r.1 id) ≤ tries t) × (passed r.0 + uses (r.1 id) ≤ uses t)
  unfolding get_token
  got-Takes now id none s e = rw e (omega arith, omega arith)
  got-Takes now id (some t) s e = elim (Bool-cases (expired now t)) [
    | inl x ↦ rw (x, get_token, put-same id none s) (omega arith, omega arith)
    | inr x ↦ rw (x, get_token, put-same id none s) (omega arith, omega arith)
  ]

  check_token-other :
      (now : ℕ) (k id : Text) (t : Option (Token A)) (s : Tokens A)
      → text_eq id k ≡ false
      → ((check_token now k t s).1 id ≡ s id) × ((get_token now k t s).1 id ≡ s id)
  unfolding check_token get_token
  check_token-other now k id none s n = (refl, refl)
  check_token-other now k id (some t) s n = elim (Bool-cases (expired now t)) [
    | inl x ↦ rw (x, check_token, get_token) (put-other k id none s n, put-other k id none s n)
    | inr x ↦ elim (Bool-cases (ltb max_tries (t.count + 1))) [
      | inl m ↦ rw (x, m, check_token, get_token) (put-other k id none s n, put-other k id none s n)
      | inr m ↦ rw (x, m, check_token, get_token) (put-other k id _ s n, put-other k id none s n)
    ]
  ]

  call-Takes :
      (id : Text) (c : Call A) (s : Tokens A) → is_set id c ≡ false → Takes id c s (call c s)
  unfolding call check get set delete clean put clean_token
  call-Takes id (sets now k ttl x) s n =
      rw (put-other k id (some _) s (text_eq_comm id k ∙ n)) (omega arith, omega arith)
  call-Takes id (checks now k) s n = elim (Bool-cases (text_eq k id)) [
    | inl e ↦ rw ((text_eq_iff k id).0 e, text_eq_refl id) (checked-Takes now id (s id) s refl)
    | inr e ↦
        rw (e, (check_token-other now k id (s k) s (text_eq_comm id k ∙ e)).0)
          (omega arith, omega arith)
  ]
  call-Takes id (gets now k) s n = elim (Bool-cases (text_eq k id)) [
    | inl e ↦ rw ((text_eq_iff k id).0 e, text_eq_refl id) (got-Takes now id (s id) s refl)
    | inr e ↦
        rw (e, (check_token-other now k id (s k) s (text_eq_comm id k ∙ e)).1)
          (omega arith, omega arith)
  ]
  call-Takes id (deletes k) s n = elim (Bool-cases (text_eq id k)) [
    | inl e ↦ rw (e, put) (omega arith, omega arith)
    | inr e ↦ rw (put-other k id none s e) (omega arith, omega arith)
  ]
  call-Takes id (cleans now) s n = cleaned (s id)
    where
      cleaned :
          (t : Option (Token A))
          → (0 + tries (clean_token now t) ≤ tries t) × (0 + uses (clean_token now t) ≤ uses t)
      cleaned none = (omega arith, omega arith)
      cleaned (some t) = elim (Bool-cases (expired now t)) [
        | inl e ↦ rw (e, clean_token) (omega arith, omega arith)
        | inr e ↦ rw (e, clean_token) (omega arith, omega arith)
      ]

  limits : (t : Option (Token A)) → (tries t ≤ 15) × (uses t ≤ 1)
  limits none = (omega arith, omega arith)
  limits (some t) = (omega arith, omega arith)

  -- Between two settings of a token, whatever else is called: at most as many checks of it return
  -- its value as it had left, which is at most 15, and at most one Get does.
  pub call_all_limits :
      (id : Text) (cs : List (Call A)) (s : Tokens A)
      → All (λ c. is_set id c ≡ false) cs
      → (successes (is_check id) cs (call_all cs s).0 ≤ tries (s id))
        × (successes (is_get id) cs (call_all cs s).0 ≤ uses (s id))
        × ((tries (s id) ≤ 15) × (uses (s id) ≤ 1))
  unfolding call_all
  call_all_limits id [] s a = (omega arith, omega arith, limits (s id))
  call_all_limits id (c ∷ cs) s a =
      let (t, u) = call-Takes id c s a.0 in
      let (t', u', l) = call_all_limits id cs (call c s).1 a.1 in
      (omega (arith, t, t'), omega (arith, u, u'), limits (s id))
