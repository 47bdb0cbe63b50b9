-- ===== src/Tokens/Views.antt =====
-- What the store of tokens means at a time: for each ID, the value of a token that has not expired
-- and the checks it has left.
use listnun.Prelude.{
  ℕ, zero, suc, ◌+◌, ◌-◌, ◌≤◌, ◌≡◌, refl, true, false, Option, none, some, Text, text_eq,
  text_eq_refl, ltb, if◌then◌else◌, arith, Bool-cases, inl, inr, ◌⊎◌,
}
use listnun.Tokens.{
  max_tries, Token, Tokens, put, expired, set, check_token, check, peek_token, peek, get_token, get,
  delete, clean_token, clean,
}

module _ {A : Type 0} where
  unfoldable pub view : ℕ → Option (Token A) → Option (A × ℕ)
  view now none = none
  view now (some t) = if expired now t then none else some (t.value, max_tries - t.count)

  -- The value, if a check is left.
  abbrev pub answer : Option (A × ℕ) → Option A
  answer none = none
  answer (some (x, zero)) = none
  answer (some (x, suc n)) = some x

  -- One check less; the last one too many deletes the token.
  abbrev pub spend : Option (A × ℕ) → Option (A × ℕ)
  spend none = none
  spend (some (x, zero)) = none
  spend (some (x, suc n)) = some (x, n)

  abbrev pub value_of : Option (A × ℕ) → Option A
  value_of none = none
  value_of (some (x, n)) = some x

  pub put-same : (id : Text) (t : Option (Token A)) (s : Tokens A) → put id t s id ≡ t
  unfolding put
  put-same id t s = rw (text_eq_refl id) refl

  pub put-other :
      (id k : Text) (t : Option (Token A)) (s : Tokens A)
      → text_eq k id ≡ false
      → put id t s k ≡ s k
  unfolding put
  put-other id k t s e = rw e refl

  expired-later :
      (now later : ℕ) (t : Token A) → now ≤ later → expired now t ≡ true → expired later t ≡ true
  unfolding expired
  expired-later now later t h e = ground arith

  clean_token-view :
      (now later : ℕ) (t : Option (Token A))
      → now ≤ later
      → view later (clean_token now t) ≡ view later t
  unfolding view clean_token
  clean_token-view now later none h = refl
  clean_token-view now later (some t) h = elim (Bool-cases (expired now t)) [
    | inl e ↦ rw (e, clean_token, expired-later now later t h e) refl
    | inr e ↦ rw (e, clean_token) refl
  ]

  -- Clean changes no view of any token at its time or later.
  clean-view :
      (now later : ℕ) (s : Tokens A) (k : Text)
      → now ≤ later
      → view later (clean now s k) ≡ view later (s k)
  unfolding clean
  clean-view now later s k h = clean_token-view now later (s k) h

  tries_left :
      (t : Token A)
      → t.count + 1 ≤ max_tries
      → max_tries - t.count ≡ suc (max_tries - (t.count + 1))
  tries_left t h = omega (arith, h)

  -- The token that a check writes back.
  spent-view :
      (later : ℕ) (t : Token A)
      → t.count + 1 ≤ max_tries
      → view later (some (record t { count = t.count + 1 })) ≡ spend (view later (some t))
  unfolding view expired
  spent-view later t h = elim (Bool-cases (ltb (t.created_at + t.ttl) later)) [
    | inl e ↦ rw e refl
    | inr e ↦ rw (e, tries_left t h) refl
  ]

  used_up : (later : ℕ) (t : Token A) → max_tries - t.count ≡ 0 → none ≡ spend (view later (some t))
  unfolding view
  used_up later t h = elim (Bool-cases (expired later t)) [
    | inl e ↦ rw e refl
    | inr e ↦ rw (e, h) refl
  ]

  abbrev Checked : ℕ → ℕ → Text → Option (Token A) → Tokens A → Option A × Tokens A → Type 0
  Checked now later id t s r =
      (r.0 ≡ answer (view now t))
      × (view later (r.1 id) ≡ spend (view later t))
      × ((k : Text) → text_eq k id ≡ false → r.1 k ≡ s k)

  check_token-Checked :
      (now later : ℕ) (id : Text) (t : Option (Token A)) (s : Tokens A)
      → now ≤ later
      → s id ≡ t
      → Checked now later id t s (check_token now id t s)
  unfolding check_token view
  check_token-Checked now later id none s h e = (refl, rw e refl, λ k n. refl)
  check_token-Checked now later id (some t) s h e = elim (Bool-cases (expired now t)) [
    | inl x ↦
        rw (x, check_token, view)
          (
            refl,
            rw (put-same id none s, expired-later now later t h x, view) refl,
            λ k n. put-other id k none s n,
          )
    | inr x ↦ elim (Bool-cases (ltb max_tries (t.count + 1))) [
      | inl m ↦
          let gone : max_tries - t.count ≡ 0 = ground arith in
          rw (x, m, check_token, view)
            (
              rw gone refl,
              rw (put-same id none s) (used_up later t gone),
              λ k n. put-other id k none s n,
            )
      | inr m ↦
          rw (x, m, check_token, view)
            (
              rw (tries_left t (ground arith)) refl,
              rw (put-same id (some (record t { count = t.count + 1 })) s)
                  (spent-view later t (ground arith)),
              λ k n. put-other id k _ s n,
            )
    ]
  ]

  -- Check answers with the value if a check is left, takes one from its own token at every later
  -- time, and leaves the others as they are.
  check-view :
      (now later : ℕ) (id : Text) (s : Tokens A)
      → now ≤ later
      → let r = check now id s in
        (r.0 ≡ answer (view now (s id)))
        × (view later (r.1 id) ≡ spend (view later (s id)))
        × ((k : Text) → text_eq k id ≡ false → r.1 k ≡ s k)
  unfolding check
  check-view now later id s h = check_token-Checked now later id (s id) s h refl

  -- Get answers with the value of a token that has not expired, however often it was checked; the
  -- token is gone then, and the others stay as they are.
  get-view :
      (now later : ℕ) (id : Text) (s : Tokens A)
      → let r = get now id s in
        (r.0 ≡ value_of (view now (s id)))
        × (r.0 ≡ peek now id s)
        × (view later (r.1 id) ≡ none)
        × ((k : Text) → text_eq k id ≡ false → r.1 k ≡ s k)
  unfolding get peek get_token peek_token view
  get-view now later id s = go (s id) refl
    where
      go :
          (t : Option (Token A))
          → s id ≡ t
          → let r = get_token now id t s in
            (r.0 ≡ value_of (view now t))
            × (r.0 ≡ peek_token now t)
            × (view later (r.1 id) ≡ none)
            × ((k : Text) → text_eq k id ≡ false → r.1 k ≡ s k)
      go none e = (refl, refl, rw e refl, λ k n. refl)
      go (some t) e = elim (Bool-cases (expired now t)) [
        | inl x ↦
            rw (x, get_token, peek_token, view)
              (refl, refl, rw (put-same id none s) refl, λ k n. put-other id k none s n)
        | inr x ↦
            rw (x, get_token, peek_token, view)
              (refl, refl, rw (put-same id none s) refl, λ k n. put-other id k none s n)
      ]

  -- A token that is set has all its checks until its time is over, and is gone when it is deleted;
  -- both leave the others as they are.
  set-view :
      (now later : ℕ) (id : Text) (ttl : ℕ) (x : A) (s : Tokens A) (k : Text)
      → (view later (set now id ttl x s id)
          ≡ (if ltb (now + ttl) later then none else some (x, max_tries)))
        × (view later (delete id s id) ≡ none)
        × ((text_eq k id ≡ true) ⊎ (set now id ttl x s k ≡ s k) × (delete id s k ≡ s k))
  unfolding set delete view expired
  set-view now later id ttl x s k = (
    rw (put-same id (some (record { ttl = ttl; created_at = now; count = 0; value = x })) s) refl,
    rw (put-same id none s) refl,
    elim (Bool-cases (text_eq k id)) [
      | inl e ↦ inl e
      | inr e ↦ inr (put-other id k _ s e, put-other id k none s e)
    ],
  )
