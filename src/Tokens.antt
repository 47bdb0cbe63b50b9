-- ===== src/Tokens.antt =====
-- The one-time tokens of password resets, two-factor logins and setup links
-- (internal/tmptokens/tmptokens.go). Every function holds the package's lock, so each is one step;
-- `now` is the time of the step.
pub mod Views
pub mod Limits
mod Examples
use listnun.Prelude.{
  ℕ, ◌+◌, Bool, true, false, Option, none, some, List, [], ◌∷◌, Text, text_eq, ltb, if◌then◌else◌,
}

abbrev pub max_tries : ℕ
max_tries = 15

pub record Token (A : Type 0) : Type 0 where
  pub ttl : ℕ
  pub created_at : ℕ
  pub count : ℕ
  pub value : A

-- The map of the package.
abbrev pub Tokens : Type 0 → Type 0
Tokens A = Text → Option (Token A)

-- The calls, each with its time.
pub data Call (A : Type 0) : Type 0 where
  sets : ℕ → Text → ℕ → A → Call A
  checks : ℕ → Text → Call A
  gets : ℕ → Text → Call A
  deletes : Text → Call A
  cleans : ℕ → Call A

module _ {A : Type 0} where
  unfoldable pub put : Text → Option (Token A) → Tokens A → Tokens A
  put id t s = λ k. if text_eq k id then t else s k

  -- time.Since(CreatedAt) > TTL; the clock of the process does not go back.
  unfoldable pub expired : ℕ → Token A → Bool
  expired now t = ltb (t.created_at + t.ttl) now

  -- Set
  unfoldable pub set : ℕ → Text → ℕ → A → Tokens A → Tokens A
  set now id ttl x s =
      put id (some (record { ttl = ttl; created_at = now; count = 0; value = x })) s

  unfoldable pub check_token : ℕ → Text → Option (Token A) → Tokens A → Option A × Tokens A
  check_token now id none s = (none, s)
  check_token now id (some t) s =
      if expired now t
      then (none, put id none s)
      else (if ltb max_tries (t.count + 1)
          then (none, put id none s)
          else (some t.value, put id (some (record t { count = t.count + 1 })) s))

  -- Check
  unfoldable pub check : ℕ → Text → Tokens A → Option A × Tokens A
  check now id s = check_token now id (s id) s

  unfoldable pub peek_token : ℕ → Option (Token A) → Option A
  peek_token now none = none
  peek_token now (some t) = if expired now t then none else some t.value

  -- Peek
  unfoldable pub peek : ℕ → Text → Tokens A → Option A
  peek now id s = peek_token now (s id)

  unfoldable pub get_token : ℕ → Text → Option (Token A) → Tokens A → Option A × Tokens A
  get_token now id none s = (none, s)
  get_token now id (some t) s =
      if expired now t then (none, put id none s) else (some t.value, put id none s)

  -- Get
  unfoldable pub get : ℕ → Text → Tokens A → Option A × Tokens A
  get now id s = get_token now id (s id) s

  -- Delete
  unfoldable pub delete : Text → Tokens A → Tokens A
  delete id s = put id none s

  unfoldable pub clean_token : ℕ → Option (Token A) → Option (Token A)
  clean_token now none = none
  clean_token now (some t) = if expired now t then none else some t

  -- Clean
  unfoldable pub clean : ℕ → Tokens A → Tokens A
  clean now s = λ k. clean_token now (s k)

  -- The store after a call, and the call's result.
  unfoldable pub call : Call A → Tokens A → Option A × Tokens A
  call (sets now id ttl x) s = (none, set now id ttl x s)
  call (checks now id) s = check now id s
  call (gets now id) s = get now id s
  call (deletes id) s = (none, delete id s)
  call (cleans now) s = (none, clean now s)

  -- The results of the calls, in order.
  unfoldable pub call_all : List (Call A) → Tokens A → List (Option A) × Tokens A
  call_all [] s = ([], s)
  call_all (c ∷ cs) s = let (r, s') = call c s in let (rs, s'') = call_all cs s' in (r ∷ rs, s'')
