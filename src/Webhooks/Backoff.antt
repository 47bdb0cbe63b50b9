-- ===== src/Webhooks/Backoff.antt =====
-- The waits between the attempts of a delivery: NextDelay of internal/webhooks/webhooks.go.
use listnun.Prelude.{
  ℕ, zero, suc, ◌+◌, ◌≤◌, ◌<◌, ◌≡◌, refl, ◌⊎◌, inr, Option, none, some, List, [], ◌∷◌, arith,
}
use listnun.Webhooks.{next_delay}

abbrev next_time : ℕ → Option ℕ → ℕ
next_time now none = now
next_time now (some d) = now + d

abbrev unless_done : Option ℕ → List ℕ → List ℕ
unless_done none ts = []
unless_done (some d) ts = ts

-- When the attempts of a delivery are made that fails each time and is sent as soon as it is due,
-- the attempt `k` at the time `now`; `n` bounds the number that is listed.
unfoldable pub attempt_times : ℕ → ℕ → ℕ → List ℕ
attempt_times zero k now = []
attempt_times (suc n) k now =
    now ∷ unless_done (next_delay k) (attempt_times n (k + 1) (next_time now (next_delay k)))

-- However many attempts are allowed for, from eight on, a delivery that always fails is tried eight
-- times, and the last attempt comes 83,940 seconds (23 h 19 min) after the first.
attempts_span :
    (n now : ℕ)
    → attempt_times (8 + n) 1 now
      ≡ now
        ∷ (now + 240)
        ∷ (now + 1140)
        ∷ (now + 4740)
        ∷ (now + 19140)
        ∷ (now + 40740)
        ∷ (now + 62340)
        ∷ (now + 83940)
        ∷ []
unfolding attempt_times next_delay
attempts_span n now = ground arith

-- The attempt after `tried` others, when it fails, is followed by another exactly when it is one of
-- the first seven, and then the wait lies between four minutes and six hours.
pub next_delay_cases :
    (tried : ℕ)
    → ((7 ≤ tried) × (next_delay (tried + 1) ≡ none))
      ⊎ ((tried < 7) × ((d : ℕ) × (next_delay (tried + 1) ≡ some d) × (240 ≤ d) × (d ≤ 21600)))
unfolding next_delay
next_delay_cases zero = inr (omega arith, (240, refl, omega arith, omega arith))
next_delay_cases (suc zero) = inr (omega arith, (900, refl, omega arith, omega arith))
next_delay_cases (suc (suc zero)) = inr (omega arith, (3600, refl, omega arith, omega arith))
next_delay_cases (suc (suc (suc zero))) = inr (omega arith, (14400, refl, omega arith, omega arith))
next_delay_cases (suc (suc (suc (suc t)))) = ground arith
