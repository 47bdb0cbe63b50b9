-- ===== src/Webhooks/Rows.antt =====
-- What holds of every row of webhook_deliveries, and how a pass of the worker acts on a single row.
use listnun.Prelude.{
  ℕ, ◌+◌, ◌-◌, ◌≤◌, ◌<◌, ◌≡◌, refl, ◌⊎◌, inl, inr, true, Option, none, some, arith, if◌then◌else◌,
  Bool-cases,
}
use listnun.Webhooks.{
  DeliveryStatus, pending, success, retrying, failed, Delivery, Result, next_delay, ok,
  after_failure, outcome, move_on, unfinished, retry_row, retry_status, retry_attempts,
}
use listnun.Webhooks.Backoff.{next_delay_cases}

-- Which attempts and next time go with a status.
abbrev pub Fits : DeliveryStatus → ℕ → Option ℕ → Type 0
Fits pending n (some at) = n ≡ 0
Fits retrying n (some at) = (0 < n) × (n < 8)
Fits success n none = (0 < n) × (n ≤ 8)
Fits failed n none = n ≡ 8
Fits _ n _ = ⊥

abbrev pub Consistent : Delivery → Type 0
Consistent d = Fits d.status d.attempts d.next_attempt_at

-- The attempts that a row has left.
abbrev pub tries_left : Delivery → ℕ
tries_left d = if unfinished d.status then 8 - d.attempts else 0

after_failure-Fits :
    (now tried : ℕ) (o : Option ℕ)
    → ((7 ≤ tried) × (o ≡ none))
      ⊎ ((tried < 7) × ((d : ℕ) × (o ≡ some d) × (240 ≤ d) × (d ≤ 21600)))
    → tried < 8
    → Fits (after_failure now o).0 (tried + 1) (after_failure now o).1
after_failure-Fits now tried none (inl c) h = omega arith
after_failure-Fits now tried none (inr c) h = cc
after_failure-Fits now tried (some d) (inl c) h = cc
after_failure-Fits now tried (some d) (inr c) h = (omega arith, omega arith)

outcome-Fits :
    (now tried : ℕ) (res : Result)
    → tried < 8
    → Fits (outcome now (tried + 1) res).0 (tried + 1) (outcome now (tried + 1) res).1
unfolding outcome
outcome-Fits now tried res h = elim (Bool-cases (ok res)) [
  | inl e ↦ rw e (omega arith, omega arith)
  | inr e ↦ rw e (after_failure-Fits now tried (next_delay (tried + 1)) (next_delay_cases tried) h)
]

-- An attempt counted from less than eight others leaves a row consistent.
pub move_on-Consistent :
    (now tried : ℕ) (res : Result) (d : Delivery) → tried < 8 → Consistent (move_on now tried res d)
unfolding move_on
move_on-Consistent now tried res d h = outcome-Fits now tried res h

Fits-unfinished-lt :
    (s : DeliveryStatus) (n : ℕ) (o : Option ℕ) → Fits s n o → unfinished s ≡ true → n < 8
Fits-unfinished-lt pending n (some at) h e = omega arith
Fits-unfinished-lt retrying n (some at) h e = h.1
Fits-unfinished-lt success n o h e = cc
Fits-unfinished-lt failed n o h e = cc
Fits-unfinished-lt pending n none h e = absurd h
Fits-unfinished-lt retrying n none h e = absurd h

pub unfinished-attempts-lt :
    (d : Delivery) → Consistent d → unfinished d.status ≡ true → d.attempts < 8
unfinished-attempts-lt d h e = Fits-unfinished-lt d.status d.attempts d.next_attempt_at h e

-- Each recorded attempt of a row takes one of the attempts that it has left.
pub move_on-tries_left :
    (now tried : ℕ) (res : Result) (d : Delivery)
    → tried < 8
    → tries_left (move_on now tried res d) + tried + 1 ≤ 8
unfolding move_on
move_on-tries_left now tried res d h = go (outcome now (tried + 1) res).0
  where
    go : (s : DeliveryStatus) → (if unfinished s then 8 - (tried + 1) else 0) + tried + 1 ≤ 8
    go pending = omega arith
    go success = omega arith
    go retrying = omega arith
    go failed = omega arith

-- A row that has none left is finished.
pub retry_row-Consistent : (now : ℕ) (d : Delivery) → Consistent d → Consistent (retry_row now d)
unfolding retry_row
retry_row-Consistent now d h = go d.status d.attempts d.next_attempt_at h
  where
    go :
        (s : DeliveryStatus) (n : ℕ) (o : Option ℕ)
        → Fits s n o
        → Fits (retry_status s) (retry_attempts s n) (some now)
    go pending n (some at) p = p
    go retrying n (some at) p = p
    go success n none p = refl
    go failed n none p = refl
    go pending n none p = absurd p
    go retrying n none p = absurd p
    go success n (some at) p = absurd p
    go failed n (some at) p = absurd p
