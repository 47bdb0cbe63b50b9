-- ===== src/Webhooks/Finishing.antt =====
-- What a pass leaves of the times of the rows, and that it sends a delivery when one is due.
use listnun.Prelude.{
  ℕ, zero, suc, ◌+◌, ◌-◌, ◌≤◌, ◌<◌, ◌≡◌, refl, ◌⊎◌, inl, inr, true, Option, none, some, List, [],
  ◌∷◌, arith, All, Any, if◌then◌else◌, Bool-cases, length, lt→ltb, ◌&&◌,
}
use listnun.Webhooks.{
  DeliveryStatus, pending, success, retrying, failed, Delivery, Result, move_on, unfinished, due,
  reached, unlocked, time_of, is_in, select_due, jobs_in, claim_batch, outcome, after_failure,
  next_delay, ok,
}
use listnun.Webhooks.Backoff.{next_delay_cases}
use listnun.Webhooks.Rows.{Fits, Consistent, tries_left}
use listnun.Webhooks.Worker.{Pass, run_once}
use listnun.Webhooks.Selection.{due-selected}
use listnun.Webhooks.Passes.{serve}
use listnun.Webhooks.Totals.{total_left, Sound, Runs, run_once-jobs}

-- The rows' times: none is after `t`.
abbrev pub Before : ℕ → Delivery → Type 0
Before t d = (time_of d.next_attempt_at ≤ t) × (time_of d.locked_until ≤ t)

-- A pass has its answers within the 500 seconds that 50 deliveries of 10 seconds take.
abbrev pub Prompt : Pass → Type 0
Prompt p = (i : ℕ) → (p.answers i).at ≤ p.now + 500

outcome-Before :
    (now tried t : ℕ) (res : Result) → now + 21600 ≤ t → time_of (outcome now (tried + 1) res).1 ≤ t
unfolding outcome
outcome-Before now tried t res h = elim (Bool-cases (ok res)) [
  | inl e ↦ rw e (omega arith)
  | inr e ↦ rw e (go (next_delay (tried + 1)) (next_delay_cases tried))
]
  where
    go :
        (o : Option ℕ)
        → ((7 ≤ tried) × (o ≡ none))
          ⊎ ((tried < 7) × ((d : ℕ) × (o ≡ some d) × (240 ≤ d) × (d ≤ 21600)))
        → time_of (after_failure now o).1 ≤ t
    go none c = omega arith
    go (some d) (inl c) = cc
    go (some d) (inr (l, (x, e, lo, hi))) = let q : d ≡ x = cc in omega arith

-- The next retry of a delivery comes at most 6 hours (21,600 seconds) after its answer.
pub serve-Before :
    (p : Pass) (table : List Delivery) (t u : ℕ) (d : Delivery)
    → t ≤ u
    → p.now + 22100 ≤ u
    → Prompt p
    → Before t d
    → Before u (serve p table d)
unfolding serve move_on
serve-Before p table t u d late after prompt b =
    elim (Bool-cases (is_in d.id (select_due claim_batch p.now table))) [
      | inl e ↦ rw e (
        outcome-Before (p.answers d.id).at d.attempts u (p.answers d.id).result
            (omega (arith, prompt d.id)),
        omega arith,
      )
      | inr e ↦ rw e (omega arith, omega arith)
    ]

-- A row that has attempts left is due once its times are over.
Before-due :
    (t now : ℕ) (d : Delivery)
    → t < now
    → Consistent d
    → Before t d
    → 0 < tries_left d
    → due now d ≡ true
unfolding due
Before-due t now d late c b h = go d.status d.attempts d.next_attempt_at d.locked_until c b.0 b.1 h
  where
    free : (l : Option ℕ) → time_of l ≤ t → unlocked now l ≡ true
    free none q = refl
    free (some until) q = lt→ltb until now (omega arith)

    go :
        (s : DeliveryStatus) (n : ℕ) (o l : Option ℕ)
        → Fits s n o
        → time_of o ≤ t
        → time_of l ≤ t
        → 0 < (if unfinished s then 8 - n else 0)
        → (unfinished s && (reached now o && unlocked now l)) ≡ true
    go pending n (some at) l f p q r = ground (arith, free l q)
    go retrying n (some at) l f p q r = ground (arith, free l q)
    go pending n none l f p q r = absurd f
    go retrying n none l f p q r = absurd f
    go success n o l f p q r = absurd (omega arith)
    go failed n o l f p q r = absurd (omega arith)

some_left :
    (t now : ℕ) (ds : List Delivery)
    → t < now
    → All Consistent ds
    → All (Before t) ds
    → 0 < total_left ds
    → Any (λ d. due now d ≡ true) ds
some_left t now [] late c b h = absurd (omega arith)
some_left t now (d ∷ ds) late (c, cs) (b, bs) h =
    go (tries_left d) refl (λ k. some_left t now ds late cs bs k)
  where
    go :
        (n : ℕ)
        → tries_left d ≡ n
        → (0 < total_left ds → Any (λ d. due now d ≡ true) ds)
        → (due now d ≡ true) ⊎ Any (λ d. due now d ≡ true) ds
    go zero e rec = inr (rec (omega arith))
    go (suc n) e rec = inl (Before-due t now d late c b (omega arith))

jobs_in-positive :
    (ids : List ℕ) (ds : List Delivery)
    → Any (λ d. is_in d.id ids ≡ true) ds
    → 0 < length (jobs_in ids ds)
unfolding jobs_in
jobs_in-positive ids [] h = absurd h
jobs_in-positive ids (d ∷ ds) (inl e) = rw e (omega arith)
jobs_in-positive ids (d ∷ ds) (inr h) = elim (Bool-cases (is_in d.id ids)) [
  | inl e ↦ rw e (omega arith)
  | inr e ↦ rw e (jobs_in-positive ids ds h)
]

-- When each row's times are before the start of a pass whose statements go through, the pass sends
-- a delivery, or no delivery of the table has attempts left.
pub run_once-sends :
    (t : ℕ) (p : Pass) (table : List Delivery)
    → t < p.now
    → Runs p
    → Sound table
    → All (Before t) table
    → (total_left table ≡ 0) ⊎ (0 < length (run_once p table).0)
run_once-sends t p table late r (u, c) b = go (total_left table) refl
  where
    go : (n : ℕ) → total_left table ≡ n → (total_left table ≡ 0) ⊎ (0 < length (run_once p table).0)
    go zero e = inl e
    go (suc n) e = inr (
        rw (run_once-jobs p table r.0) (
          jobs_in-positive (select_due claim_batch p.now table) table
            (due-selected 49 p.now table (some_left t p.now table late c b (omega arith)))))
