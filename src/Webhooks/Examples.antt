-- ===== src/Webhooks/Examples.antt =====
-- Tests and worked cases of the webhook deliveries.
use listnun.Prelude.{
  ℕ, zero, suc, ◌+◌, ◌≤◌, ◌<◌, ◌≡◌, refl, ◌⊎◌, true, false, not, none, some, List, [], ◌∷◌, ◌++◌,
  map, arith, All, length, Text, codes, contains, text_eq,
}
use listnun.Webhooks.{
  Delivery, Endpoint, Result, next_delay, new_delivery, enqueue, claim, record_attempt, select_due,
  due_first, due, insert, limit_ids, is_in, jobs_in, lock_ids, move_on, outcome, ok,
}
use listnun.Webhooks.Backoff.{next_delay_cases}
use listnun.Webhooks.Rows.{Consistent}
use listnun.Webhooks.Worker.{Pass, run_once}
use listnun.Webhooks.Selection.{Unique}
use listnun.Webhooks.Passes.{serve, run_once-serve}
use listnun.Webhooks.Totals.{run_passes, total_left, Runs}
use listnun.Webhooks.Finishing.{run_once-sends}
use listnun.Webhooks.Ending.{Ticking, Finished, run_passes-Finished}
use listnun.Webhooks.Shared.{
  Event, tick, message, claims, send, retries, step, run, start, drop_at, hold,
}
use listnun.Webhooks.Shared.Reachable.{run-Consistent}
use listnun.Webhooks.Shared.Locks.{Distinct, PromptRun}
use listnun.Webhooks.Shared.Leases.{run-Distinct}
use listnun.Webhooks.Address.{bytes, mapped_prefix, internal, value, public_ip, public_ip_v4}

abbrev sent : Text
sent = codes "message.sent"

abbrev hook : ℕ → Endpoint
hook i = record { endpoint = i; events = sent ∷ []; enabled = true }

abbrev row : ℕ → Delivery
row i = new_delivery i 100 (hook 7) sent

abbrev refused : Result
refused = record { status_code = 500; err = false }

abbrev accepted : Result
accepted = record { status_code = 204; err = false }

-- A pass at `now` in which every endpoint refuses.
abbrev refuse_all : ℕ → Pass
refuse_all now = record {
  now = now;
  claims = true;
  answers = λ i. record { at = now; result = refused; saved = true };
}

abbrev refusing : ℕ → ℕ → List Pass
refusing zero now = []
refusing (suc n) now = refuse_all now ∷ refusing n (now + 30000)

refusing-Runs : (n now : ℕ) → All Runs (refusing n now)
refusing-Runs zero now = tt
refusing-Runs (suc n) now = ((refl, λ i. refl), refusing-Runs n (now + 30000))

refusing-Ticking : (n c now : ℕ) → now ≤ c + 30000 → Ticking 30000 c (refusing n now)
refusing-Ticking zero c now h = tt
refusing-Ticking (suc n) c now h =
    (h, (λ i. omega arith), refusing-Ticking n now (now + 30000) (omega arith))

gives_up : next_delay 8 ≡ none
unfolding next_delay
gives_up = refl

next_delay_cases_example :
    ((7 ≤ 2) × (next_delay (2 + 1) ≡ none))
    ⊎ ((2 < 7) × ((d : ℕ) × (next_delay (2 + 1) ≡ some d) × (240 ≤ d) × (d ≤ 21600)))
next_delay_cases_example = next_delay_cases 2

two_rows-Unique : Unique (row 1 ∷ row 2 ∷ [])
two_rows-Unique = ((λ e. absurd (omega arith), tt), (tt, tt))

run_once-serve_example :
    (run_once (refuse_all 200) (row 1 ∷ row 2 ∷ [])).1
    ≡ map (serve (refuse_all 200) (row 1 ∷ row 2 ∷ [])) (row 1 ∷ row 2 ∷ [])
run_once-serve_example =
    run_once-serve (refuse_all 200) (row 1 ∷ row 2 ∷ []) two_rows-Unique refl (λ i. refl)

run_passes-Finished_example : All Finished (run_passes (refusing 15 200) (row 1 ∷ [])).1
run_passes-Finished_example =
    run_passes-Finished 30000 100 (refusing 15 200) (row 1 ∷ []) (refusing-Runs 15 200)
      (refusing-Ticking 15 100 200 (omega arith)) ((tt, tt), (refl, tt))
      ((omega arith, omega arith), tt) (omega arith)

run_once-sends_example :
    (total_left (row 1 ∷ []) ≡ 0) ⊎ (0 < length (run_once (refuse_all 200) (row 1 ∷ [])).0)
run_once-sends_example =
    run_once-sends 100 (refuse_all 200) (row 1 ∷ []) (omega arith) (refl, λ i. refl)
      ((tt, tt), (refl, tt)) ((omega arith, omega arith), tt)

-- A message for two endpoints, a claim of both deliveries and the send of the second.
abbrev two_sends : List Event
two_sends =
    message sent (hook 7 ∷ hook 8 ∷ [])
    ∷ claims
    ∷ tick 10
    ∷ send 1 refused true
    ∷ retries 2
    ∷ claims
    ∷ []

run-Consistent_example :
    Unique (run two_sends (start 100)).table × All Consistent (run two_sends (start 100)).table
run-Consistent_example = run-Consistent 100 two_sends

two_sends-Prompt : PromptRun two_sends (start 100)
unfolding step claim select_due due_first due insert limit_ids is_in jobs_in lock_ids hold drop_at
    enqueue record_attempt move_on contains text_eq outcome ok next_delay
two_sends-Prompt = (
  tt,
  (tt, ((omega arith, (omega arith, tt)), (tt, (((λ e. absurd (omega arith)), tt), (tt, tt))))),
)

run-Distinct_example : Distinct (run two_sends (start 100)).held
run-Distinct_example = run-Distinct 100 two_sends two_sends-Prompt

-- A worker that is slower than its lease: the delivery is claimed again.
slow_worker :
    length (run (message sent (hook 7 ∷ []) ∷ claims ∷ tick 61 ∷ claims ∷ []) (start 100)).held ≡ 2
unfolding run step claim select_due due_first due insert limit_ids is_in jobs_in lock_ids hold
    enqueue contains text_eq
slow_worker = refl

public_ip_v4_example :
    (public_ip (bytes (record { a = 100; b = 70; c = 1; d = 1 }))
      ≡ not (internal (value (record { a = 100; b = 70; c = 1; d = 1 }))))
    × (public_ip (mapped_prefix ++ bytes (record { a = 100; b = 70; c = 1; d = 1 }))
        ≡ not (internal (value (record { a = 100; b = 70; c = 1; d = 1 }))))
public_ip_v4_example =
    public_ip_v4 (record { a = 100; b = 70; c = 1; d = 1 })
      (omega arith, omega arith, omega arith, omega arith)
