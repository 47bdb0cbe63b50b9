-- ===== src/Webhooks/Worker.antt =====
-- The worker: RunOnce of internal/webhooks/webhooks.go, a pass over the table.
use listnun.Prelude.{ℕ, Bool, List, [], ◌∷◌, if◌then◌else◌}
use listnun.Webhooks.{Delivery, Job, Result, claim, claim_batch, claim_lease, record_attempt}

-- What comes of a claimed delivery: the result of Send, the time of w.now() and whether the attempt
-- is saved.
pub record Answer : Type 0 where
  pub at : ℕ
  pub result : Result
  pub saved : Bool

-- A pass: the time, whether the claim goes through and the answers by the deliveries' ids.
pub record Pass : Type 0 where
  pub now : ℕ
  pub claims : Bool
  pub answers : ℕ → Answer

unfoldable pub settle_job : Answer → Job → List Delivery → List Delivery
settle_job a j table = if a.saved then record_attempt a.at j a.result table else table

-- The loop of RunOnce.
unfoldable pub send_all : (ℕ → Answer) → List Job → List Delivery → List Delivery
send_all answers [] table = table
send_all answers (j ∷ js) table = send_all answers js (settle_job (answers j.id) j table)

-- The deliveries that a pass sends, and the table after it.
unfoldable pub run_once : Pass → List Delivery → List Job × List Delivery
run_once p table =
    let (jobs, locked) = claim claim_batch claim_lease p.now table in
    if p.claims then (jobs, send_all p.answers jobs locked) else ([], table)
