-- ===== src/Webhooks.antt =====
-- Webhook deliveries: internal/webhooks/webhooks.go, the rows that queries/webhooks.sql keeps, and
-- the functions of internal/core/webhooks.go that run those statements.
pub mod Backoff
pub mod Rows
pub mod Worker
pub mod Selection
pub mod Passes
pub mod Totals
pub mod Finishing
pub mod Ending
pub mod Shared
pub mod Address
mod Examples
use listnun.Prelude.{
  ℕ, zero, suc, ◌+◌, ◌-◌, Bool, true, false, ◌&&◌, ◌||◌, not, Option, none, some, List, [], ◌∷◌,
  ◌++◌, map, if◌then◌else◌, ltb, leb, ◌==◌, get_elem?, Text, contains, text_eq,
}

-- The statuses of a delivery.
pub data DeliveryStatus : Type 0 where
  pending success retrying failed : DeliveryStatus

-- A row of webhook_deliveries; times are in seconds.
pub record Delivery : Type 0 where
  pub id : ℕ
  pub endpoint_id : ℕ
  pub event : Text
  pub created_at : ℕ
  pub attempts : ℕ
  pub status : DeliveryStatus
  pub next_attempt_at : Option ℕ
  pub locked_until : Option ℕ
  pub last_status_code : Option ℕ

-- A row of webhook_endpoints, as far as the queue reads it.
pub record Endpoint : Type 0 where
  pub endpoint : ℕ
  pub events : List Text
  pub enabled : Bool

-- What the worker gets for a claimed delivery.
pub record Job : Type 0 where
  pub id : ℕ
  pub endpoint_id : ℕ
  pub event : Text
  pub attempts : ℕ

-- One attempt's outcome.
pub record Result : Type 0 where
  pub status_code : ℕ
  pub err : Bool

abbrev pub max_attempts : ℕ
max_attempts = 8

abbrev pub claim_batch : ℕ
claim_batch = 50

abbrev pub claim_lease : ℕ
claim_lease = 60

-- The wait before each retry, in seconds.
abbrev pub backoff : List ℕ
backoff = 240 ∷ 900 ∷ 3600 ∷ 14400 ∷ 21600 ∷ []

-- An index of backoff that is in range, as Go's index expression reads it.
abbrev backoff_at : Option ℕ → ℕ
backoff_at none = 0
backoff_at (some d) = d

unfoldable pub next_delay : ℕ → Option ℕ
next_delay attempt =
    if leb max_attempts attempt
    then none
    else if ltb (attempt - 1) 5
    then some (backoff_at (get_elem? backoff (attempt - 1)))
    else some (backoff_at (get_elem? backoff (5 - 1)))

unfoldable pub ok : Result → Bool
ok r = not r.err && (leb 200 r.status_code && ltb r.status_code 300)

-- The status and the time of the next attempt that RunOnce computes at the time `now`.
abbrev pub after_failure : ℕ → Option ℕ → DeliveryStatus × Option ℕ
after_failure now (some d) = (DeliveryStatus.retrying, some (now + d))
after_failure now none = (DeliveryStatus.failed, none)

unfoldable pub outcome : ℕ → ℕ → Result → DeliveryStatus × Option ℕ
outcome now attempt res =
    if ok res then (DeliveryStatus.success, none) else after_failure now (next_delay attempt)

-- NULLIF(code, 0)
abbrev null_if_zero : ℕ → Option ℕ
null_if_zero code = if code == 0 then none else some code

-- What the UPDATE of record-webhook-attempt writes into a row.
unfoldable pub move_on : ℕ → ℕ → Result → Delivery → Delivery
move_on now tried res d = record d {
  attempts = tried + 1;
  status = (outcome now (tried + 1) res).0;
  next_attempt_at = (outcome now (tried + 1) res).1;
  locked_until = none;
  last_status_code = null_if_zero res.status_code;
}

-- status IN ('pending', 'retrying')
abbrev pub unfinished : DeliveryStatus → Bool
unfinished DeliveryStatus.pending = true
unfinished DeliveryStatus.retrying = true
unfinished _ = false

-- next_attempt_at <= NOW(), which NULL is not.
abbrev pub reached : ℕ → Option ℕ → Bool
reached now none = false
reached now (some at) = leb at now

-- locked_until IS NULL OR locked_until < NOW()
abbrev pub unlocked : ℕ → Option ℕ → Bool
unlocked now none = true
unlocked now (some until) = ltb until now

-- The WHERE of claim-webhook-deliveries.
unfoldable pub due : ℕ → Delivery → Bool
due now d = unfinished d.status && (reached now d.next_attempt_at && unlocked now d.locked_until)

abbrev pub time_of : Option ℕ → ℕ
time_of none = 0
time_of (some at) = at

-- ORDER BY next_attempt_at: due rows have one, and equal times keep the table's order.
unfoldable pub insert : Delivery → List Delivery → List Delivery
insert d [] = d ∷ []
insert d (e ∷ es) =
    let rest = insert d es in
    if leb (time_of d.next_attempt_at) (time_of e.next_attempt_at) then d ∷ e ∷ es else e ∷ rest

unfoldable pub due_first : ℕ → List Delivery → List Delivery
due_first now [] = []
due_first now (d ∷ ds) = let rest = due_first now ds in if due now d then insert d rest else rest

-- The ids of the first rows: LIMIT.
unfoldable pub limit_ids : ℕ → List Delivery → List ℕ
limit_ids zero ds = []
limit_ids (suc n) [] = []
limit_ids (suc n) (d ∷ ds) = d.id ∷ limit_ids n ds

unfoldable pub is_in : ℕ → List ℕ → Bool
is_in i [] = false
is_in i (x ∷ xs) = i == x || is_in i xs

-- The subquery of claim-webhook-deliveries.
unfoldable pub select_due : ℕ → ℕ → List Delivery → List ℕ
select_due limit now table = limit_ids limit (due_first now table)

abbrev pub lock : ℕ → Delivery → Delivery
lock until d = record d { locked_until = some until }

abbrev pub job_of : Delivery → Job
job_of d = record { id = d.id; endpoint_id = d.endpoint_id; event = d.event; attempts = d.attempts }

unfoldable pub lock_ids : ℕ → List ℕ → List Delivery → List Delivery
lock_ids until ids = map (λ d. if is_in d.id ids then lock until d else d)

-- The rows that RETURNING lists. A delivery's endpoint exists, by the foreign key.
unfoldable pub jobs_in : List ℕ → List Delivery → List Job
jobs_in ids [] = []
jobs_in ids (d ∷ ds) = let rest = jobs_in ids ds in if is_in d.id ids then job_of d ∷ rest else rest

-- ClaimWebhookDeliveries: the jobs and the table with their rows locked.
unfoldable pub claim : ℕ → ℕ → ℕ → List Delivery → List Job × List Delivery
claim limit lease now table = (
  jobs_in (select_due limit now table) table,
  lock_ids (now + lease) (select_due limit now table) table,
)

-- RecordWebhookAttempt
unfoldable pub record_attempt : ℕ → Job → Result → List Delivery → List Delivery
record_attempt now j res = map (λ d. if d.id == j.id then move_on now j.attempts res d else d)

abbrev pub retry_status : DeliveryStatus → DeliveryStatus
retry_status DeliveryStatus.retrying = DeliveryStatus.retrying
retry_status _ = DeliveryStatus.pending

abbrev pub retry_attempts : DeliveryStatus → ℕ → ℕ
retry_attempts DeliveryStatus.success n = 0
retry_attempts DeliveryStatus.failed n = 0
retry_attempts _ n = n

-- What retry-webhook-delivery writes into a row.
unfoldable pub retry_row : ℕ → Delivery → Delivery
retry_row now d = record d {
  status = retry_status d.status;
  attempts = retry_attempts d.status d.attempts;
  next_attempt_at = some now;
  locked_until = none;
}

unfoldable pub retry : ℕ → ℕ → List Delivery → List Delivery
retry now i = map (λ d. if d.id == i then retry_row now d else d)

-- prune-webhook-deliveries deletes finished rows that were created before `cutoff`.
unfoldable pub prune : ℕ → List Delivery → List Delivery
prune cutoff [] = []
prune cutoff (d ∷ ds) =
    let rest = prune cutoff ds in
    if ltb d.created_at cutoff && not (unfinished d.status) then rest else d ∷ rest

-- A new row: the columns' defaults.
abbrev pub new_delivery : ℕ → ℕ → Endpoint → Text → Delivery
new_delivery i now e event = record {
  id = i;
  endpoint_id = e.endpoint;
  event = event;
  created_at = now;
  attempts = 0;
  status = DeliveryStatus.pending;
  next_attempt_at = some now;
  locked_until = none;
  last_status_code = none;
}

-- enqueue-webhook-deliveries for one tenant's endpoints: ids go up from `i`.
unfoldable pub enqueue : ℕ → ℕ → Text → List Endpoint → List Delivery
enqueue i now event [] = []
enqueue i now event (e ∷ es) =
    let taken = enqueue (i + 1) now event es in
    let passed = enqueue i now event es in
    if e.enabled && contains e.events event then new_delivery i now e event ∷ taken else passed
