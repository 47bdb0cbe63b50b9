-- ===== src/Webhooks/Shared.antt =====
-- The queue as several app instances share it: the statements of queries/webhooks.sql in any order,
-- with what the workers of internal/webhooks/webhooks.go hold between a claim and its records.
mod Kept
pub mod Reachable
pub mod Locks
pub mod Leases
use listnun.Prelude.{
  ℕ, zero, suc, ◌+◌, ◌≡◌, Bool, true, false, not, Option, none, some, List, [], ◌∷◌, ◌++◌, map,
  get_elem?, Text, if◌then◌else◌, ◌==◌, length,
}
use listnun.Webhooks.{
  Delivery, Endpoint, Job, Result, claim, claim_batch, claim_lease, record_attempt, retry, prune,
  enqueue,
}

-- A claimed job in the hands of a worker, and when its lease ends.
pub record Held : Type 0 where
  pub job : Job
  pub until : ℕ

pub record World : Type 0 where
  pub now : ℕ
  pub next_id : ℕ
  pub table : List Delivery
  pub held : List Held

-- `send i` is the send and the record of one held job, in any order; `saved` tells whether the
-- record goes through.
pub data Event : Type 0 where
  tick : (seconds : ℕ) → Event
  message : (event : Text) → (endpoints : List Endpoint) → Event
  claims : Event
  send : (i : ℕ) → (result : Result) → (saved : Bool) → Event
  retries : (id : ℕ) → Event
  prunes : (cutoff : ℕ) → Event
  drops : (endpoint : ℕ) → Event

unfoldable pub drop_at : ℕ → List Held → List Held
drop_at i [] = []
drop_at zero (h ∷ hs) = hs
drop_at (suc i) (h ∷ hs) = h ∷ drop_at i hs

unfoldable pub hold : ℕ → List Job → List Held
hold until [] = []
hold until (j ∷ js) = record { job = j; until = until } ∷ hold until js

abbrev pub record_held : Option Held → Result → Bool → ℕ → List Delivery → List Delivery
record_held none r saved now table = table
record_held (some h) r saved now table = if saved then record_attempt now h.job r table else table

-- ON DELETE CASCADE of an endpoint's deliveries.
unfoldable pub cascade : ℕ → List Delivery → List Delivery
cascade e [] = []
cascade e (d ∷ ds) = let rest = cascade e ds in if d.endpoint_id == e then rest else d ∷ rest

unfoldable pub step : Event → World → World
step (tick n) w = record w { now = w.now + n }
step (message event endpoints) w = record w {
  table = w.table ++ enqueue w.next_id w.now event endpoints;
  next_id = w.next_id + length (enqueue w.next_id w.now event endpoints);
}
step claims w = record w {
  table = (claim claim_batch claim_lease w.now w.table).1;
  held = w.held ++ hold (w.now + claim_lease) (claim claim_batch claim_lease w.now w.table).0;
}
step (send i r saved) w = record w {
  table = record_held (get_elem? w.held i) r saved w.now w.table;
  held = drop_at i w.held;
}
step (retries i) w = record w { table = retry w.now i w.table }
step (prunes cutoff) w = record w { table = prune cutoff w.table }
step (drops e) w = record w { table = cascade e w.table }

unfoldable pub run : List Event → World → World
run [] w = w
run (e ∷ es) w = run es (step e w)

abbrev pub start : ℕ → World
start now = record { now = now; next_id = 1; table = []; held = [] }
