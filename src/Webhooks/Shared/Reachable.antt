-- ===== src/Webhooks/Shared/Reachable.antt =====
-- What holds of the shared queue however its statements and the workers interleave.
use listnun.Prelude.{
  ℕ, ◌+◌, ◌<◌, ◌≡◌, refl, ◌⊎◌, inl, inr, Bool, true, false, Option, none, some, List, [], ◌∷◌, ◌++◌,
  map, arith, All, ◌==◌, if◌then◌else◌, Bool-cases, get_elem?, All-imp, All-both, All-map,
  All-append,
}
use listnun.Webhooks.{
  Delivery, Job, Result, is_in, jobs_in, claim, claim_batch, claim_lease, lock, lock_ids,
  select_due, record_attempt, retry, retry_row, move_on,
}
use listnun.Webhooks.Rows.{
  Consistent, unfinished-attempts-lt, move_on-Consistent, retry_row-Consistent,
}
use listnun.Webhooks.Selection.{Unique, Alone, Unique-Alone, map-Unique, selected_row-due}
use listnun.Webhooks.Totals.{due-unfinished, Settled}
use listnun.Webhooks.Shared.{
  Held, World, Event, tick, message, claims, send, retries, prunes, drops, step, run, start,
  record_held,
}
use listnun.Webhooks.Shared.Kept.{
  prune-All, prune-Unique, cascade-All, cascade-Unique, New, enqueue-New, enqueue-Unique,
  Unique-append, drop_at-All, IfSome, get_elem?-IfSome, hold-All, jobs_in-All,
}

-- A table with unique ids below the next one and consistent rows.
abbrev pub Stored : ℕ → List Delivery → Type 0
Stored next table = Unique table × All (λ d. d.id < next) table × All Consistent table

-- A held job comes from a row that had an attempt left.
abbrev pub Spare : Held → Type 0
Spare h = h.job.attempts < 8

abbrev pub Invariant : World → Type 0
Invariant w = Stored w.next_id w.table × All Spare w.held

-- A map that keeps the ids and the rows' consistency.
map-Stored :
    (f : Delivery → Delivery)
    → ((d : Delivery) → (f d).id ≡ d.id)
    → ((d : Delivery) → Consistent d → Consistent (f d))
    → (next : ℕ) (table : List Delivery) → Stored next table
    → Stored next (map f table)
map-Stored f same keep next table (u, l, c) = (
  map-Unique f same table u,
  All-map _ _ f (λ d h. rw (same d) h) table l,
  All-map _ _ f keep table c,
)

if_id : (b : Bool) (x d : Delivery) → x.id ≡ d.id → (if b then x else d).id ≡ d.id
if_id true x d e = e
if_id false x d e = refl

if-Consistent :
    (b : Bool) (x d : Delivery) → Consistent x → Consistent d → Consistent (if b then x else d)
if-Consistent true x d p q = p
if-Consistent false x d p q = q

record_attempt-Stored :
    (now : ℕ) (j : Job) (r : Result) (next : ℕ) (table : List Delivery)
    → j.attempts < 8
    → Stored next table
    → Stored next (record_attempt now j r table)
unfolding record_attempt move_on
record_attempt-Stored now j r next table h s =
    map-Stored _ (λ d. if_id (d.id == j.id) (move_on now j.attempts r d) d refl)
      (λ d c.
        if-Consistent (d.id == j.id) (move_on now j.attempts r d) d
          (move_on-Consistent now j.attempts r d h) c)
      next table s

record_held-Stored :
    (o : Option Held) (r : Result) (saved : Bool) (now next : ℕ) (table : List Delivery)
    → IfSome Spare o
    → Stored next table
    → Stored next (record_held o r saved now table)
record_held-Stored none r saved now next table h s = s
record_held-Stored (some x) r true now next table h s =
    record_attempt-Stored now x.job r next table h s
record_held-Stored (some x) r false now next table h s = s

retry-Stored :
    (now i next : ℕ) (table : List Delivery) → Stored next table → Stored next (retry now i table)
unfolding retry retry_row
retry-Stored now i next table s =
    map-Stored _ (λ d. if_id (d.id == i) (retry_row now d) d refl)
      (λ d c. if-Consistent (d.id == i) (retry_row now d) d (retry_row-Consistent now d c) c) next
      table s

lock_ids-Stored :
    (until : ℕ) (ids : List ℕ) (next : ℕ) (table : List Delivery)
    → Stored next table
    → Stored next (lock_ids until ids table)
unfolding lock_ids
lock_ids-Stored until ids next table s =
    map-Stored _ (λ d. if_id (is_in d.id ids) (lock until d) d refl)
      (λ d c. if-Consistent (is_in d.id ids) (lock until d) d c c) next table s

-- A job that is claimed has an attempt left.
pub claimed-Spare :
    (limit now : ℕ) (table : List Delivery)
    → Unique table
    → All Consistent table
    → All (λ (j : Job). j.attempts < 8) (jobs_in (select_due limit now table) table)
claimed-Spare limit now table u c = jobs_in-All _ (select_due limit now table) table (
    All-imp (Settled table) _ (λ d p. row d p.0 p.1) table
      (All-both _ _ table c (Unique-Alone table u)))
  where
    row :
        (d : Delivery)
        → Consistent d
        → Alone table d
        → (is_in d.id (select_due limit now table) ≡ false) ⊎ (d.attempts < 8)
    row d p alone = elim (Bool-cases (is_in d.id (select_due limit now table))) [
      | inl e ↦ inr (
          unfinished-attempts-lt d p
            (due-unfinished now d (selected_row-due limit now table d alone e)))
      | inr e ↦ inl e
    ]

append-Stored :
    (next n : ℕ) (table news : List Delivery)
    → Stored next table
    → Unique news
    → All (New next n) news
    → Stored (next + n) (table ++ news)
append-Stored next n table news (u, l, c) v g = (
  Unique-append next table news u l v (All-imp _ _ (λ d h. h.0) news g),
  All-append _ table news (All-imp _ _ (λ d h. omega arith) table l)
      (All-imp _ _ (λ d h. h.1) news g),
  All-append _ table news c (All-imp _ _ (λ d h. h.2) news g),
)

pub step-Invariant : (e : Event) (w : World) → Invariant w → Invariant (step e w)
unfolding step claim
step-Invariant (tick n) w inv = inv
step-Invariant (message event es) w (s, h) = (
  append-Stored w.next_id _ w.table _ s (enqueue-Unique w.next_id w.now event es)
      (enqueue-New w.next_id w.now event es),
  h,
)
step-Invariant claims w ((u, l, c), h) = (
  lock_ids-Stored (w.now + claim_lease) (select_due claim_batch w.now w.table) w.next_id w.table
      (u, l, c),
  All-append Spare w.held _ h
      (hold-All Spare (w.now + claim_lease) _ (claimed-Spare claim_batch w.now w.table u c)),
)
step-Invariant (send i r saved) w (s, h) = (
  record_held-Stored (get_elem? w.held i) r saved w.now w.next_id w.table
      (get_elem?-IfSome Spare i w.held h) s,
  drop_at-All Spare i w.held h,
)
step-Invariant (retries i) w (s, h) = (retry-Stored w.now i w.next_id w.table s, h)
step-Invariant (prunes cutoff) w ((u, l, c), h) =
    ((prune-Unique cutoff w.table u, prune-All _ cutoff w.table l, prune-All _ cutoff w.table c), h)
step-Invariant (drops e) w ((u, l, c), h) =
    ((cascade-Unique e w.table u, cascade-All _ e w.table l, cascade-All _ e w.table c), h)

run-Invariant : (es : List Event) (w : World) → Invariant w → Invariant (run es w)
unfolding run
run-Invariant [] w inv = inv
run-Invariant (e ∷ es) w inv = run-Invariant es (step e w) (step-Invariant e w inv)

-- However messages, claims, sends, retries by hand, pruning and removals of endpoints interleave,
-- the deliveries' ids stay unique, the attempts that a row counts are never more than eight, and the
-- status of each tells its attempts and whether it waits: a pending one none, a retrying one some
-- and fewer than eight, a failed one all eight, and only the first two a time to be tried at.
pub run-Consistent :
    (now : ℕ) (es : List Event)
    → Unique (run es (start now)).table × All Consistent (run es (start now)).table
run-Consistent now es =
    let ((u, l, c), h) = run-Invariant es (start now) ((tt, tt, tt), tt) in (u, c)
