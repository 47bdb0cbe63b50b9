-- ===== src/Webhooks/Shared/Leases.antt =====
-- The leases of internal/webhooks/webhooks.go: when no delivery is in two workers' hands at once.
use listnun.Prelude.{
  ℕ, ◌+◌, ◌≡◌, refl, inl, Bool, true, false, Option, none, some, List, [], ◌∷◌, arith, All,
  get_elem?, All-imp, All-both, All-append,
}
use listnun.Webhooks.{
  Delivery, Job, Result, is_in, jobs_in, claim, claim_batch, claim_lease, select_due,
  record_attempt, retry, retry_row, enqueue, move_on,
}
use listnun.Webhooks.Shared.{
  Held, World, Event, tick, message, claims, send, retries, prunes, drops, step, run, start,
  record_held, drop_at, hold,
}
use listnun.Webhooks.Shared.Kept.{prune-All, cascade-All, enqueue-New, drop_at-All, hold-All}
use listnun.Webhooks.Shared.Reachable.{Invariant, step-Invariant}
use listnun.Webhooks.Shared.Locks.{
  Distinct, Prompt, PromptRun, LockedFor, Lease, Leased, keep-Lease, not-selected, drop_at-Distinct,
  Others, drop_at-Others, touch-Locked, lock_ids-Locked, claimed-Locked, Selected, jobs_in-Selected,
  jobs_in-Distinct, append-Distinct,
}

claims-Leased : (w : World) → Invariant w → Leased w → Leased (step claims w)
unfolding step claim Selected
claims-Leased w ((u, l, c), spare) (leases, dist) = (
  All-append _ w.held _
      (All-imp _ _ (λ h p. (p.0.0, p.0.1, lock_ids-Locked until ids h w.table p.1 p.0.2)) w.held
        (All-both _ _ w.held leases out))
      (hold-All _ until jobs (
        All-imp _ _ (λ j p. (omega arith, p.1, claimed-Locked until ids j w.table p.0)) jobs
          picked)),
  append-Distinct ids w.held (hold until jobs) out
      (hold-All _ until jobs (All-imp _ _ (λ j p. p.0) jobs picked)) dist
      (jobs_in-Distinct until ids w.table u),
)
  where
    until : ℕ
    until = w.now + claim_lease

    ids : List ℕ
    ids = select_due claim_batch w.now w.table

    jobs : List Job
    jobs = jobs_in ids w.table

    out : All (λ h. is_in h.job.id ids ≡ false) w.held
    out = All-imp _ _ (not-selected claim_batch w.now w.next_id w.table) w.held leases

    picked : All (Selected ids w.next_id) jobs
    picked = jobs_in-Selected ids w.next_id w.table l

send-Lease :
    (o : Option Held) (r : Result) (saved : Bool) (now next : ℕ) (table : List Delivery)
    (hs : List Held)
    → Others o hs
    → All (Lease now next table) hs
    → All (Lease now next (record_held o r saved now table)) hs
unfolding record_attempt move_on
send-Lease none r saved now next table hs others l = l
send-Lease (some k) r false now next table hs others l = l
send-Lease (some k) r true now next table hs others l =
    All-imp _ _
      (λ h p. (
        p.1.0,
        p.1.1,
        touch-Locked k.job.id (move_on now k.job.attempts r) h table p.0 (moved) p.1.2,
      ))
      hs (All-both _ _ hs others l)
  where
    moved : (d : Delivery) → (move_on now k.job.attempts r d).id ≡ d.id
    moved d = refl

-- Each prompt event keeps the leases.
step-Leased : (e : Event) (w : World) → Prompt e w → Invariant w → Leased w → Leased (step e w)
unfolding step claim retry retry_row
step-Leased (tick n) w prompt inv (l, d) =
    (All-imp _ _ (λ h p. (p.0, p.1.1, p.1.2)) w.held (All-both _ _ w.held prompt l), d)
step-Leased (message event es) w prompt inv (l, d) = (
  keep-Lease w.now w.next_id _ w.table _ w.held (omega arith)
      (λ h lt locks. All-append (LockedFor h) w.table _ locks (
        All-imp _ _ (λ x p. inl (λ q. absurd (omega arith))) (enqueue w.next_id w.now event es)
          (enqueue-New w.next_id w.now event es)))
      l,
  d,
)
step-Leased claims w prompt inv l = claims-Leased w inv l
step-Leased (send i r saved) w prompt inv (l, d) = (
  send-Lease (get_elem? w.held i) r saved w.now w.next_id w.table (drop_at i w.held)
      (drop_at-Others i w.held d) (drop_at-All _ i w.held l),
  drop_at-Distinct i w.held d,
)
step-Leased (retries i) w prompt inv (l, d) = (
  All-imp _ _
      (λ h p. (p.1.0, p.1.1, touch-Locked i (retry_row w.now) h w.table p.0 (λ d. refl) p.1.2))
      w.held (All-both _ _ w.held prompt l),
  d,
)
step-Leased (prunes cutoff) w prompt inv (l, d) = (
  keep-Lease w.now w.next_id w.next_id w.table _ w.held (omega arith)
      (λ h lt locks. prune-All (LockedFor h) cutoff w.table locks) l,
  d,
)
step-Leased (drops e) w prompt inv (l, d) = (
  keep-Lease w.now w.next_id w.next_id w.table _ w.held (omega arith)
      (λ h lt locks. cascade-All (LockedFor h) e w.table locks) l,
  d,
)

run-Leased :
    (es : List Event) (w : World) → PromptRun es w → Invariant w → Leased w → Leased (run es w)
unfolding run
run-Leased [] w prompt inv l = l
run-Leased (e ∷ es) w (p, ps) inv l =
    run-Leased es (step e w) ps (step-Invariant e w inv) (step-Leased e w p inv l)

-- However many workers share the queue, no delivery is ever in two workers' hands at once: when
-- each held job is sent before its lease of 60 seconds ends, and nobody retries by hand a delivery
-- that is being sent.
pub run-Distinct :
    (now : ℕ) (es : List Event) → PromptRun es (start now) → Distinct (run es (start now)).held
run-Distinct now es prompt = (run-Leased es (start now) prompt ((tt, tt, tt), tt) (tt, tt)).1
