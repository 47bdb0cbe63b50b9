-- ===== src/Webhooks/Shared/Locks.antt =====
-- The rows of held jobs, and how the statements of queries/webhooks.sql keep them locked.
use listnun.Prelude.{
  ℕ, zero, suc, ◌+◌, ◌≤◌, ◌<◌, ◌≡◌, refl, sym, ◌∙◌, ◌≢◌, ◌⊎◌, inl, inr, Bool, true, false, Option,
  none, some, List, [], ◌∷◌, ◌++◌, map, arith, All, ◌==◌, ==_iff, ◌&&◌, if◌then◌else◌, Bool-cases,
  get_elem?, All-imp, All-map, All-append, All-of, Any-elim, Any-All,
}
use listnun.Webhooks.{
  Delivery, Job, unfinished, due, reached, unlocked, is_in, jobs_in, lock_ids, select_due,
}
use listnun.Webhooks.Selection.{Unique, selected-due}
use listnun.Webhooks.Shared.{Held, World, Event, tick, retries, step, drop_at, hold}
use listnun.Webhooks.Shared.Kept.{drop_at-All, IfSome, get_elem?-IfSome, hold-All, jobs_in-All}

-- No two held jobs are the same delivery.
abbrev pub Distinct : List Held → Type 0
Distinct [] = Unit
Distinct (h ∷ hs) = All (λ k. k.job.id ≢ h.job.id) hs × Distinct hs

-- The events of a queue whose workers finish within their leases, and in which nobody retries by
-- hand a delivery that is being sent.
abbrev pub Prompt : Event → World → Type 0
Prompt (tick n) w = All (λ h. w.now + n ≤ h.until) w.held
Prompt (retries i) w = All (λ h. h.job.id ≢ i) w.held
Prompt _ w = Unit

abbrev pub PromptRun : List Event → World → Type 0
PromptRun [] w = Unit
PromptRun (e ∷ es) w = Prompt e w × PromptRun es (step e w)

-- The row of a held job is locked until the lease ends.
abbrev pub LockedFor : Held → Delivery → Type 0
LockedFor h d = (d.id ≢ h.job.id) ⊎ (d.locked_until ≡ some h.until)

abbrev pub Lease : ℕ → ℕ → List Delivery → Held → Type 0
Lease now next table h = (now ≤ h.until) × (h.job.id < next) × All (LockedFor h) table

abbrev pub Leased : World → Type 0
Leased w = All (Lease w.now w.next_id w.table) w.held × Distinct w.held

-- A statement that leaves the held jobs' rows alone keeps the leases.
pub keep-Lease :
    (now next next' : ℕ) (table table' : List Delivery) (hs : List Held)
    → next ≤ next'
    → ((h : Held) → h.job.id < next → All (LockedFor h) table → All (LockedFor h) table')
    → All (Lease now next table) hs
    → All (Lease now next' table') hs
keep-Lease now next next' table table' hs le f all =
    All-imp _ _ (λ h l. (l.0, omega (arith, l.1), f h l.1 l.2)) hs all

-- A row that is locked for a lease that has not ended is not due.
locked-not-due :
    (now : ℕ) (h : Held) (d : Delivery)
    → now ≤ h.until
    → d.locked_until ≡ some h.until
    → due now d ≡ false
unfolding due
locked-not-due now h d le e = go (unfinished d.status) (reached now d.next_attempt_at)
  where
    free : unlocked now d.locked_until ≡ false
    free = rw e (ground arith)

    go : (a r : Bool) → (a && (r && unlocked now d.locked_until)) ≡ false
    go true true = free
    go true false = refl
    go false r = refl

pub not-selected :
    (limit now next : ℕ) (table : List Delivery) (h : Held)
    → Lease now next table h
    → is_in h.job.id (select_due limit now table) ≡ false
not-selected limit now next table h (le, lt, locks) =
    elim (Bool-cases (is_in h.job.id (select_due limit now table))) [
      | inl e ↦ absurd (
          Any-elim (λ d. ⊥) (λ d p. p) table
            (Any-All _ _ _ (λ d p q. clash d p.0 p.1 q) table
              (selected-due limit now h.job.id table e) locks))
      | inr e ↦ e
    ]
  where
    clash : (d : Delivery) → d.id ≡ h.job.id → due now d ≡ true → LockedFor h d → ⊥
    clash d p q (inl n) = n p
    clash d p q (inr e) = let r : due now d ≡ false = locked-not-due now h d le e in absurd cc

pub drop_at-Distinct : (i : ℕ) (hs : List Held) → Distinct hs → Distinct (drop_at i hs)
unfolding drop_at
drop_at-Distinct i [] d = tt
drop_at-Distinct zero (h ∷ hs) (n, d) = d
drop_at-Distinct (suc i) (h ∷ hs) (n, d) = (drop_at-All _ i hs n, drop_at-Distinct i hs d)

-- Which of the held jobs are left when one has been sent.
abbrev pub Others : Option Held → List Held → Type 0
Others none hs = Unit
Others (some k) hs = All (λ h. h.job.id ≢ k.job.id) hs

pub drop_at-Others : (i : ℕ) (hs : List Held) → Distinct hs → Others (get_elem? hs i) (drop_at i hs)
unfolding drop_at
drop_at-Others i [] d = tt
drop_at-Others zero (h ∷ hs) (n, d) = n
drop_at-Others (suc i) (h ∷ hs) (n, d) =
    go (get_elem? hs i) (get_elem?-IfSome _ i hs n) (drop_at-Others i hs d)
  where
    go :
        (o : Option Held)
        → IfSome (λ k. k.job.id ≢ h.job.id) o
        → Others o (drop_at i hs)
        → Others o (h ∷ drop_at i hs)
    go none m rest = tt
    go (some k) m rest = ((λ e. m (sym e)), rest)

-- A change of the row `i` alone.
pub touch-Locked :
    (i : ℕ) (g : Delivery → Delivery) (h : Held) (table : List Delivery)
    → h.job.id ≢ i
    → ((d : Delivery) → (g d).id ≡ d.id)
    → All (LockedFor h) table
    → All (LockedFor h) (map (λ d. if d.id == i then g d else d) table)
touch-Locked i g h table n same l =
    All-map (LockedFor h) (LockedFor h) _
      (λ d p. elim (Bool-cases (d.id == i)) [
        | inl e ↦ rw e (inl (λ q. n (sym q ∙ same d ∙ (==_iff d.id i).0 e)))
        | inr e ↦ rw e p
      ])
      table l

pub lock_ids-Locked :
    (until : ℕ) (ids : List ℕ) (h : Held) (table : List Delivery)
    → is_in h.job.id ids ≡ false
    → All (LockedFor h) table
    → All (LockedFor h) (lock_ids until ids table)
unfolding lock_ids
lock_ids-Locked until ids h table n l =
    All-map (LockedFor h) (LockedFor h) _
      (λ d p. elim (Bool-cases (is_in d.id ids)) [
        | inl e ↦ rw e (inl (λ q. absurd (let r : is_in d.id ids ≡ false = rw q n in cc)))
        | inr e ↦ rw e p
      ])
      table l

pub claimed-Locked :
    (until : ℕ) (ids : List ℕ) (j : Job) (table : List Delivery)
    → is_in j.id ids ≡ true
    → All (LockedFor (record { job = j; until = until })) (lock_ids until ids table)
unfolding lock_ids
claimed-Locked until ids j table n =
    All-map (λ d. Unit) (LockedFor (record { job = j; until = until })) _
      (λ d p. elim (Bool-cases (is_in d.id ids)) [
        | inl e ↦ rw e (inr refl)
        | inr e ↦ rw e (inl (λ q. absurd (let r : is_in d.id ids ≡ true = rw q n in cc)))
      ])
      table (All-of _ (λ d. tt) table)

unfoldable pub Selected : List ℕ → ℕ → Job → Type 0
Selected ids next j = (is_in j.id ids ≡ true) × (j.id < next)

pub jobs_in-Selected :
    (ids : List ℕ) (next : ℕ) (table : List Delivery)
    → All (λ d. d.id < next) table
    → All (Selected ids next) (jobs_in ids table)
unfolding Selected
jobs_in-Selected ids next table l = jobs_in-All (Selected ids next) ids table (
    All-imp _ _ (λ d p. elim (Bool-cases (is_in d.id ids)) [ inl e ↦ inr (e, p) | inr e ↦ inl e ])
      table l)

pub jobs_in-Distinct :
    (until : ℕ) (ids : List ℕ) (table : List Delivery)
    → Unique table
    → Distinct (hold until (jobs_in ids table))
unfolding jobs_in hold
jobs_in-Distinct until ids [] u = tt
jobs_in-Distinct until ids (d ∷ ds) (n, u) = elim (Bool-cases (is_in d.id ids)) [
  | inl e ↦ rw e (
    hold-All _ until (jobs_in ids ds)
        (jobs_in-All (λ j. j.id ≢ d.id) ids ds (All-imp _ _ (λ x m. inr m) ds n)),
    jobs_in-Distinct until ids ds u,
  )
  | inr e ↦ rw e (jobs_in-Distinct until ids ds u)
]

pub append-Distinct :
    (ids : List ℕ) (hs ks : List Held)
    → All (λ h. is_in h.job.id ids ≡ false) hs
    → All (λ k. is_in k.job.id ids ≡ true) ks
    → Distinct hs
    → Distinct ks
    → Distinct (hs ++ ks)
append-Distinct ids [] ks a b p q = q
append-Distinct ids (h ∷ hs) ks (a, out) b (n, p) q = (
  All-append _ hs ks n
      (All-imp _ _ (λ k e r. absurd (let c : is_in h.job.id ids ≡ true = rw (← r) e in cc)) ks b),
  append-Distinct ids hs ks out b p q,
)
