-- ===== src/Webhooks/Totals.antt =====
-- How many deliveries a sequence of passes of internal/webhooks/webhooks.go sends.
use listnun.Prelude.{
  ℕ, ◌+◌, ◌-◌, ◌*◌, ◌≤◌, ◌≡◌, refl, inl, inr, Bool, true, false, List, [], ◌∷◌, map, arith, All,
  if◌then◌else◌, Bool-cases, length, All-imp, All-both, All-map,
}
use listnun.Webhooks.{
  Delivery, move_on, unfinished, due, is_in, select_due, jobs_in, claim, job_of, claim_batch,
}
use listnun.Webhooks.Rows.{
  Consistent, tries_left, move_on-Consistent, move_on-tries_left, unfinished-attempts-lt,
}
use listnun.Webhooks.Worker.{Pass, run_once}
use listnun.Webhooks.Selection.{Unique, Alone, Unique-Alone, selected_row-due, map-Unique}
use listnun.Webhooks.Passes.{Saved, answered, serve, run_once-serve}

-- The deliveries sent by passes one after another, and the table after them.
unfoldable pub run_passes : List Pass → List Delivery → ℕ × List Delivery
run_passes [] table = (0, table)
run_passes (p ∷ ps) table =
    let (jobs, next) = run_once p table in
    let (sends, last) = run_passes ps next in (length jobs + sends, last)

abbrev pub total_left : List Delivery → ℕ
total_left [] = 0
total_left (d ∷ ds) = tries_left d + total_left ds

abbrev pub one_if : Bool → ℕ
one_if true = 1
one_if false = 0

pub due-unfinished : (now : ℕ) (d : Delivery) → due now d ≡ true → unfinished d.status ≡ true
unfolding due
due-unfinished now d h = ground arith

-- Rows as they stand in a table whose ids are unique.
abbrev pub Settled : List Delivery → Delivery → Type 0
Settled table d = Consistent d × Alone table d

serve-Consistent :
    (p : Pass) (table : List Delivery) (d : Delivery)
    → Settled table d
    → Consistent (serve p table d)
unfolding serve
serve-Consistent p table d (c, alone) =
    elim (Bool-cases (is_in d.id (select_due claim_batch p.now table))) [
      | inl e ↦ rw e (
          move_on-Consistent (p.answers d.id).at d.attempts (p.answers d.id).result d (
            unfinished-attempts-lt d c
              (due-unfinished p.now d (selected_row-due claim_batch p.now table d alone e))))
      | inr e ↦ rw e c
    ]

serve-tries_left :
    (p : Pass) (table : List Delivery) (d : Delivery)
    → Settled table d
    → tries_left (serve p table d) + one_if (is_in d.id (select_due claim_batch p.now table))
      ≤ tries_left d
unfolding serve
serve-tries_left p table d (c, alone) =
    elim (Bool-cases (is_in d.id (select_due claim_batch p.now table))) [
      | inl e ↦
          rw e (taken (due-unfinished p.now d (selected_row-due claim_batch p.now table d alone e)))
      | inr e ↦ rw e (omega arith)
    ]
  where
    taken : unfinished d.status ≡ true → tries_left (answered (p.answers d.id) d) + 1 ≤ tries_left d
    taken a = rw a (
        omega (
          arith,
          move_on-tries_left (p.answers d.id).at d.attempts (p.answers d.id).result d
              (unfinished-attempts-lt d c a),
          unfinished-attempts-lt d c a,
        ))

-- A table whose ids are unique and whose rows are consistent.
abbrev pub Sound : List Delivery → Type 0
Sound table = Unique table × All Consistent table

-- A pass whose claim and records go through.
abbrev pub Runs : Pass → Type 0
Runs p = (p.claims ≡ true) × Saved p

Sound-Settled : (table : List Delivery) → Sound table → All (Settled table) table
Sound-Settled table (u, c) = All-both _ _ table c (Unique-Alone table u)

serve_id : (p : Pass) (table : List Delivery) (d : Delivery) → (serve p table d).id ≡ d.id
unfolding serve move_on
serve_id p table d = elim (Bool-cases (is_in d.id (select_due claim_batch p.now table))) [
  | inl e ↦ rw e refl
  | inr e ↦ rw e refl
]

pub run_once-Sound :
    (p : Pass) (table : List Delivery) → Runs p → Sound table → Sound (run_once p table).1
run_once-Sound p table (claims, saved) (u, c) = rw (run_once-serve p table u claims saved) (
  map-Unique (serve p table) (serve_id p table) table u,
  All-map (Settled table) Consistent (serve p table) (serve-Consistent p table) table
      (Sound-Settled table (u, c)),
)

-- The passes' measure: a map that takes one attempt from each row that a test picks.
total_left-map :
    (f : Delivery → Delivery) (ids : List ℕ) (ds : List Delivery)
    → All (λ d. tries_left (f d) + one_if (is_in d.id ids) ≤ tries_left d) ds
    → total_left (map f ds) + length (jobs_in ids ds) ≤ total_left ds
unfolding jobs_in
total_left-map f ids [] h = omega arith
total_left-map f ids (d ∷ ds) (h, hs) = go (is_in d.id ids) h (total_left-map f ids ds hs)
  where
    go :
        (b : Bool)
        → tries_left (f d) + one_if b ≤ tries_left d
        → total_left (map f ds) + length (jobs_in ids ds) ≤ total_left ds
        → tries_left (f d)
            + total_left (map f ds)
            + length (if b then job_of d ∷ jobs_in ids ds else jobs_in ids ds)
          ≤ tries_left d + total_left ds
    go true p q = omega arith
    go false p q = omega arith

pub run_once-jobs :
    (p : Pass) (table : List Delivery)
    → p.claims ≡ true
    → (run_once p table).0 ≡ jobs_in (select_due claim_batch p.now table) table
unfolding run_once claim
run_once-jobs p table c = rw c refl

-- Each delivery that a pass sends takes an attempt from those that the table has left.
pub run_once-total_left :
    (p : Pass) (table : List Delivery)
    → Runs p
    → Sound table
    → total_left (run_once p table).1 + length (run_once p table).0 ≤ total_left table
run_once-total_left p table (claims, saved) (u, c) =
    rw (run_once-serve p table u claims saved, run_once-jobs p table claims)
      (total_left-map (serve p table) (select_due claim_batch p.now table) table
        (All-imp _ _ (serve-tries_left p table) table (Sound-Settled table (u, c))))

pub total_left-le : (ds : List Delivery) → total_left ds ≤ 8 * length ds
total_left-le [] = omega arith
total_left-le (d ∷ ds) = omega (arith, total_left-le ds, go (unfinished d.status))
  where
    go : (b : Bool) → (if b then 8 - d.attempts else 0) ≤ 8
    go true = omega arith
    go false = omega arith

pub run_passes-total_left :
    (ps : List Pass) (table : List Delivery)
    → All Runs ps
    → Sound table
    → (run_passes ps table).0 + total_left (run_passes ps table).1 ≤ total_left table
unfolding run_passes
run_passes-total_left [] table r s = omega arith
run_passes-total_left (p ∷ ps) table (r, rs) s = omega (
  arith,
  run_once-total_left p table r s,
  run_passes-total_left ps (run_once p table).1 rs (run_once-Sound p table r s),
)

-- However many passes run, they send at most eight times as many deliveries as the table has, when
-- their statements go through and nothing is queued or retried by hand in between.
run_passes-sends :
    (ps : List Pass) (table : List Delivery)
    → All Runs ps
    → Sound table
    → (run_passes ps table).0 ≤ 8 * length table
run_passes-sends ps table r s =
    omega (arith, run_passes-total_left ps table r s, total_left-le table)
