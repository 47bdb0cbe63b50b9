-- ===== src/Webhooks/Passes.antt =====
-- A pass of the worker row by row: what RunOnce of internal/webhooks/webhooks.go leaves in the table.
use listnun.Prelude.{
  ℕ, ◌+◌, ◌≡◌, refl, ap, sym, ◌∙◌, ◌≢◌, ◌⊎◌, inl, inr, true, List, [], ◌∷◌, map, arith, All, Any,
  ◌==◌, ==_iff, if◌then◌else◌, Bool-cases, All-imp, All-both, All-self, map-cong, map-map, map-id,
}
use listnun.Webhooks.{
  Delivery, Job, move_on, is_in, select_due, lock, lock_ids, jobs_in, claim, claim_batch,
  claim_lease, record_attempt,
}
use listnun.Webhooks.Worker.{Answer, Pass, settle_job, send_all, run_once}
use listnun.Webhooks.Selection.{
  Unique, Alone, Unique-Alone, jobs_in-attempts, jobs_in-Any, jobs_in-none,
}

-- The answers are saved.
abbrev pub Saved : Pass → Type 0
Saved p = (i : ℕ) → (p.answers i).saved ≡ true

-- A row as the answer to its own delivery leaves it.
abbrev pub answered : Answer → Delivery → Delivery
answered a d = move_on a.at d.attempts a.result d

-- What a pass makes of a row: a selected one is moved on once, by the answer to it.
unfoldable pub serve : Pass → List Delivery → Delivery → Delivery
serve p table d =
    if is_in d.id (select_due claim_batch p.now table) then answered (p.answers d.id) d else d

settle_row : Answer → Job → Delivery → Delivery
settle_row a j d =
    if a.saved then (if d.id == j.id then move_on a.at j.attempts a.result d else d) else d

rows_after : (ℕ → Answer) → List Job → Delivery → Delivery
rows_after answers [] d = d
rows_after answers (j ∷ js) d = rows_after answers js (settle_row (answers j.id) j d)

settle_job-map :
    (a : Answer) (j : Job) (t : List Delivery) → settle_job a j t ≡ map (settle_row a j) t
unfolding settle_job settle_row record_attempt
settle_job-map a j t = elim (Bool-cases a.saved) [
  | inl e ↦ rw e refl
  | inr e ↦ rw e (sym (map-id t))
]

send_all-map :
    (answers : ℕ → Answer) (js : List Job) (t : List Delivery)
    → send_all answers js t ≡ map (rows_after answers js) t
unfolding send_all rows_after
send_all-map answers [] t = sym (map-id t)
send_all-map answers (j ∷ js) t =
    send_all-map answers js (settle_job (answers j.id) j t)
    ∙ ap (map (rows_after answers js)) (settle_job-map (answers j.id) j t)
    ∙ map-map (rows_after answers js) (settle_row (answers j.id) j) t

module _ (answers : ℕ → Answer) (saved : (i : ℕ) → (answers i).saved ≡ true) where
  settle_row-other : (j : Job) (d : Delivery) → j.id ≢ d.id → settle_row (answers j.id) j d ≡ d
  unfolding settle_row
  settle_row-other j d n = elim (Bool-cases (d.id == j.id)) [
    | inl e ↦ absurd (n (sym ((==_iff d.id j.id).0 e)))
    | inr e ↦ rw (saved j.id, e) refl
  ]

  settle_row-own :
      (j : Job) (d : Delivery) (n : ℕ)
      → j.id ≡ d.id
      → j.attempts ≡ n
      → settle_row (answers j.id) j d ≡ move_on (answers d.id).at n (answers d.id).result d
  unfolding settle_row
  settle_row-own j d n e q = rw (saved j.id, e, (==_iff d.id d.id).1 refl, q) refl

  -- A job leaves a row alone, or it is the row's own and moves it on.
  settle_row-moved :
      (j : Job) (d : Delivery) (n : ℕ)
      → (j.id ≢ d.id) ⊎ (j.attempts ≡ n)
      → settle_row (answers j.id) j (move_on (answers d.id).at n (answers d.id).result d)
        ≡ move_on (answers d.id).at n (answers d.id).result d
  unfolding move_on
  settle_row-moved j d n (inl m) =
      settle_row-other j (move_on (answers d.id).at n (answers d.id).result d) m
  settle_row-moved j d n (inr q) = elim (Bool-cases (j.id == d.id)) [
    | inl e ↦
        settle_row-own j (move_on (answers d.id).at n (answers d.id).result d) n
          ((==_iff j.id d.id).0 e) q
    | inr e ↦
        settle_row-other j (move_on (answers d.id).at n (answers d.id).result d)
          (λ m. absurd (ground arith))
  ]

  rows_after-none :
      (js : List Job) (d : Delivery)
      → All (λ (j : Job). j.id ≢ d.id) js
      → rows_after answers js d ≡ d
  unfolding rows_after
  rows_after-none [] d h = refl
  rows_after-none (j ∷ js) d h = rw (settle_row-other j d h.0) (rows_after-none js d h.1)

  -- A row that has been moved on stays so when a job repeats.
  rows_after-moved :
      (js : List Job) (d : Delivery) (n : ℕ)
      → All (λ (j : Job). (j.id ≢ d.id) ⊎ (j.attempts ≡ n)) js
      → rows_after answers js (move_on (answers d.id).at n (answers d.id).result d)
        ≡ move_on (answers d.id).at n (answers d.id).result d
  unfolding rows_after move_on
  rows_after-moved [] d n h = refl
  rows_after-moved (j ∷ js) d n h = rw (settle_row-moved j d n h.0) (rows_after-moved js d n h.1)

  rows_after-own :
      (js : List Job) (d : Delivery) (n : ℕ)
      → All (λ (j : Job). (j.id ≢ d.id) ⊎ (j.attempts ≡ n)) js
      → Any (λ (j : Job). j.id ≡ d.id) js
      → rows_after answers js d ≡ move_on (answers d.id).at n (answers d.id).result d
  unfolding rows_after
  rows_after-own [] d n h k = absurd k
  rows_after-own (j ∷ js) d n (inl m, h) (inl e) = absurd (m e)
  rows_after-own (j ∷ js) d n (inr q, h) (inl e) =
      rw (settle_row-own j d n e q) (rows_after-moved js d n h)
  rows_after-own (j ∷ js) d n (inl m, h) (inr k) =
      rw (settle_row-other j d m) (rows_after-own js d n h k)
  rows_after-own (j ∷ js) d n (inr q, h) (inr k) = elim (Bool-cases (j.id == d.id)) [
    | inl e ↦ rw (settle_row-own j d n ((==_iff j.id d.id).0 e) q) (rows_after-moved js d n h)
    | inr e ↦ rw (settle_row-other j d (λ m. absurd (ground arith))) (rows_after-own js d n h k)
  ]

-- A pass whose claim and records all go through moves on each selected row once, by the answer to
-- that delivery and from the attempts that the row had, and leaves every other row as it was.
pub run_once-serve :
    (p : Pass) (table : List Delivery)
    → Unique table
    → p.claims ≡ true
    → Saved p
    → (run_once p table).1 ≡ map (serve p table) table
unfolding run_once claim lock_ids serve move_on
run_once-serve p table u c saved = rw c (
    send_all-map p.answers jobs (map locked table)
    ∙ map-map (rows_after p.answers jobs) locked table
    ∙ map-cong _ _ table (
        All-imp _ _ (λ d q. row d q.0 q.1) table
          (All-both (Alone table) (λ d. Any (λ x. x ≡ d) table) table (Unique-Alone table u)
            (All-self (λ d x. x ≡ d) (λ d. refl) table))))
  where
    ids : List ℕ
    ids = select_due claim_batch p.now table

    jobs : List Job
    jobs = jobs_in ids table

    locked : Delivery → Delivery
    locked d = if is_in d.id ids then lock (p.now + claim_lease) d else d

    row :
        (d : Delivery)
        → Alone table d
        → Any (λ x. x ≡ d) table
        → rows_after p.answers jobs (locked d) ≡ serve p table d
    row d alone mem = elim (Bool-cases (is_in d.id ids)) [
      | inl e ↦ rw e (
          rows_after-own p.answers saved jobs (lock (p.now + claim_lease) d) d.attempts
            (jobs_in-attempts ids d table alone) (jobs_in-Any ids d table mem e))
      | inr e ↦ rw e (rows_after-none p.answers saved jobs d (jobs_in-none ids d.id table e))
    ]
