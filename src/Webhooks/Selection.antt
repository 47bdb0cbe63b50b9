-- ===== src/Webhooks/Selection.antt =====
-- What the subquery of claim-webhook-deliveries selects, and the jobs that come of it.
use listnun.Prelude.{
  leb, ◌||◌, ℕ, zero, suc, ◌≡◌, refl, sym, ◌∙◌, ap, ◌≢◌, ◌⊎◌, inl, inr, true, false, List, [], ◌∷◌,
  map, All, Any, ◌==◌, ==_iff, Bool-cases, All-imp, All-map, All-both, Any-imp, Any-All, Any-elim,
  All-self,
}
use listnun.Webhooks.{
  time_of, Delivery, Job, due, insert, due_first, limit_ids, is_in, select_due, jobs_in,
}

-- The primary key: no two rows have the same id.
abbrev pub Unique : List Delivery → Type 0
Unique [] = Unit
Unique (d ∷ ds) = All (λ e. e.id ≢ d.id) ds × Unique ds

-- The rows with the id of `d` are `d`.
abbrev pub Alone : List Delivery → Delivery → Type 0
Alone table d = All (λ e. (e.id ≢ d.id) ⊎ (e ≡ d)) table

pub Unique-Alone : (table : List Delivery) → Unique table → All (Alone table) table
Unique-Alone [] u = tt
Unique-Alone (d ∷ ds) u = (
  (inr refl, All-imp _ _ (λ e n. inl n) ds u.0),
  All-imp _ _ (λ e p. (inl (λ q. p.0 (sym q)), p.1)) ds (All-both _ _ ds u.0 (Unique-Alone ds u.1)),
)

-- A map that keeps the ids keeps them unique.
pub map-Unique :
    (f : Delivery → Delivery)
    → ((d : Delivery) → (f d).id ≡ d.id)
    → (ds : List Delivery) → Unique ds
    → Unique (map f ds)
map-Unique f same [] u = tt
map-Unique f same (d ∷ ds) (n, u) =
    (All-map _ _ f (λ e m q. m (sym (same e) ∙ q ∙ same d)) ds n, map-Unique f same ds u)

insert-All :
    (P : Delivery → Type 0) (d : Delivery) (ds : List Delivery)
    → P d
    → All P ds
    → All P (insert d ds)
unfolding insert
insert-All P d [] p h = (p, tt)
insert-All P d (e ∷ es) p h =
    elim (Bool-cases (leb (time_of d.next_attempt_at) (time_of e.next_attempt_at))) [
      | inl b ↦ rw b (p, h)
      | inr b ↦ rw b (h.0, insert-All P d es p h.1)
    ]

due_first-All :
    (P : Delivery → Type 0) (now : ℕ) (ds : List Delivery)
    → All P ds
    → All (λ d. P d × (due now d ≡ true)) (due_first now ds)
unfolding due_first
due_first-All P now [] h = tt
due_first-All P now (d ∷ ds) h = elim (Bool-cases (due now d)) [
  | inl e ↦ rw e (insert-All _ d (due_first now ds) (h.0, e) (due_first-All P now ds h.1))
  | inr e ↦ rw e (due_first-All P now ds h.1)
]

limit_ids-Any :
    (n i : ℕ) (ds : List Delivery) → is_in i (limit_ids n ds) ≡ true → Any (λ d. d.id ≡ i) ds
unfolding limit_ids is_in
limit_ids-Any zero i ds h = cc
limit_ids-Any (suc n) i [] h = cc
limit_ids-Any (suc n) i (d ∷ ds) h = elim (Bool-cases (i == d.id)) [
  | inl e ↦ inl (sym ((==_iff i d.id).0 e))
  | inr e ↦ inr (limit_ids-Any n i ds (rw e at h))
]

-- A selected id is the id of a row that is due.
pub selected-due :
    (limit now i : ℕ) (table : List Delivery)
    → is_in i (select_due limit now table) ≡ true
    → Any (λ d. (d.id ≡ i) × (due now d ≡ true)) table
unfolding select_due
selected-due limit now i table h =
    Any-elim (λ d. (d.id ≡ i) × (due now d ≡ true) × Any (λ x. x ≡ d) table)
      (λ d p. Any-imp _ _ (λ x q. rw q (p.0, p.1)) table p.2) (due_first now table)
      (Any-All _ _ _ (λ d p q. (p, q.1, q.0)) (due_first now table)
        (limit_ids-Any limit i (due_first now table) h)
        (due_first-All (λ d. Any (λ x. x ≡ d) table) now table
          (All-self (λ d x. x ≡ d) (λ d. refl) table)))

-- A selected row is due.
pub selected_row-due :
    (limit now : ℕ) (table : List Delivery) (d : Delivery)
    → Alone table d
    → is_in d.id (select_due limit now table) ≡ true
    → due now d ≡ true
selected_row-due limit now table d alone h =
    Any-elim (λ e. due now d ≡ true) (λ e p. p) table
      (Any-All _ _ _ (λ e p q. go e p.0 p.1 q) table (selected-due limit now d.id table h) alone)
  where
    go :
        (e : Delivery) → e.id ≡ d.id → due now e ≡ true → (e.id ≢ d.id) ⊎ (e ≡ d) → due now d ≡ true
    go e p q (inl n) = absurd (n p)
    go e p q (inr r) = rw (← r) q

insert-some :
    (d : Delivery) (ds : List Delivery)
    → (e : Delivery) × (es : List Delivery) × (insert d ds ≡ e ∷ es)
unfolding insert
insert-some d [] = (d, [], refl)
insert-some d (e ∷ es) =
    elim (Bool-cases (leb (time_of d.next_attempt_at) (time_of e.next_attempt_at))) [
      | inl b ↦ rw b (d, e ∷ es, refl)
      | inr b ↦ rw b (e, insert d es, refl)
    ]

due_first-some :
    (now : ℕ) (ds : List Delivery)
    → Any (λ d. due now d ≡ true) ds
    → (e : Delivery) × (es : List Delivery) × (due_first now ds ≡ e ∷ es)
unfolding due_first
due_first-some now [] h = absurd h
due_first-some now (d ∷ ds) (inl p) = rw p (insert-some d (due_first now ds))
due_first-some now (d ∷ ds) (inr h) = elim (Bool-cases (due now d)) [
  | inl p ↦ rw p (insert-some d (due_first now ds))
  | inr p ↦ rw p (due_first-some now ds h)
]

-- When a row is due, some row is selected.
pub due-selected :
    (limit now : ℕ) (table : List Delivery)
    → Any (λ d. due now d ≡ true) table
    → Any (λ d. is_in d.id (select_due (suc limit) now table) ≡ true) table
unfolding select_due limit_ids is_in
due-selected limit now table h =
    let (e, es, q) = due_first-some now table h in
    go e es q (
      due_first-All (λ d. Any (λ x. x ≡ d) table) now table
        (All-self (λ d x. x ≡ d) (λ d. refl) table))
  where
    here : (i k : ℕ) (ids : List ℕ) → i ≡ k → (i == k || is_in i ids) ≡ true
    here i k ids e = rw ((==_iff i k).1 e) refl

    go :
        (e : Delivery) (es : List Delivery)
        → due_first now table ≡ e ∷ es
        → All (λ d. Any (λ x. x ≡ d) table × (due now d ≡ true)) (due_first now table)
        → Any (λ d. is_in d.id (limit_ids (suc limit) (due_first now table)) ≡ true) table
    go e es q all =
        Any-imp _ _ (λ x r. rw q (here x.id e.id (limit_ids limit es) (ap (λ y. y.id) r))) table
          (rw q at all).0.0

-- The jobs with the id of a row carry its attempts.
pub jobs_in-attempts :
    (ids : List ℕ) (d : Delivery) (table : List Delivery)
    → Alone table d
    → All (λ (j : Job). (j.id ≢ d.id) ⊎ (j.attempts ≡ d.attempts)) (jobs_in ids table)
unfolding jobs_in
jobs_in-attempts ids d [] alone = tt
jobs_in-attempts ids d (e ∷ es) alone = elim (Bool-cases (is_in e.id ids)) [
  | inl b ↦ rw b (of_row alone.0, jobs_in-attempts ids d es alone.1)
  | inr b ↦ rw b (jobs_in-attempts ids d es alone.1)
]
  where
    of_row : (e.id ≢ d.id) ⊎ (e ≡ d) → (e.id ≢ d.id) ⊎ (e.attempts ≡ d.attempts)
    of_row (inl n) = inl n
    of_row (inr r) = inr (ap (λ x. x.attempts) r)

-- A row whose id is selected has a job.
pub jobs_in-Any :
    (ids : List ℕ) (d : Delivery) (table : List Delivery)
    → Any (λ e. e ≡ d) table
    → is_in d.id ids ≡ true
    → Any (λ (j : Job). j.id ≡ d.id) (jobs_in ids table)
unfolding jobs_in
jobs_in-Any ids d [] h b = absurd h
jobs_in-Any ids d (e ∷ es) (inl r) b = elim (Bool-cases (is_in e.id ids)) [
  | inl c ↦ rw c (inl (ap (λ x. x.id) r))
  | inr c ↦ absurd cc
]
jobs_in-Any ids d (e ∷ es) (inr h) b = elim (Bool-cases (is_in e.id ids)) [
  | inl c ↦ rw c (inr (jobs_in-Any ids d es h b))
  | inr c ↦ rw c (jobs_in-Any ids d es h b)
]

-- A row whose id is not selected has no job.
pub jobs_in-none :
    (ids : List ℕ) (i : ℕ) (table : List Delivery)
    → is_in i ids ≡ false
    → All (λ (j : Job). j.id ≢ i) (jobs_in ids table)
unfolding jobs_in
jobs_in-none ids i [] b = tt
jobs_in-none ids i (e ∷ es) b = elim (Bool-cases (is_in e.id ids)) [
  | inl c ↦ rw c ((λ p. cc), jobs_in-none ids i es b)
  | inr c ↦ rw c (jobs_in-none ids i es b)
]
