-- ===== src/Scrub/Progressing.antt =====
-- When a validation job is done: AggregateBatches of internal/scrub/batching.go.
use listnun.Prelude.{
  ℕ, ◌≤◌, ◌<◌, ◌≡◌, ◌↔◌, refl, true, List, [], ◌∷◌, text_eq_iff, codes, arith, length, All,
  Bool-cases, ==_iff, ◌⊎◌, inl, inr,
}
use listnun.Scrub.{Batch, is_terminal, sum_batches, aggregate_batches}

-- The status is completed or failed.
abbrev pub Over : Batch → Type 0
Over b = (b.status ≡ codes "completed") ⊎ (b.status ≡ codes "failed")

is_terminal_iff : (b : Batch) → (is_terminal b.status ≡ true) ↔ Over b
is_terminal_iff b =
    ground (arith, text_eq_iff b.status (codes "completed"), text_eq_iff b.status (codes "failed"))

-- Either all batches are over and counted, or fewer are counted than there are.
completed_cases :
    (bs : List Batch)
    → (All Over bs × ((sum_batches bs).completed ≡ length bs))
      ⊎ ((sum_batches bs).completed < length bs)
unfolding sum_batches
completed_cases [] = inl (tt, refl)
completed_cases (b ∷ bs) = elim (Bool-cases (is_terminal b.status)) [
  | inl e ↦ elim (completed_cases bs) [
    | inl (a, n) ↦ inl (((is_terminal_iff b).0 e, a), rw e (omega arith))
    | inr n ↦ inr (rw e (omega arith))
  ]
  | inr e ↦ elim (completed_cases bs) [
    | inl (a, n) ↦ inr (rw e (omega arith))
    | inr n ↦ inr (rw e (omega arith))
  ]
]

completed-of_Over : (bs : List Batch) → All Over bs → (sum_batches bs).completed ≡ length bs
unfolding sum_batches
completed-of_Over [] a = refl
completed-of_Over (b ∷ bs) (e, a) =
    rw ((is_terminal_iff b).1 e, completed-of_Over bs a) (omega arith)

-- A job that has at most as many batches as it waits for is done exactly when it has that many and
-- each has completed or failed; a batch that is not yet inserted keeps it open.
pub aggregate_batches_iff :
    (total : ℕ) (bs : List Batch)
    → length bs ≤ total
    → ((aggregate_batches total bs).1 ≡ true) ↔ ((length bs ≡ total) × All Over bs)
unfolding aggregate_batches
aggregate_batches_iff total bs h = (
  λ e. elim (completed_cases bs) [
    | inl (a, n) ↦ (omega (arith, (==_iff (sum_batches bs).completed total).0 e), a)
    | inr n ↦ absurd (omega (arith, (==_iff (sum_batches bs).completed total).0 e))
  ],
  λ (n, a). (==_iff (sum_batches bs).completed total).1 (omega (arith, completed-of_Over bs a)),
)
