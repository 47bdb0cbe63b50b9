-- ===== src/Importer/Session/Batches.antt =====
-- Session.Start: what the counters say of the database, and the sizes of the transactions.
use listnun.Prelude.{
  ℕ, zero, suc, ◌+◌, ◌≤◌, ◌<◌, ◌≡◌, Bool, true, false, some, List, ◌∷◌, [], arith, length,
  length-append, All, Option-cases, inl, inr,
}
use listnun.Importer.Status.{increment_failed}
use listnun.Importer.Session.{
  SubReq, SessionOpt, RowAnswers, Write, Tx, open_tx, done, push_write, commit, World, Loop,
  batch_limit, commit_batch_size, commit_batch, add_write, inserted_row, write_of, process_row,
  process_queue, finish, start, first_loop,
}
use listnun.Importer.Session.Rules.{Kept, process_queue_rule, process_row_cases, insert_row_cases}

-- How many rows the committed transactions hold.
abbrev pub rows_in : List (List Write) → ℕ
rows_in [] = 0
rows_in (t ∷ ts) = length t + rows_in ts

-- An open transaction holds `n` writes.
abbrev Holds : ℕ → Tx → Type 0
Holds n (open_tx ws) = length ws ≡ n
Holds n done = Unit {0}

Holds-push_write : (n : ℕ) (w : Write) (tx : Tx) → Holds n tx → Holds (n + 1) (push_write w tx)
Holds-push_write n w (open_tx ws) h = ground (arith, length-append ws (w ∷ []))
Holds-push_write n w done h = tt

length-commit :
    (n : ℕ) (ok : Bool) (tx : Tx)
    → Holds n tx
    → (ws : List Write) → commit ok tx ≡ some ws
    → length ws ≡ n
length-commit n true (open_tx ws) h vs e = ground arith
length-commit n false (open_tx ws) h vs e = ground arith
length-commit n ok done h vs e = ground arith

batch_limit_bounds : (n : ℕ) → (0 < batch_limit n) × (batch_limit n ≤ commit_batch_size)
unfolding batch_limit
batch_limit_bounds zero = omega arith
batch_limit_bounds (suc zero) = omega arith
batch_limit_bounds (suc (suc n)) = omega arith

abbrev IsSmall : List Write → Type 0
IsSmall t = length t ≤ commit_batch_size

-- What a world says truly of its database; `n` and `k` are the counter and the rows at the start.
pub record Truthful (n k : ℕ) (w : World) : Type 0 where
  pub agrees : w.status.imported + k ≡ n + rows_in w.commits
  pub added_le : w.status.added ≤ w.status.imported
  pub small : All IsSmall w.commits

record Inv (n k : ℕ) (s : Loop) : Type 0 where
  holds : Holds s.cur s.tx
  truthful : Truthful n k s.world
  below : s.cur < batch_limit s.batch
  added_le : s.added ≤ s.cur
  pending_le : s.world.status.pending ≤ s.cur

commit_batch-Inv :
    (n k : ℕ) (ok : Bool) (s : Loop)
    → Holds s.cur s.tx
    → Truthful n k s.world
    → s.cur ≤ commit_batch_size
    → s.added ≤ s.cur
    → Inv n k (commit_batch ok s)
unfolding commit_batch
commit_batch-Inv n k ok s h t c a = elim (Option-cases (commit ok s.tx)) [
  | inl e ↦ rw (e, commit_batch) (ground (arith, batch_limit_bounds (s.batch + 1)))
  | inr (ws, e) ↦
      rw (e, commit_batch)
        (ground (arith, batch_limit_bounds (s.batch + 1), length-commit s.cur ok s.tx h ws e))
]

inserted_row-Inv :
    (n k : ℕ) (opt : SessionOpt) (sub : SubReq) (ins ok : Bool) (s : Loop)
    → Inv n k s
    → Inv n k (inserted_row opt sub ins ok s)
unfolding inserted_row add_write
inserted_row-Inv n k opt sub ins ok s v = ground (
  arith,
  batch_limit_bounds s.batch,
  Holds-push_write s.cur (write_of opt sub) s.tx,
  commit_batch-Inv n k ok (add_write opt sub ins s),
)

-- After a break there is no transaction to commit.
abbrev Broken : ℕ → ℕ → Loop → Type 0
Broken n k s = Truthful n k s.world × (s.tx ≡ done) × (s.world.status.pending ≤ s.cur)

finish-Truthful :
    (n k : ℕ) (opt : SessionOpt) (ok : Bool) (s : Loop)
    → Holds s.cur s.tx
    → Truthful n k s.world
    → s.cur ≤ commit_batch_size
    → s.added ≤ s.cur
    → s.world.status.pending ≤ s.cur
    → Truthful n k (finish opt ok s) × ((finish opt ok s).status.pending ≡ 0)
unfolding finish
finish-Truthful n k opt ok s h t c a p = elim (Option-cases (commit ok s.tx)) [
  | inl e ↦ rw (e, finish) (ground arith)
  | inr (ws, e) ↦ rw (e, finish) (ground (arith, length-commit s.cur ok s.tx h ws e))
]

process_row-Inv :
    (n k : ℕ) (opt : SessionOpt) (sub : SubReq) (a : RowAnswers) (rest : List (SubReq × RowAnswers))
    (s : Loop)
    → Inv n k s
    → Kept (λ s _. Inv n k s) (λ s _. Inv n k s) rest (process_row opt sub a s)
unfolding increment_failed
process_row-Inv n k opt sub a rest s v =
    process_row_cases (Kept (λ s _. Inv n k s) (λ s _. Inv n k s) rest) opt sub a s (λ z b. v)
      λ s' begun.
        insert_row_cases (Kept (λ s _. Inv n k s) (λ s _. Inv n k s) rest) opt sub a s'
          (λ u. ground arith) (λ e. ground arith)
          (λ ins e. inserted_row-Inv n k opt sub ins a.commit_ok s' (ground arith))

-- However the database answers, at the end of a session the imported counter has grown by exactly
-- the rows of the transactions that were committed, the added counter is no larger than it, no
-- transaction holds more than 10000 rows, and no row is pending.
pub start-Truthful :
    (opt : SessionOpt) (queue : List (SubReq × RowAnswers)) (ok : Bool) (w : World)
    → w.status.added ≤ w.status.imported
    → w.status.pending ≡ 0
    → All IsSmall w.commits
    → let w' = (start opt queue ok w).0 in
      Truthful w.status.imported (rows_in w.commits) w' × (w'.status.pending ≡ 0)
unfolding start
start-Truthful opt queue ok w a p small =
    let n = w.status.imported in
    let k = rows_in w.commits in
    let v : Inv n k (process_queue opt queue (first_loop w)).0 =
      process_queue_rule (λ s _. Inv n k s) (λ s _. Inv n k s) opt (process_row-Inv n k opt)
        (λ s v. v) queue (first_loop w) (ground (arith, batch_limit_bounds 0)) in
    let s = (process_queue opt queue (first_loop w)).0 in
    finish-Truthful n k opt ok s v.holds v.truthful
      (omega (arith, v.below, batch_limit_bounds s.batch)) v.added_le v.pending_le
