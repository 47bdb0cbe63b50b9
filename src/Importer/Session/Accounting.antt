-- ===== src/Importer/Session/Accounting.antt =====
-- Session.Start: every row of the queue is accounted for.
use listnun.Prelude.{◌+◌, ◌≡◌, Bool, true, List, ◌∷◌, ℕ, arith, length, All}
use listnun.Importer.Status.{increment_failed}
use listnun.Importer.Session.{
  SubReq, SessionOpt, RowAnswers, World, Loop, commit_batch, add_write, inserted_row, process_row,
  process_queue, finish, start, first_loop,
}
use listnun.Importer.Session.Rules.{Kept, process_queue_rule, process_row_cases, insert_row_cases}

-- The rows that the counters or the open transaction hold.
abbrev tally : Loop → ℕ
tally s = s.world.status.imported + s.world.status.failed + s.cur

-- The row gets a transaction and a UUID; its insert and its commit may still fail.
abbrev pub Served : SubReq × RowAnswers → Type 0
Served (sub, a) = (a.begin_ok ≡ true) × (a.uuid_ok ≡ true)

tally-inserted_row :
    (opt : SessionOpt) (sub : SubReq) (ins ok : Bool) (s : Loop)
    → tally (inserted_row opt sub ins ok s) ≡ tally s + 1
unfolding inserted_row add_write commit_batch
tally-inserted_row opt sub ins ok s = ground arith

abbrev Counted : ℕ → Loop → List (SubReq × RowAnswers) → Type 0
Counted n s queue = tally s + length queue ≡ n

abbrev Expected : ℕ → Loop → List (SubReq × RowAnswers) → Type 0
Expected n s queue = Counted n s queue × All Served queue

process_row-Counted :
    (n : ℕ) (opt : SessionOpt) (sub : SubReq) (a : RowAnswers) (rest : List (SubReq × RowAnswers))
    (s : Loop)
    → Expected n s ((sub, a) ∷ rest)
    → Kept (Expected n) (Counted n) rest (process_row opt sub a s)
unfolding increment_failed
process_row-Counted n opt sub a rest s p =
    process_row_cases (Kept (Expected n) (Counted n) rest) opt sub a s (λ z b. ground arith)
      λ s' begun.
        insert_row_cases (Kept (Expected n) (Counted n) rest) opt sub a s' (λ u. ground arith)
          (λ e. ground arith)
          (λ ins e. ground (arith, tally-inserted_row opt sub ins a.commit_ok s'))

counted-finish :
    (opt : SessionOpt) (ok : Bool) (s : Loop)
    → (finish opt ok s).status.imported + (finish opt ok s).status.failed ≡ tally s
unfolding finish
counted-finish opt ok s = ground arith

-- When the database opens a transaction for every batch and no UUID fails, each row that Start took
-- off the queue is counted once, as imported or as failed; what it left in the queue is not counted.
pub counted-start :
    (opt : SessionOpt) (queue : List (SubReq × RowAnswers)) (ok : Bool) (w : World)
    → All Served queue
    → let (w', rest) = start opt queue ok w in
      w'.status.imported + w'.status.failed + length rest
      ≡ w.status.imported + w.status.failed + length queue
unfolding start
counted-start opt queue ok w served =
    let n = w.status.imported + w.status.failed + length queue in
    let counted =
      process_queue_rule (Expected n) (Counted n) opt (process_row-Counted n opt) (λ s p. p.0) queue
        (first_loop w) (ground arith, served) in
    omega (arith, counted, counted-finish opt ok (process_queue opt queue (first_loop w)).0)
