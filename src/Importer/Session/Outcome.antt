-- ===== src/Importer/Session/Outcome.antt =====
-- Session.Start: how a session ends, with and without failures.
use listnun.Prelude.{
  ℕ, ◌+◌, ◌<◌, ◌≡◌, ◌⊎◌, inl, inr, refl, sym, ◌∙◌, ◌≢◌, Bool, true, false, some, none, List, ◌∷◌,
  [], ◌++◌, arith, All, ◌==◌, if◌then◌else◌, Bool-cases,
}
use listnun.Importer.Status.{finished, failed, notif, ImportNotif}
use listnun.Importer.Session.{
  SubReq, SessionOpt, RowAnswers, Write, Tx, open_tx, done, World, Loop, write_of, batch_limit,
  commit_batch, add_write, inserted_row, process_row, process_queue, finish, start, first_loop,
}
use listnun.Importer.Session.Rules.{
  Begun, Kept, process_queue_rule, process_row_cases, insert_row_cases,
}
use mathlib.Core.Bool.{false≢true}
use mathlib.Core.List.{append_assoc, append-nil}

abbrev Notified : List ImportNotif → Loop → List (SubReq × RowAnswers) → Type 0
Notified ns s _ = s.world.notifs ≡ ns

process_row-Notified :
    (ns : List ImportNotif) (opt : SessionOpt) (sub : SubReq) (a : RowAnswers)
    (rest : List (SubReq × RowAnswers)) (s : Loop)
    → s.world.notifs ≡ ns
    → Kept (Notified ns) (Notified ns) rest (process_row opt sub a s)
unfolding inserted_row commit_batch add_write
process_row-Notified ns opt sub a rest s e =
    process_row_cases (Kept (Notified ns) (Notified ns) rest) opt sub a s (λ z b. e)
      λ s' begun.
        insert_row_cases (Kept (Notified ns) (Notified ns) rest) opt sub a s' (λ u. ground arith)
          (λ x. ground arith) (λ ins x. ground arith)

finish-notifs :
    (opt : SessionOpt) (ok : Bool) (s : Loop)
    → let w = finish opt ok s in
      (w.notifs ≡ notif w.status.status w.status ∷ s.world.notifs)
      × ((w.status.status ≡ finished) ⊎ (w.status.status ≡ failed))
unfolding finish
finish-notifs opt ok s = ground arith

-- A session that Start ends sends one notification, with the final status and the final counters,
-- and that status is finished or failed.
start-notifs :
    (opt : SessionOpt) (queue : List (SubReq × RowAnswers)) (ok : Bool) (w : World)
    → let w' = (start opt queue ok w).0 in
      (w'.notifs ≡ notif w'.status.status w'.status ∷ w.notifs)
      × ((w'.status.status ≡ finished) ⊎ (w'.status.status ≡ failed))
unfolding start
start-notifs opt queue ok w =
    let kept =
      process_queue_rule (Notified w.notifs) (Notified w.notifs) opt
        (process_row-Notified w.notifs opt) (λ s e. e) queue (first_loop w) refl in
    ground (arith, kept, finish-notifs opt ok (process_queue opt queue (first_loop w)).0)

-- An insert that fails stops the session: nothing of the open transaction is committed, its rows
-- and the failing one are counted as failed, and the rest of the queue is left. The session ends
-- failed if the transaction held rows, and finished if the failing row was the first of its batch.
pub insert_failure :
    (opt : SessionOpt) (sub : SubReq) (a : RowAnswers) (rest : List (SubReq × RowAnswers))
    (ok : Bool) (s : Loop)
    → a.begin_ok ≡ true
    → a.uuid_ok ≡ true
    → a.exec ≡ none
    → let (s', left) = process_queue opt ((sub, a) ∷ rest) s in
      let w = finish opt ok s' in
      (left ≡ rest)
      × (w.commits ≡ s.world.commits)
      × (w.status.imported ≡ s.world.status.imported)
      × (w.status.failed ≡ s.world.status.failed + s.cur + 1)
      × (w.status.status ≡ (if s.cur == 0 then finished else failed))
unfolding process_queue process_row finish
insert_failure opt sub a rest ok s b u e = ground arith

-- The committed writes in the order in which they were made.
abbrev pub all_writes : List (List Write) → List Write
all_writes [] = []
all_writes (t ∷ ts) = all_writes ts ++ t

abbrev contents : Tx → List Write
contents (open_tx ws) = ws
contents done = []

-- The transaction of a loop without failures.
abbrev Live : ℕ → Tx → Type 0
Live n (open_tx ws) = 0 < n
Live n done = n ≡ 0

abbrev pub Granted : SubReq × RowAnswers → Type 0
Granted (sub, a) =
    (a.begin_ok ≡ true)
    × (a.uuid_ok ≡ true)
    × ((ins : Bool) × (a.exec ≡ some ins))
    × (a.commit_ok ≡ true)

abbrev pub writes_for : SessionOpt → List (SubReq × RowAnswers) → List Write
writes_for opt [] = []
writes_for opt ((sub, a) ∷ rest) = write_of opt sub ∷ writes_for opt rest

record Smooth (target : List Write) (opt : SessionOpt) (s : Loop)
    (queue : List (SubReq × RowAnswers)) : Type 0 where
  live : Live s.cur s.tx
  order : (all_writes s.world.commits ++ contents s.tx) ++ writes_for opt queue ≡ target
  granted : All Granted queue

-- The open transaction `ws` takes one more write.
regroup :
    (committed ws : List Write) (w : Write) (later target : List Write)
    → (committed ++ ws) ++ (w ∷ later) ≡ target
    → ((committed ++ (ws ++ (w ∷ []))) ++ later ≡ target)
      × (((committed ++ (ws ++ (w ∷ []))) ++ []) ++ later ≡ target)
regroup committed ws w later target e = (
  simp append_assoc (simp append_assoc at e),
  simp (append_assoc, append-nil) (simp append_assoc at e),
)

inserted_row-Smooth :
    (target : List Write) (opt : SessionOpt) (sub : SubReq) (ins : Bool) (ws : List Write)
    (s : Loop) (rest : List (SubReq × RowAnswers))
    → s.tx ≡ open_tx ws
    → (all_writes s.world.commits ++ ws) ++ (write_of opt sub ∷ writes_for opt rest) ≡ target
    → All Granted rest
    → Smooth target opt (inserted_row opt sub ins true s) rest
unfolding inserted_row add_write commit_batch
inserted_row-Smooth target opt sub ins ws s rest t e g =
    let r =
      regroup (all_writes s.world.commits) ws (write_of opt sub) (writes_for opt rest) target e in
    elim (Bool-cases (s.cur + 1 == batch_limit s.batch)) [
      | inl full ↦ rw (full, t) (record { live = refl; order = r.1; granted = g })
      | inr more ↦ rw (more, t) (record { live = omega arith; order = r.0; granted = g })
    ]

open_of_Live : (n : ℕ) (tx : Tx) → Live n tx → n ≢ 0 → (ws : List Write) × (tx ≡ open_tx ws)
open_of_Live n (open_tx ws) l h = (ws, refl)
open_of_Live n done l h = absurd (h l)

contents_of_Live : (n : ℕ) (tx : Tx) → Live n tx → n ≡ 0 → contents tx ≡ []
contents_of_Live n (open_tx ws) l h = absurd (omega arith)
contents_of_Live n done l h = refl

abbrev Ended : List Write → SessionOpt → Loop → List (SubReq × RowAnswers) → Type 0
Ended target opt s left = Smooth target opt s left × (left ≡ [])

Begun-Smooth :
    (target : List Write) (opt : SessionOpt) (sub : SubReq) (a : RowAnswers)
    (rest : List (SubReq × RowAnswers)) (s s' : Loop)
    → Smooth target opt s ((sub, a) ∷ rest)
    → Begun s s'
    → (ins : Bool) → Smooth target opt (inserted_row opt sub ins true s') rest
Begun-Smooth target opt sub a rest s s' v (inl (z, e)) ins =
    inserted_row-Smooth target opt sub ins [] s' rest (ground arith)
      (rw e (rw (contents_of_Live s.cur s.tx v.live z) at v.order)) v.granted.1
Begun-Smooth target opt sub a rest s s' v (inr (z, e)) ins =
    let (ws, o) = open_of_Live s.cur s.tx v.live z in
    inserted_row-Smooth target opt sub ins ws s' rest (ground arith) (rw e (rw o at v.order))
      v.granted.1

process_row-Smooth :
    (target : List Write) (opt : SessionOpt) (sub : SubReq) (a : RowAnswers)
    (rest : List (SubReq × RowAnswers)) (s : Loop)
    → Smooth target opt s ((sub, a) ∷ rest)
    → Kept (Smooth target opt) (Ended target opt) rest (process_row opt sub a s)
process_row-Smooth target opt sub a rest s v =
    let (b, u, x, c) = v.granted.0 in
    process_row_cases (Kept (Smooth target opt) (Ended target opt) rest) opt sub a s
      (λ z b'. absurd (false≢true (sym b' ∙ b)))
      λ s' begun.
        insert_row_cases (Kept (Smooth target opt) (Ended target opt) rest) opt sub a s'
          (λ u'. absurd (false≢true (sym u' ∙ u))) (λ e. absurd (ground arith))
          (λ ins e. rw c (Begun-Smooth target opt sub a rest s s' v begun ins))

finish-Smooth :
    (target : List Write) (opt : SessionOpt) (s : Loop)
    → Smooth target opt s []
    → (all_writes (finish opt true s).commits ≡ target)
      × ((finish opt true s).status.status ≡ finished)
unfolding finish
finish-Smooth target opt s v = go (Bool-cases (s.cur == 0))
  where
    go :
        ((s.cur == 0) ≡ true) ⊎ ((s.cur == 0) ≡ false)
        → (all_writes (finish opt true s).commits ≡ target)
          × ((finish opt true s).status.status ≡ finished)
    go (inl z) =
        rw z (simp (contents_of_Live s.cur s.tx v.live (ground arith), append-nil) at v.order, refl)
    go (inr z) =
        let (ws, o) = open_of_Live s.cur s.tx v.live (ground arith) in
        rw (z, o) (rw (o, append-nil) at v.order, refl)

-- A session whose database never fails takes the whole queue, writes every row once and in order,
-- and ends finished.
pub start-Granted :
    (opt : SessionOpt) (queue : List (SubReq × RowAnswers)) (w : World)
    → All Granted queue
    → let (w', left) = start opt queue true w in
      (left ≡ [])
      × (all_writes w'.commits ≡ all_writes w.commits ++ writes_for opt queue)
      × (w'.status.status ≡ finished)
unfolding start
start-Granted opt queue w g =
    let target = all_writes w.commits ++ writes_for opt queue in
    let s = (process_queue opt queue (first_loop w)).0 in
    let (v, left) =
      process_queue_rule (Smooth target opt) (Ended target opt) opt (process_row-Smooth target opt)
        (λ s v. (v, refl)) queue (first_loop w)
        (record { live = refl; order = simp append-nil; granted = g }) in
    let (order, ended) = finish-Smooth target opt s (rw left at v) in (left, order, ended)
