-- ===== src/Importer/Session.antt =====
-- Session.Start of internal/subimporter/importer.go: the loop that takes subscribers off the queue
-- and writes them in transactions.
-- The database, the clock and the random source answer through a `RowAnswers` for each row; the
-- queue is the list of rows that LoadCSV sends before it closes the channel.
pub mod Rules
pub mod Accounting
pub mod Batches
pub mod Outcome
use listnun.Prelude.{
  ℕ, zero, suc, ◌+◌, ◌%◌, Bool, true, false, Option, none, some, List, [], ◌∷◌, ◌++◌, ◌==◌,
  if◌then◌else◌, length,
}
pub use listnun.Importer.Types.{SubReq, SubStatus, SessionOpt}
use listnun.Importer.Status.{
  finished, failed, Mode, subscribe, blocklist, Status, set_status, increment_import_count,
  set_pending, increment_failed, ImportNotif, notif,
}

abbrev pub commit_batch_size : ℕ
commit_batch_size = 10000

abbrev pub progress_step : ℕ
progress_step = 250

-- batchLimit, with firstBatchSizes = 1000, 3000.
unfoldable pub batch_limit : ℕ → ℕ
batch_limit zero = 1000
batch_limit (suc zero) = 3000
batch_limit (suc (suc n)) = commit_batch_size

-- One executed statement, with what it is given from the row and from the session.
pub data Write : Type 0 where
  upsert : SubReq → List ℕ → SubStatus → Bool → Bool → ℕ → Write
  block : SubReq → ℕ → Write

unfoldable pub write_of : SessionOpt → SubReq → Write
write_of opt sub = elim opt.mode [
  | subscribe ↦
      upsert sub opt.list_ids opt.sub_status opt.overwrite_user_info opt.overwrite_sub_status
        opt.tenant_id
  | blocklist ↦ block sub opt.tenant_id
]

-- A *sql.Tx. After a rollback every Commit returns sql.ErrTxDone.
pub data Tx : Type 0 where
  open_tx : List Write → Tx
  done : Tx

abbrev pub push_write : Write → Tx → Tx
push_write w (open_tx ws) = open_tx (ws ++ (w ∷ []))
push_write w done = done

-- tx.Commit: the writes that become permanent, or an error.
abbrev pub commit : Bool → Tx → Option (List Write)
commit ok done = none
commit true (open_tx ws) = some ws
commit false (open_tx ws) = none

-- The answers of db.Begin, uuid.NewV4, the insert (`none` is an error, `some` holds `inserted`)
-- and tx.Commit while one row is processed.
pub record RowAnswers : Type 0 where
  pub begin_ok : Bool
  pub uuid_ok : Bool
  pub exec : Option Bool
  pub commit_ok : Bool

-- What outlives the session: the status, the committed transactions and the UpdateListDateStmt
-- calls, newest first, and the notifications, newest first.
pub record World : Type 0 where
  pub status : Status
  pub commits : List (List Write)
  pub list_dates : List (List ℕ)
  pub notifs : List ImportNotif

-- Start's variables. `total`, which is only logged, is left out.
pub record Loop : Type 0 where
  pub world : World
  pub tx : Tx
  pub cur : ℕ
  pub added : ℕ
  pub batch : ℕ

abbrev pub on_status : (Status → Status) → World → World
on_status f w = record w { status = f w.status }

pub data Turn : Type 0 where
  next : Loop → Turn
  stop : Loop → Turn

-- The commit of a full batch. A failure is counted and the loop goes on.
unfoldable pub commit_batch : Bool → Loop → Loop
unfolding set_pending increment_import_count increment_failed
commit_batch ok s =
    let w : World = elim (commit ok s.tx) [
      | none ↦ on_status (increment_failed s.cur) s.world
      | some ws ↦ record (on_status (increment_import_count s.cur s.added) s.world) {
        commits = ws ∷ s.world.commits;
      }
    ] in
    record s {
      world = on_status (set_pending 0) w;
      tx = done;
      cur = 0;
      added = 0;
      batch = s.batch + 1;
    }

-- `inserted` is scanned in subscribe mode only.
abbrev pub count_added : Mode → Bool → ℕ → ℕ
count_added subscribe true n = n + 1
count_added subscribe false n = n
count_added blocklist inserted n = n

-- A row that the transaction has taken.
unfoldable pub add_write : SessionOpt → SubReq → Bool → Loop → Loop
unfolding set_pending
add_write opt sub inserted s =
    let cur = s.cur + 1 in
    record s {
      world = on_status (λ st. if cur % progress_step == 0 then set_pending cur st else st) s.world;
      tx = push_write (write_of opt sub) s.tx;
      cur = cur;
      added = count_added opt.mode inserted s.added;
    }

-- The batch is committed when its size is met.
unfoldable pub inserted_row : SessionOpt → SubReq → Bool → Bool → Loop → Loop
inserted_row opt sub inserted commit_ok s =
    let s' = add_write opt sub inserted s in
    if s'.cur == batch_limit s'.batch then commit_batch commit_ok s' else s'

-- The row's statements from the UUID on, inside a transaction.
unfoldable pub insert_row : SessionOpt → SubReq → RowAnswers → Loop → Turn
unfolding increment_failed
insert_row opt sub a s =
    if a.uuid_ok
    then elim a.exec [
      | none ↦ stop (record s { tx = done; world = on_status (increment_failed 1) s.world })
      | some inserted ↦ next (inserted_row opt sub inserted a.commit_ok s)
    ]
    else stop (record s { tx = done })

-- One pass of `for sub := range s.subQueue`.
unfoldable pub process_row : SessionOpt → SubReq → RowAnswers → Loop → Turn
unfolding insert_row
process_row opt sub a s =
    if s.cur == 0
    then (if a.begin_ok then insert_row opt sub a (record s { tx = open_tx [] }) else next s)
    else insert_row opt sub a s

-- What `break` leaves in the queue goes with the result.
abbrev pub proceed :
    Turn
    → List (SubReq × RowAnswers)
    → (Loop → Loop × List (SubReq × RowAnswers))
    → Loop × List (SubReq × RowAnswers)
proceed (next s) rest more = more s
proceed (stop s) rest more = (s, rest)

-- The loop: its last state, and the rows that it leaves in the queue when it breaks.
unfoldable pub process_queue :
    SessionOpt → List (SubReq × RowAnswers) → Loop → Loop × List (SubReq × RowAnswers)
process_queue opt [] s = (s, [])
process_queue opt ((sub, a) ∷ rest) s =
    proceed (process_row opt sub a s) rest (process_queue opt rest)

-- The end of a session that is not failed: the status, the lists' dates and the notification.
unfoldable pub finish_ok : SessionOpt → World → World
unfolding set_status notif
finish_ok opt w =
    let st = set_status finished w.status in
    record w {
      status = st;
      list_dates = opt.list_ids ∷ w.list_dates;
      notifs = notif finished st ∷ w.notifs;
    }

unfoldable pub finish_failed : ℕ → World → World
unfolding set_status notif set_pending increment_failed
finish_failed cur w =
    let st = set_status failed (set_pending 0 (increment_failed cur w.status)) in
    record w { status = st; notifs = notif failed st ∷ w.notifs }

-- What follows the loop: the last commit, if rows are left.
unfoldable pub finish : SessionOpt → Bool → Loop → World
unfolding finish_ok finish_failed set_pending increment_import_count
finish opt commit_ok s =
    if s.cur == 0 then finish_ok opt s.world else elim (commit commit_ok s.tx) [
      | none ↦ finish_failed s.cur s.world
      | some ws ↦
          finish_ok opt
            (record (on_status (λ st. set_pending 0 (increment_import_count s.cur s.added st))
              s.world) { commits = ws ∷ s.world.commits })
    ]

unfoldable pub first_loop : World → Loop
first_loop w = record { world = w; tx = done; cur = 0; added = 0; batch = 0 }

-- Session.Start, with the answer to its last commit.
unfoldable pub start :
    SessionOpt → List (SubReq × RowAnswers) → Bool → World → World × List (SubReq × RowAnswers)
unfolding process_queue finish first_loop
start opt queue commit_ok w =
    let (s, rest) = process_queue opt queue (first_loop w) in (finish opt commit_ok s, rest)
