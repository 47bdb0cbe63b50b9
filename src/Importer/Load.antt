-- ===== src/Importer/Load.antt =====
-- Session.LoadCSV, countCSVRows and flushWindow of internal/subimporter/importer.go.
-- A CSV file is the list of what encoding/csv reads from it; `signal` tells at which passes of the
-- loop a stop request waits in the importer's channel. The sends on the session's queue are the
-- list `sent`; a full channel delays a send and does not change the list.
pub mod Counts
pub mod Scrub
pub mod Failure
use listnun.Prelude.{
  ℕ, ◌+◌, ◌-◌, Bool, true, false, ◌&&◌, Option, none, some, List, [], ◌∷◌, ◌++◌, Text, leb, ◌==◌,
  length, map, if◌then◌else◌,
}
use listnun.Importer.Status.{
  failed, Mode, subscribe, blocklist, Status, add_problem, set_status, is_done, Problem, columns,
}
use listnun.Importer.Types.{Std, SubReq, SessionOpt}
use listnun.Importer.Domains.{Rules}
use listnun.Importer.Columns.{ColumnMap, choose_column_map}
use listnun.Importer.Rows.{RowResult, accepted, rejected, panics, read_row}
use listnun.Importer.Session.{commit_batch_size}

-- One Read of csv.Reader with FieldsPerRecord = -1: a record, a *csv.ParseError, or another error.
pub data Record : Type 0 where
  fields : List Text → Record
  malformed : Record
  unreadable : Record

-- countCSVRows, for a file that opens: the records up to the first error, less the header.
unfoldable pub count_records : List Record → ℕ
count_records [] = 0
count_records (fields cells ∷ rest) = count_records rest + 1
count_records (malformed ∷ rest) = 0
count_records (unreadable ∷ rest) = 0

unfoldable pub count_csv_rows : List Record → ℕ
unfolding count_records
count_csv_rows file = count_records file - 1

-- What a session reads with. `scrub_wired` tells that ScrubSubmitFunc is set.
pub record Env : Type 0 where
  pub std : Std
  pub rules : Rules
  pub opt : SessionOpt
  pub scrub_wired : Bool
  pub signal : ℕ → Bool

-- The window holds rows that are not sent yet; `submitted` is what Scrub was sent, a list of emails
-- for each call.
pub record Load : Type 0 where
  pub status : Status
  pub sent : List SubReq
  pub submitted : List (List Text)
  pub window : List SubReq

abbrev pub is_subscribe : Mode → Bool
is_subscribe subscribe = true
is_subscribe blocklist = false

abbrev pub emails : List SubReq → List Text
emails = map (λ sub. sub.email)

-- What flushWindow submits for a window that is not empty.
abbrev pub submission : Bool → List SubReq → List (List Text)
submission true window = emails window ∷ []
submission false window = []

abbrev pub submits : Env → Bool
submits env = env.scrub_wired && is_subscribe env.opt.mode

unfoldable pub flush_rows : Env → List SubReq → Load → Load
flush_rows env [] s = s
flush_rows env (sub ∷ window) s = record s {
  sent = s.sent ++ (sub ∷ window);
  submitted = s.submitted ++ submission (submits env) (sub ∷ window);
  window = [];
}

-- flushWindow, and the reset of the window.
unfoldable pub flush_window : Env → Load → Load
unfolding flush_rows
flush_window env s = flush_rows env s.window s

pub data LoadEnd : Type 0 where
  stopped reached_eof read_failed panicked : LoadEnd

-- How a pass of the loop ends.
pub data Pass : Type 0 where
  go_on : Load → Pass
  halt : LoadEnd → Load → Pass

-- A row that passed its checks.
unfoldable pub buffer_row : Env → SubReq → Load → Load
unfolding flush_window
buffer_row env sub s =
    let s' : Load = record s { window = s.window ++ (sub ∷ []) } in
    if leb commit_batch_size (length s'.window) then flush_window env s' else s'

abbrev pub skip_row : Problem → Load → Load
skip_row p s = record s { status = add_problem p s.status }

-- What the loop makes of readRow's result.
unfoldable pub load_result : Env → RowResult → Load → Pass
unfolding add_problem
load_result env (accepted sub) s = go_on (buffer_row env sub s)
load_result env (rejected p) s = go_on (skip_row p s)
load_result env panics s = halt panicked s

-- The pass that reads a record; with FieldsPerRecord = 0 a record whose width is not the header's
-- is csv.ErrFieldCount.
unfoldable pub load_record : Env → ColumnMap → ℕ → ℕ → Record → Load → Pass
unfolding load_result
load_record env m width i (fields cells) s =
    if length cells == width
    then load_result env (read_row env.std env.rules cells m i) s
    else go_on (skip_row (record { row = i + 1; value = []; reason = columns }) s)
load_record env m width i malformed s = halt read_failed s
load_record env m width i unreadable s = halt read_failed s

abbrev pub proceed : Pass → (Load → Load × LoadEnd × ℕ) → ℕ → Load × LoadEnd × ℕ
proceed (go_on s) more i = more s
proceed (halt end s) more i = (s, end, i)

-- The loop from its pass `i` on: the state, how it ended and in which pass.
unfoldable pub load_rows : Env → ColumnMap → ℕ → ℕ → List Record → Load → Load × LoadEnd × ℕ
load_rows env m width i [] s =
    if env.signal i then (flush_window env s, stopped, i) else (s, reached_eof, i)
load_rows env m width i (r ∷ rest) s = elim (env.signal i) [
  | true ↦ (flush_window env s, stopped, i)
  | false ↦ proceed (load_record env m width i r s) (load_rows env m width (i + 1) rest) i
]

-- What LoadCSV leaves: `closed` is the session's queue, `returned_error` its result.
pub record Loaded : Type 0 where
  pub status : Status
  pub sent : List SubReq
  pub submitted : List (List Text)
  pub closed : Bool
  pub returned_error : Bool

abbrev pub set_total : ℕ → Status → Status
set_total n s = record s { total = n }

-- The deferred setStatus(StatusFailed).
abbrev pub give_up : Load → Loaded
give_up s = record {
  status = set_status failed s.status;
  sent = s.sent;
  submitted = s.submitted;
  closed = false;
  returned_error = true;
}

abbrev pub close_queue : Load → Loaded
close_queue s = record {
  status = s.status;
  sent = s.sent;
  submitted = s.submitted;
  closed = true;
  returned_error = false;
}

-- What follows the loop.
unfoldable pub end_load : Env → Load → LoadEnd → ℕ → Loaded
unfolding flush_window set_status
end_load env s stopped i = close_queue s
end_load env s reached_eof i =
    let s' = flush_window env s in close_queue (record s' { status = set_total (i - 1) s'.status })
end_load env s read_failed i = give_up s
end_load env s panicked i = give_up s

unfoldable pub load_body : Env → ColumnMap → List Text → List Record → Load → Loaded
unfolding load_rows end_load
load_body env m hdr rows s =
    let (s', end, i) = load_rows env m (length hdr) 1 rows s in end_load env s' end i

-- The header and the column map.
unfoldable pub load_header : Env → List Record → Load → Loaded
unfolding load_body set_status
load_header env [] s = give_up s
load_header env (malformed ∷ rest) s = give_up s
load_header env (unreadable ∷ rest) s = give_up s
load_header env (fields hdr ∷ rest) s = elim (choose_column_map env.std env.opt.columns hdr) [
  | none ↦ give_up s
  | some m ↦ load_body env m hdr rest s
]

abbrev pub first_load : Status → Load
first_load st = record { status = st; sent = []; submitted = []; window = [] }

-- LoadCSV; `none` is a file that does not open.
unfoldable pub load_csv : Env → Option (List Record) → Status → Loaded
unfolding load_header set_status count_csv_rows is_done
load_csv env file st =
    if is_done st
    then record { status = st; sent = []; submitted = []; closed = false; returned_error = true }
    else elim file [
      | none ↦ give_up (first_load st)
      | some records ↦ load_header env records (first_load (set_total (count_csv_rows records) st))
    ]
