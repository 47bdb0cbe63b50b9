-- ===== src/Importer/Load/Counts.antt =====
-- LoadCSV: a file that reads to its end is counted exactly.
use listnun.Prelude.{
  ℕ, ◌+◌, ◌≡◌, refl, sym, ap, true, false, some, List, [], ◌∷◌, ◌++◌, Text, arith, length,
  length-append, All, ◌==◌, Bool-cases, inl, inr,
}
use mathlib.Core.List.{append-nil}
use listnun.Importer.Status.{Status, add_problem, is_done}
use listnun.Importer.Types.{Std, SubReq}
use listnun.Importer.Columns.{ColumnMap, choose_column_map}
use listnun.Importer.Columns.Fits.{Fits, HasEmail, choose_column_map-Fits}
use listnun.Importer.Rows.{RowResult, accepted, rejected, panics}
use listnun.Importer.Rows.Totals.{Ends, GivesMap, read_row-Ends}
use listnun.Importer.Load.{
  Record, fields, malformed, unreadable, count_records, count_csv_rows, Env, Load, flush_rows,
  flush_window, LoadEnd, reached_eof, Pass, go_on, halt, buffer_row, load_result, load_record,
  proceed, load_rows, end_load, load_body, load_header, load_csv, first_load, set_total,
}

-- The rows that were sent, wait in the window or were skipped.
abbrev pub held : Load → ℕ
held s = length s.sent + length s.window + s.status.skipped

-- A flush moves the window to the queue and leaves the status.
pub flush_window_lem :
    (env : Env) (s : Load)
    → ((flush_window env s).sent ≡ s.sent ++ s.window)
      × ((flush_window env s).window ≡ [])
      × ((flush_window env s).status ≡ s.status)
unfolding flush_window flush_rows
flush_window_lem env s = go s.window refl
  where
    go :
        (w : List SubReq)
        → s.window ≡ w
        → ((flush_rows env w s).sent ≡ s.sent ++ w)
          × ((flush_rows env w s).window ≡ [])
          × ((flush_rows env w s).status ≡ s.status)
    go [] e = (sym (append-nil s.sent), e, refl)
    go (sub ∷ w) e = (refl, refl, refl)

held-flush_window : (env : Env) (s : Load) → held (flush_window env s) ≡ held s
held-flush_window env s = ground (arith, flush_window_lem env s, length-append s.sent s.window)

-- The pass goes on, holding `n` rows, with the phase and the total of `st`.
abbrev pub Grew : ℕ → Status → Pass → Type 0
Grew n st (go_on s) = (held s ≡ n) × (s.status.status ≡ st.status) × (s.status.total ≡ st.total)
Grew n st (halt end s) = ⊥

buffer_row-Grew :
    (env : Env) (sub : SubReq) (s : Load)
    → Grew (held s + 1) s.status (go_on (buffer_row env sub s))
unfolding buffer_row
buffer_row-Grew env sub s =
    let s' : Load = record s { window = s.window ++ (sub ∷ []) } in
    ground
      (arith, length-append s.window (sub ∷ []), held-flush_window env s', flush_window_lem env s')

load_result-Grew :
    (env : Env) (line : ℕ) (r : RowResult) (s : Load)
    → Ends line r
    → Grew (held s + 1) s.status (load_result env r s)
unfolding load_result
load_result-Grew env line (accepted sub) s h = buffer_row-Grew env sub s
load_result-Grew env line (rejected p) s h = ground arith
load_result-Grew env line panics s h = h

-- A record that encoding/csv can parse, of whatever width, whose cell with JSON is not null when
-- attribute columns are mapped.
abbrev pub IsFields : Std → ColumnMap → Record → Type 0
IsFields std m (fields cells) = GivesMap std m cells
IsFields std m malformed = ⊥
IsFields std m unreadable = ⊥

pub load_record-Grew :
    (env : Env) (m : ColumnMap) (width i : ℕ) (r : Record) (s : Load)
    → Fits m
    → HasEmail m
    → IsFields env.std m r
    → Grew (held s + 1) s.status (load_record env m width i r s)
unfolding load_record add_problem
load_record-Grew env m width i (fields cells) s f h a = elim (Bool-cases (length cells == width)) [
  | inl e ↦ rw e (load_result-Grew env i _ s (read_row-Ends env.std env.rules cells m i f h a))
  | inr e ↦ rw e (ground arith)
]
load_record-Grew env m width i malformed s f h a = absurd a
load_record-Grew env m width i unreadable s f h a = absurd a

abbrev Read : ℕ → ℕ → Status → Load × LoadEnd × ℕ → Type 0
Read n last st r =
    (held r.0 ≡ n) × (r.1 ≡ reached_eof) × (r.2 ≡ last) × (r.0.status.status ≡ st.status)

load_rows-Read :
    (env : Env) (m : ColumnMap) (width i : ℕ) (rows : List Record) (s : Load)
    → Fits m
    → HasEmail m
    → ((i : ℕ) → env.signal i ≡ false)
    → All (IsFields env.std m) rows
    → Read (held s + length rows) (i + length rows) s.status (load_rows env m width i rows s)
unfolding load_rows
load_rows-Read env m width i [] s f h quiet a = rw (quiet i) (omega arith, refl, omega arith, refl)
load_rows-Read env m width i (r ∷ rest) s f h quiet a =
    rw (quiet i, load_rows)
      (go (load_record env m width i r s) (load_record-Grew env m width i r s f h a.0)
        (λ s'. load_rows-Read env m width (i + 1) rest s' f h quiet a.1))
  where
    go :
        (t : Pass)
        → Grew (held s + 1) s.status t
        → ((s' : Load)
            → Read
                (held s' + length rest)
                (i + 1 + length rest)
                s'.status
                (load_rows env m width (i + 1) rest s'))
        → Read
            (held s + length (r ∷ rest))
            (i + length (r ∷ rest))
            s.status
            (proceed t (load_rows env m width (i + 1) rest) i)
    go (go_on s') g ih = ground (arith, ih s')
    go (halt end s') g ih = absurd g

count_records-IsFields :
    (std : Std) (m : ColumnMap) (rows : List Record)
    → All (IsFields std m) rows
    → count_records rows ≡ length rows
unfolding count_records
count_records-IsFields std m [] a = refl
count_records-IsFields std m (fields cells ∷ rest) a =
    omega (arith, count_records-IsFields std m rest a.1)
count_records-IsFields std m (malformed ∷ rest) a = absurd a.0
count_records-IsFields std m (unreadable ∷ rest) a = absurd a.0

count_csv_rows-IsFields :
    (std : Std) (m : ColumnMap) (hdr : List Text) (rows : List Record)
    → All (IsFields std m) rows
    → count_csv_rows (fields hdr ∷ rows) ≡ length rows
unfolding count_csv_rows
count_csv_rows-IsFields std m hdr rows a = omega (arith, count_records-IsFields std m rows a)

load_body-Read :
    (env : Env) (m : ColumnMap) (hdr : List Text) (rows : List Record) (s : Load)
    → Fits m
    → HasEmail m
    → ((i : ℕ) → env.signal i ≡ false)
    → All (IsFields env.std m) rows
    → s.window ≡ []
    → let r = load_body env m hdr rows s in
      (r.status.total ≡ length rows)
      × (length r.sent + r.status.skipped ≡ length s.sent + s.status.skipped + length rows)
      × (r.status.status ≡ s.status.status)
      × (r.closed ≡ true)
      × (r.returned_error ≡ false)
unfolding load_body end_load
load_body-Read env m hdr rows s f h quiet a w =
    let (n, e, last, phase) = load_rows-Read env m (length hdr) 1 rows s f h quiet a in
    let s' = (load_rows env m (length hdr) 1 rows s).0 in
    rw (e, end_load)
      (ground (arith, last, held-flush_window env s', flush_window_lem env s', ap length w))

-- For an import that is not done: a file whose records all parse, that names an email column and that
-- has no null in a column of JSON beside columns of single attributes is read to its end when no stop
-- is requested. The total is the number of data rows, which is also what countCSVRows had announced,
-- every row is either sent to the queue or counted as skipped, the import stays in its state, the
-- queue is closed and no error is returned.
pub load_csv_counts :
    (env : Env) (hdr : List Text) (rows : List Record) (st : Status) (m : ColumnMap)
    → is_done st ≡ false
    → choose_column_map env.std env.opt.columns hdr ≡ some m
    → ((i : ℕ) → env.signal i ≡ false)
    → All (IsFields env.std m) rows
    → let r = load_csv env (some (fields hdr ∷ rows)) st in
      (r.status.total ≡ length rows)
      × (count_csv_rows (fields hdr ∷ rows) ≡ length rows)
      × (length r.sent + r.status.skipped ≡ st.skipped + length rows)
      × (r.status.status ≡ st.status)
      × (r.closed ≡ true)
      × (r.returned_error ≡ false)
unfolding load_csv
load_csv_counts env hdr rows st m working chosen quiet a =
    let total = count_csv_rows (fields hdr ∷ rows) in
    let (f, h) = choose_column_map-Fits env.std env.opt.columns hdr m chosen in
    let (t, c, p, cl, er) =
      load_body-Read env m hdr rows (first_load (set_total total st)) f h quiet a refl in
    rw (working, chosen, load_header)
      (t, count_csv_rows-IsFields env.std m hdr rows a, omega (arith, c), p, cl, er)
