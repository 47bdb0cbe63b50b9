-- ===== src/Importer/Load/Failure.antt =====
-- LoadCSV on a file that goes bad partway.
use listnun.Prelude.{
  ℕ, ◌+◌, ◌≤◌, ◌≡◌, ◌∙◌, refl, true, false, some, List, [], ◌∷◌, ◌++◌, Text, arith, length, All,
}
use listnun.Importer.Status.{Status, failed, is_done}
use listnun.Importer.Types.{Std}
use listnun.Importer.Columns.{ColumnMap, choose_column_map}
use listnun.Importer.Columns.Fits.{Fits, HasEmail, choose_column_map-Fits}
use listnun.Importer.Load.{
  Record, fields, malformed, unreadable, count_records, count_csv_rows, Env, Load, LoadEnd,
  read_failed, Pass, go_on, halt, load_record, proceed, load_rows, end_load, load_body, load_header,
  load_csv, first_load, set_total,
}
use listnun.Importer.Load.Counts.{IsFields, Grew, held, load_record-Grew}

abbrev Broke : ℕ → Status → Load × LoadEnd × ℕ → Type 0
Broke n st r = (held r.0 ≡ n) × (r.1 ≡ read_failed) × (r.0.status.total ≡ st.total)

load_rows-Broke :
    (env : Env) (m : ColumnMap) (width i : ℕ) (good rest : List Record) (s : Load)
    → Fits m
    → HasEmail m
    → ((i : ℕ) → env.signal i ≡ false)
    → All (IsFields env.std m) good
    → Broke (held s + length good) s.status (load_rows env m width i (good ++ (malformed ∷ rest)) s)
unfolding load_rows load_record
load_rows-Broke env m width i [] rest s f h quiet a =
    rw (quiet i, load_rows) (omega arith, refl, refl)
load_rows-Broke env m width i (r ∷ good) rest s f h quiet a =
    rw (quiet i, load_rows)
      (go (load_record env m width i r s) (load_record-Grew env m width i r s f h a.0)
        (λ s'. load_rows-Broke env m width (i + 1) good rest s' f h quiet a.1))
  where
    more : Load → Load × LoadEnd × ℕ
    more = load_rows env m width (i + 1) (good ++ (malformed ∷ rest))

    go :
        (t : Pass)
        → Grew (held s + 1) s.status t
        → ((s' : Load) → Broke (held s' + length good) s'.status (more s'))
        → Broke (held s + length (r ∷ good)) s.status (proceed t more i)
    go (go_on s') g ih = ground (arith, ih s')
    go (halt end s') g ih = absurd g

count_records-good :
    (std : Std) (m : ColumnMap) (good rest : List Record)
    → All (IsFields std m) good
    → count_records (good ++ (malformed ∷ rest)) ≡ length good
unfolding count_records
count_records-good std m [] rest a = refl
count_records-good std m (fields cells ∷ good) rest a =
    omega (arith, count_records-good std m good rest a.1)
count_records-good std m (malformed ∷ good) rest a = absurd a.0
count_records-good std m (unreadable ∷ good) rest a = absurd a.0

count_csv_rows-good :
    (std : Std) (m : ColumnMap) (hdr : List Text) (good rest : List Record)
    → All (IsFields std m) good
    → count_csv_rows (fields hdr ∷ good ++ (malformed ∷ rest)) ≡ length good
unfolding count_csv_rows
count_csv_rows-good std m hdr good rest a = omega (arith, count_records-good std m good rest a)

-- For an import that is not done, in a file that names an email column, with no stop requested: a
-- record that does not parse, behind
-- `good` records that do and have no null in a column of JSON beside columns of single attributes,
-- ends the load. The import is failed, an error is returned, the total is the number of records before it, at most these are sent or
-- skipped, and the session's queue is never closed.
pub load_csv_malformed :
    (env : Env) (hdr : List Text) (good rest : List Record) (st : Status) (m : ColumnMap)
    → is_done st ≡ false
    → choose_column_map env.std env.opt.columns hdr ≡ some m
    → ((i : ℕ) → env.signal i ≡ false)
    → All (IsFields env.std m) good
    → let r = load_csv env (some (fields hdr ∷ good ++ (malformed ∷ rest))) st in
      (r.status.status ≡ failed)
      × (r.returned_error ≡ true)
      × (r.status.total ≡ length good)
      × (length r.sent + r.status.skipped ≤ st.skipped + length good)
      × (r.closed ≡ false)
unfolding load_csv load_body end_load
load_csv_malformed env hdr good rest st m working chosen quiet a =
    let s = first_load (set_total (count_csv_rows (fields hdr ∷ good ++ (malformed ∷ rest))) st) in
    let (f, h) = choose_column_map-Fits env.std env.opt.columns hdr m chosen in
    let (n, e, t) = load_rows-Broke env m (length hdr) 1 good rest s f h quiet a in
    rw (working, chosen, load_header)
      (rw (e, end_load, load_body)
        (refl, refl, t ∙ count_csv_rows-good env.std m hdr good rest a, omega (arith, n), refl))
