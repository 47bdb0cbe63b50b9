-- ===== src/Importer/Check/Agreement.antt =====
-- Check against LoadCSV: where the two agree, and where they do not.
use listnun.Prelude.{
  ℕ, ◌+◌, ◌≡◌, ◌≢◌, refl, sym, ap, ◌∙◌, true, false, some, List, [], ◌∷◌, ◌++◌, Text, arith, ◌==◌,
  length, contains, if◌then◌else◌, Bool-cases, All, All-imp, ◌⊎◌, inl, inr, ==_iff,
}
use mathlib.Core.Path.{subst}
use listnun.Importer.Status.{Status, is_done, columns}
use listnun.Importer.Types.{Std, SubReq}
use listnun.Importer.Columns.{ColumnMap, choose_column_map}
use listnun.Importer.Columns.Fits.{Fits, HasEmail, choose_column_map-Fits}
use listnun.Importer.Rows.{RowResult, accepted, rejected, panics, read_row}
use listnun.Importer.Rows.Totals.{Ends, GivesMap, read_row-Ends}
use listnun.Importer.Load.{
  Record, fields, malformed, unreadable, Env, Load, Pass, go_on, halt, load_result, load_record,
  load_rows, proceed, skip_row, buffer_row, load_csv, LoadEnd, reached_eof, load_body, end_load,
  load_header, first_load, set_total, count_csv_rows, Loaded,
}
use listnun.Importer.Load.Counts.{flush_window_lem, IsFields, load_csv_counts}
use listnun.Importer.Check.{
  CheckResult, Checker, CheckEnv, Verdict, fine, error, and_then, count_row, look_up, look_up_batch,
  add_valid, check_result, check_record, check_rows, check_header, check, existing_batch, no_checks,
}

-- A record of the header's width that encoding/csv can parse, whose cell with JSON is not null when
-- attribute columns are mapped.
abbrev pub IsRegular : Std → ColumnMap → ℕ → Record → Type 0
IsRegular std m width (fields cells) = (length cells ≡ width) × GivesMap std m cells
IsRegular std m width malformed = ⊥
IsRegular std m width unreadable = ⊥

-- The check has found the problems that the load has found.
abbrev pub SameProblems : CheckResult → Status → Type 0
SameProblems out st = (out.num_problems ≡ st.skipped) × (out.problems ≡ st.problems)

-- The verdict goes on, with the rows and the problems that `out` has.
abbrev pub Keeps : CheckResult → Verdict → Type 0
Keeps out (fine c) =
    (c.out.rows ≡ out.rows)
    × (c.out.num_problems ≡ out.num_problems)
    × (c.out.problems ≡ out.problems)
Keeps out (error c) = ⊥

-- `existing` never fails.
abbrev pub Answers : CheckEnv → Type 0
Answers env = (l : List Text) → (n : ℕ) × (env.existing l ≡ some n)

look_up_batch-Keeps :
    (env : CheckEnv) (batch : List Text) (c : Checker)
    → Answers env
    → Keeps c.out (look_up_batch env batch c)
look_up_batch-Keeps env [] c h = (refl, refl, refl)
look_up_batch-Keeps env (e ∷ batch) c h = rw ((h (e ∷ batch)).1) (refl, refl, refl)

add_valid-Keeps :
    (env : CheckEnv) (email : Text) (c : Checker)
    → Answers env
    → Keeps c.out (add_valid env email c)
unfolding add_valid look_up
add_valid-Keeps env email c h =
    elim (Bool-cases (length (c.batch ++ (email ∷ [])) == existing_batch)) [
      | inl e ↦ rw e (look_up_batch-Keeps env (c.batch ++ (email ∷ [])) _ h)
      | inr e ↦ rw e (refl, refl, refl)
    ]

buffer_row-status : (env : Env) (sub : SubReq) (s : Load) → (buffer_row env sub s).status ≡ s.status
unfolding buffer_row
buffer_row-status env sub s =
    ground (arith, flush_window_lem env (record s { window = s.window ++ (sub ∷ []) }))

-- The check and the load agree after one step of each, which the check counts as one row more.
abbrev Both : ℕ → Verdict → Pass → Type 0
Both rows (fine c) (go_on s) = SameProblems c.out s.status × (c.out.rows ≡ rows)
Both rows (fine c) (halt end s) = ⊥
Both rows (error c) p = ⊥

Both-Keeps :
    (out : CheckResult) (v : Verdict) (s : Load)
    → Keeps out v
    → SameProblems out s.status
    → Both out.rows v (go_on s)
Both-Keeps out (fine c) s k h = ground arith
Both-Keeps out (error c) s k h = k

check_result-Both :
    (cenv : CheckEnv) (env : Env) (line : ℕ) (r : RowResult) (c : Checker) (s : Load)
    → Answers cenv
    → Ends line r
    → SameProblems c.out s.status
    → Both c.out.rows (check_result cenv r c) (load_result env r s)
unfolding check_result load_result
check_result-Both cenv env line (accepted sub) c s h e p =
    let same : SameProblems c.out (buffer_row env sub s).status =
      rw (buffer_row-status env sub s) p in
    elim (Bool-cases (contains c.seen sub.email)) [
      | inl old ↦ rw old (same, refl)
      | inr new ↦ rw new (
          Both-Keeps c.out (add_valid cenv sub.email c) (buffer_row env sub s)
            (add_valid-Keeps cenv sub.email c h) same)
    ]
check_result-Both cenv env line (rejected q) c s h e (n, l) = rw (n, l) ((refl, refl), refl)
check_result-Both cenv env line panics c s h e p = e

check_record-Both :
    (cenv : CheckEnv) (env : Env) (m : ColumnMap) (width line : ℕ) (r : Record) (c : Checker)
    (s : Load)
    → Answers cenv
    → (cenv.std ≡ env.std) × (cenv.rules ≡ env.rules)
    → Fits m
    → HasEmail m
    → IsRegular env.std m width r
    → SameProblems c.out s.status
    → Both (c.out.rows + 1) (check_record cenv m line r c) (load_record env m width line r s)
unfolding check_record load_record
check_record-Both cenv env m width line (fields cells) c s h (e, e') f g (w, given) p =
    rw ((==_iff (length cells) width).1 w, e, e')
      (check_result-Both cenv env line (read_row env.std env.rules cells m line) (count_row c) s h
        (read_row-Ends env.std env.rules cells m line f g given) p)
check_record-Both cenv env m width line malformed c s h e f g w p = absurd w
check_record-Both cenv env m width line unreadable c s h e f g w p = absurd w

abbrev BothEnd : ℕ → Verdict → Load × LoadEnd × ℕ → Type 0
BothEnd rows (fine c) r = SameProblems c.out r.0.status × (c.out.rows ≡ rows) × (r.1 ≡ reached_eof)
BothEnd rows (error c) r = ⊥

look_up-BothEnd :
    (v : Verdict) (c : Checker) (s : Load) (i : ℕ)
    → Keeps c.out v
    → SameProblems c.out s.status
    → BothEnd (c.out.rows + 0) v (s, reached_eof, i)
look_up-BothEnd (fine c') c s i k p = ground arith
look_up-BothEnd (error c') c s i k p = k

check_rows-BothEnd :
    (cenv : CheckEnv) (env : Env) (m : ColumnMap) (width line : ℕ) (rows : List Record)
    (c : Checker) (s : Load)
    → Answers cenv
    → (cenv.std ≡ env.std) × (cenv.rules ≡ env.rules)
    → Fits m
    → HasEmail m
    → ((i : ℕ) → env.signal i ≡ false)
    → All (IsRegular env.std m width) rows
    → SameProblems c.out s.status
    → BothEnd
        (c.out.rows + length rows)
        (check_rows cenv m line rows c)
        (load_rows env m width line rows s)
unfolding check_rows load_rows look_up
check_rows-BothEnd cenv env m width line [] c s h e f g quiet a p =
    rw (quiet line)
      (look_up-BothEnd (look_up cenv c) c s line (look_up_batch-Keeps cenv c.batch c h) p)
check_rows-BothEnd cenv env m width line (r ∷ rest) c s h e f g quiet a p =
    rw (quiet line, load_rows)
      (go (check_record cenv m line r c) (load_record env m width line r s)
        (check_record-Both cenv env m width line r c s h e f g a.0 p)
        (λ c' s' p'.
          check_rows-BothEnd cenv env m width (line + 1) rest c' s' h e f g quiet a.1 p'))
  where
    checks : Checker → Verdict
    checks = check_rows cenv m (line + 1) rest

    loads : Load → Load × LoadEnd × ℕ
    loads = load_rows env m width (line + 1) rest

    go :
        (v : Verdict) (t : Pass)
        → Both (c.out.rows + 1) v t
        → ((c' : Checker) (s' : Load)
            → SameProblems c'.out s'.status
            → BothEnd (c'.out.rows + length rest) (checks c') (loads s'))
        → BothEnd (c.out.rows + length (r ∷ rest)) (and_then v checks) (proceed t loads line)
    go (fine c') (go_on s') (p', n) ih =
        subst (λ k. BothEnd k (checks c') (loads s')) (omega arith) (ih c' s' p')
    go (fine c') (halt end s') b ih = absurd b
    go (error c') t b ih = absurd b

IsFields-of_IsRegular :
    (std : Std) (m : ColumnMap) (width : ℕ) (r : Record)
    → IsRegular std m width r
    → IsFields std m r
IsFields-of_IsRegular std m width (fields cells) a = a.1
IsFields-of_IsRegular std m width malformed a = a
IsFields-of_IsRegular std m width unreadable a = a

-- The problems that LoadCSV reports, from those of its loop.
load_body-problems :
    (env : Env) (m : ColumnMap) (hdr : List Text) (rows : List Record) (s : Load)
    → (load_rows env m (length hdr) 1 rows s).1 ≡ reached_eof
    → let st = (load_rows env m (length hdr) 1 rows s).0.status in
      ((load_body env m hdr rows s).status.skipped ≡ st.skipped)
      × ((load_body env m hdr rows s).status.problems ≡ st.problems)
unfolding load_body end_load
load_body-problems env m hdr rows s e =
    rw (e, end_load)
      (ground (arith, flush_window_lem env (load_rows env m (length hdr) 1 rows s).0))

-- The verdict is a result that the load of the same file bears out.
abbrev pub Agrees : Verdict → Status → Type 0
Agrees (fine c) st = SameProblems c.out st × (c.out.rows ≡ st.total)
Agrees (error c) st = ⊥

load_csv_body :
    (env : Env) (hdr : List Text) (rows : List Record) (st : Status) (m : ColumnMap)
    → choose_column_map env.std env.opt.columns hdr ≡ some m
    → is_done st ≡ false
    → load_csv env (some (fields hdr ∷ rows)) st
      ≡ load_body env m hdr rows (first_load (set_total (count_csv_rows (fields hdr ∷ rows)) st))
unfolding load_csv
load_csv_body env hdr rows st m chosen working = rw (working, chosen, load_header)

check_body :
    (cenv : CheckEnv) (env : Env) (hdr : List Text) (rows : List Record) (m : ColumnMap)
    → cenv.std ≡ env.std
    → choose_column_map env.std env.opt.columns hdr ≡ some m
    → check cenv env.opt.columns (some (fields hdr ∷ rows)) ≡ check_rows cenv m 1 rows no_checks
unfolding check
check_body cenv env hdr rows m e chosen =
    rw (ap (λ (d : Std). choose_column_map d env.opt.columns hdr) e ∙ chosen, check_header)

Agrees-of_BothEnd :
    (v : Verdict) (n : ℕ) (st : Status) (r : Load × LoadEnd × ℕ)
    → BothEnd n v r
    → (r.1 ≡ reached_eof → (st.skipped ≡ r.0.status.skipped) × (st.problems ≡ r.0.status.problems))
    → st.total ≡ n
    → Agrees v st
Agrees-of_BothEnd (fine c) n st r (p, k, e) same t = ground (arith, same e)
Agrees-of_BothEnd (error c) n st r b same t = b

-- For a file that names an email column, where every record parses, has as many cells as the header
-- and no null in a column of JSON beside columns of single attributes, no stop is requested and the
-- lookups answer: Check with an import's columns, rules and file ends without an error and gives the
-- same problem rows in the same order, the same count of them and the same number of rows as LoadCSV
-- does for a new import.
pub check-Agrees :
    (cenv : CheckEnv) (env : Env) (hdr : List Text) (rows : List Record) (st : Status)
    (m : ColumnMap)
    → Answers cenv
    → (cenv.std ≡ env.std) × (cenv.rules ≡ env.rules)
    → choose_column_map env.std env.opt.columns hdr ≡ some m
    → ((i : ℕ) → env.signal i ≡ false)
    → is_done st ≡ false
    → (st.skipped ≡ 0) × (st.problems ≡ [])
    → All (IsRegular env.std m (length hdr)) rows
    → Agrees
        (check cenv env.opt.columns (some (fields hdr ∷ rows)))
        (load_csv env (some (fields hdr ∷ rows)) st).status
check-Agrees cenv env hdr rows st m h e chosen quiet working new a =
    let (f, g) = choose_column_map-Fits env.std env.opt.columns hdr m chosen in
    let s = first_load (set_total (count_csv_rows (fields hdr ∷ rows)) st) in
    let both =
      check_rows-BothEnd cenv env m (length hdr) 1 rows no_checks s h e f g quiet a
        (rw (new.0, new.1) (refl, refl)) in
    let counts = load_csv_counts env hdr rows st m working chosen quiet (
      All-imp (IsRegular env.std m (length hdr)) (IsFields env.std m)
        (IsFields-of_IsRegular env.std m (length hdr)) rows a) in
    let loaded = load_csv_body env hdr rows st m chosen working in
    rw (check_body cenv env hdr rows m e.0 chosen, loaded)
      (Agrees-of_BothEnd (check_rows cenv m 1 rows no_checks) (0 + length rows) _ _ both
        (load_body-problems env m hdr rows s)
        (ap (λ (r : Loaded). r.status.total) (sym loaded) ∙ counts.0 ∙ omega arith))

-- A row of another width than the header's that holds every mapped column and a good address is
-- refused by LoadCSV for its columns, and passes the check without a problem.
check_ignores_width :
    (cenv : CheckEnv) (env : Env) (m : ColumnMap) (width line : ℕ) (cells : List Text)
    (sub : SubReq) (c : Checker) (s : Load)
    → Answers cenv
    → read_row cenv.std cenv.rules cells m line ≡ accepted sub
    → length cells ≢ width
    → Keeps (count_row c).out (check_record cenv m line (fields cells) c)
      × (load_record env m width line (fields cells) s
          ≡ go_on (skip_row (record { row = line + 1; value = []; reason = columns }) s))
unfolding check_record check_result load_record count_row
check_ignores_width cenv env m width line cells sub c s h e w =
    let refused : (length cells == width) ≡ false = ground arith in
    (rw (e, check_result) (go (Bool-cases (contains c.seen sub.email))), rw refused)
  where
    go :
        ((contains c.seen sub.email ≡ true) ⊎ (contains c.seen sub.email ≡ false))
        → Keeps (count_row c).out (
            if contains c.seen sub.email
            then fine (count_row c)
            else add_valid cenv sub.email (count_row c))
    go (inl old) = rw old (refl, refl, refl)
    go (inr new) = rw new (add_valid-Keeps cenv sub.email (count_row c) h)
