-- ===== src/Importer/Check.antt =====
-- Importer.Check of internal/subimporter/inspect.go: a dry run of an import. `existing` is the
-- caller's function that counts the subscribers among some addresses, `none` its error.
pub mod Agreement
pub mod Lookups
use listnun.Prelude.{
  ℕ, ◌+◌, Bool, true, false, Option, none, some, List, [], ◌∷◌, ◌++◌, Text, ltb, ◌==◌, length,
  contains, if◌then◌else◌,
}
use listnun.Importer.Status.{Problem, columns, max_problems}
use listnun.Importer.Types.{Std, SubReq, Column}
use listnun.Importer.Domains.{Rules}
use listnun.Importer.Columns.{ColumnMap, choose_column_map}
use listnun.Importer.Rows.{RowResult, accepted, rejected, panics, read_row}
use listnun.Importer.Load.{Record, fields, malformed, unreadable}

abbrev pub existing_batch : ℕ
existing_batch = 5000

pub record CheckResult : Type 0 where
  pub rows : ℕ
  pub valid : ℕ
  pub existing : ℕ
  pub num_problems : ℕ
  pub problems : List Problem

-- Check's variables; `looked_up` holds the batches that `existing` was asked about, oldest first.
pub record Checker : Type 0 where
  pub out : CheckResult
  pub seen : List Text
  pub batch : List Text
  pub looked_up : List (List Text)

pub record CheckEnv : Type 0 where
  pub std : Std
  pub rules : Rules
  pub existing : List Text → Option ℕ

-- The result so far, and whether an error ends the check.
pub data Verdict : Type 0 where
  fine : Checker → Verdict
  error : Checker → Verdict

abbrev pub and_then : Verdict → (Checker → Verdict) → Verdict
and_then (fine c) f = f c
and_then (error c) f = error c

unfoldable pub count_row : Checker → Checker
count_row c = record c { out = record (c.out) { rows = c.out.rows + 1 } }

unfoldable pub note_problem : Problem → Checker → Checker
note_problem p c = record c {
  out = record (c.out) {
    num_problems = c.out.num_problems + 1;
    problems =
        if ltb (length c.out.problems) max_problems
        then c.out.problems ++ (p ∷ [])
        else c.out.problems;
  };
}

abbrev pub add_existing : Option ℕ → List Text → Checker → Verdict
add_existing none batch c = error (record c { looked_up = c.looked_up ++ (batch ∷ []) })
add_existing (some n) batch c = fine (record c {
  out = record (c.out) { existing = c.out.existing + n };
  batch = [];
  looked_up = c.looked_up ++ (batch ∷ []);
})

abbrev pub look_up_batch : CheckEnv → List Text → Checker → Verdict
look_up_batch env [] c = fine c
look_up_batch env (e ∷ batch) c = add_existing (env.existing (e ∷ batch)) (e ∷ batch) c

-- The closure `lookup`.
unfoldable pub look_up : CheckEnv → Checker → Verdict
look_up env c = look_up_batch env c.batch c

-- A valid address that the file has not shown before.
unfoldable pub add_valid : CheckEnv → Text → Checker → Verdict
unfolding look_up
add_valid env email c =
    let c' : Checker = record c {
      out = record (c.out) { valid = c.out.valid + 1 };
      seen = email ∷ c.seen;
      batch = c.batch ++ (email ∷ []);
    } in
    if length c'.batch == existing_batch then look_up env c' else fine c'

unfoldable pub check_result : CheckEnv → RowResult → Checker → Verdict
unfolding add_valid note_problem
check_result env (accepted sub) c =
    if contains c.seen sub.email then fine c else add_valid env sub.email c
check_result env (rejected p) c = fine (note_problem p c)
check_result env panics c = error c

-- One pass of the loop. With FieldsPerRecord = -1 records of every width are read, and a
-- *csv.ParseError is a problem of its row.
unfoldable pub check_record : CheckEnv → ColumnMap → ℕ → Record → Checker → Verdict
unfolding check_result count_row note_problem
check_record env m line (fields cells) c =
    check_result env (read_row env.std env.rules cells m line) (count_row c)
check_record env m line malformed c =
    fine (note_problem (record { row = line + 1; value = []; reason = columns }) (count_row c))
check_record env m line unreadable c = error c

unfoldable pub check_rows : CheckEnv → ColumnMap → ℕ → List Record → Checker → Verdict
check_rows env m line [] c = look_up env c
check_rows env m line (r ∷ rest) c =
    and_then (check_record env m line r c) (check_rows env m (line + 1) rest)

abbrev pub no_checks : Checker
no_checks = record {
  out = record { rows = 0; valid = 0; existing = 0; num_problems = 0; problems = [] };
  seen = [];
  batch = [];
  looked_up = [];
}

unfoldable pub check_header : CheckEnv → List Column → List Record → Verdict
unfolding check_rows
check_header env cols [] = error no_checks
check_header env cols (malformed ∷ rest) = error no_checks
check_header env cols (unreadable ∷ rest) = error no_checks
check_header env cols (fields hdr ∷ rest) = elim (choose_column_map env.std cols hdr) [
  | none ↦ error no_checks
  | some m ↦ check_rows env m 1 rest no_checks
]

-- Check; `none` is a file that does not open.
unfoldable pub check : CheckEnv → List Column → Option (List Record) → Verdict
unfolding check_header
check env cols none = error no_checks
check env cols (some file) = check_header env cols file
