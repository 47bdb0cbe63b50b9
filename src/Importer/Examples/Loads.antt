-- ===== src/Importer/Examples/Loads.antt =====
-- Concrete files read by LoadCSV and by Check.
use listnun.Prelude.{
  ◌+◌, ◌≤◌, ◌≡◌, refl, true, false, none, some, inl, List, [], ◌∷◌, Text, codes, All, length,
  contains, text_eq, count_byte, split,
}
use listnun.Importer.Status.{Phase, importing, failed, is_done}
use listnun.Importer.Types.{Std, SubReq}
use listnun.Importer.Domains.{new_rules, sanitize_email, parse_email, make_domain_map}
use listnun.Importer.Columns.{choose_column_map}
use listnun.Importer.Rows.{
  read_row, read_fields, validate_fields, read_attribs, read_attrs, accepted, panics,
}
use listnun.Importer.Load.{Record, fields, malformed, Env, load_csv, count_csv_rows}
use listnun.Importer.Load.Counts.{load_csv_counts}
use listnun.Importer.Load.Failure.{load_csv_malformed}
use listnun.Importer.Load.Scrub.{Told, IsBatch, load_csv_submissions}
use listnun.Importer.Check.{CheckEnv, Checker, fine, check, check_record, look_up, add_valid}
use listnun.Importer.Check.Agreement.{Answers, Agrees, check-Agrees}
use listnun.Importer.Control.{Importer, Call, starts, stops, ends, run}
use listnun.Importer.Control.Stopping.{stale_stop}
use listnun.Importer.Examples.{
  simple_std, simple_opt, rules, header, header_columns, header_map, row_a, first_status,
}

abbrev quiet_env : Env
quiet_env = record {
  std = simple_std;
  rules = rules;
  opt = simple_opt;
  scrub_wired = true;
  signal = λ i. false;
}

abbrev short_row : List Text
short_row = codes "bo@b.net" ∷ []

abbrev long_row : List Text
long_row = codes "bo@b.net" ∷ codes "Bo" ∷ codes "extra" ∷ []

abbrev file_rows : List Record
file_rows = fields row_a ∷ fields short_row ∷ []

working : is_done first_status ≡ false
unfolding is_done
working = refl

load_csv_counts_example :
    let r = load_csv quiet_env (some (fields header ∷ file_rows)) first_status in
    (r.status.total ≡ 2)
    × (count_csv_rows (fields header ∷ file_rows) ≡ 2)
    × (length r.sent + r.status.skipped ≡ 2)
    × (r.status.status ≡ importing)
    × (r.closed ≡ true)
    × (r.returned_error ≡ false)
load_csv_counts_example =
    load_csv_counts quiet_env header file_rows first_status header_columns working header_map
      (λ i. refl) (inl refl, (inl refl, tt))

load_csv_malformed_example :
    let r =
      load_csv quiet_env
        (some (fields header ∷ fields row_a ∷ malformed ∷ fields row_a ∷ []))
        first_status in
    (r.status.status ≡ failed)
    × (r.returned_error ≡ true)
    × (r.status.total ≡ 1)
    × (length r.sent + r.status.skipped ≤ 1)
    × (r.closed ≡ false)
load_csv_malformed_example =
    load_csv_malformed quiet_env header (fields row_a ∷ []) (fields row_a ∷ []) first_status
      header_columns working header_map (λ i. refl) (inl refl, tt)

load_csv_submissions_example :
    let r = load_csv quiet_env (some (fields header ∷ file_rows)) first_status in
    Told true r.submitted r.sent × All IsBatch r.submitted
load_csv_submissions_example =
    load_csv_submissions quiet_env (some (fields header ∷ file_rows)) first_status

abbrev check_env : CheckEnv
check_env = record { std = simple_std; rules = rules; existing = λ l. some 0 }

abbrev answers : Answers check_env
answers l = (0, refl)

check-Agrees_example :
    Agrees
      (check check_env [] (some (fields header ∷ fields row_a ∷ [])))
      (load_csv quiet_env (some (fields header ∷ fields row_a ∷ [])) first_status).status
check-Agrees_example =
    check-Agrees check_env quiet_env header (fields row_a ∷ []) first_status header_columns answers
      (refl, refl) header_map (λ i. refl) working (refl, refl) ((refl, inl refl), tt)

abbrev bo : SubReq
bo = record { email = codes "bo@b.net"; name = codes "Bo"; attribs = [] }

long_row-accepted : read_row simple_std rules long_row header_columns 1 ≡ accepted bo
unfolding read_row read_fields read_attribs validate_fields sanitize_email parse_email text_eq split
    count_byte new_rules make_domain_map
long_row-accepted = refl

abbrev checked : Checker
checked = record {
  out = record { rows = 1; valid = 1; existing = 0; num_problems = 0; problems = [] };
  seen = codes "bo@b.net" ∷ [];
  batch = [];
  looked_up = (codes "bo@b.net" ∷ []) ∷ [];
}

check_runs : check check_env [] (some (fields header ∷ fields long_row ∷ [])) ≡ fine checked
unfolding check choose_column_map check_record add_valid look_up read_row read_fields read_attribs
    validate_fields sanitize_email parse_email text_eq split count_byte new_rules make_domain_map
    contains
check_runs = refl

abbrev running : Importer
running = record { status = first_status; stop = false }

abbrev stopping_env : Env
stopping_env = record quiet_env { signal = λ i. true }

abbrev stale : List Call
stale = stops ∷ ends Phase.finished ∷ starts simple_opt ∷ []

stale_stop_example :
    let im = run stale running in
    let r = load_csv stopping_env (some (fields header ∷ file_rows)) im.status in
    (im.status.status ≡ importing) × (r.sent ≡ []) × (r.closed ≡ true) × (r.returned_error ≡ false)
unfolding run
stale_stop_example =
    stale_stop running simple_opt stopping_env header file_rows header_columns refl header_map refl

-- An attribute column beside a column of JSON, whose cell in this row is null: readRow panics.
abbrev null_std : Std
null_std = record simple_std { unmarshal = λ s. none }

null_cell :
    read_row null_std rules
      (codes "a@a.example" ∷ codes "null" ∷ codes "x" ∷ [])
      (record {
        email = some 0;
        name = none;
        attribs = some 1;
        attrs = record { index = 2; key = codes "city" } ∷ [];
        min_cols = 3;
      })
      1
    ≡ panics
unfolding read_row read_fields read_attribs read_attrs validate_fields sanitize_email parse_email
    text_eq split count_byte new_rules make_domain_map
null_cell = refl
