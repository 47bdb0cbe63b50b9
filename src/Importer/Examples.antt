-- ===== src/Importer/Examples.antt =====
-- Concrete imports: tests of the importer's functions, and its theorems at inputs that meet their
-- hypotheses. Text is ASCII here, so the Unicode functions are those on ASCII bytes.
mod Loads
use listnun.Prelude.{
  ℕ, zero, suc, ◌+◌, ◌≡◌, ◌⊎◌, ◌≢◌, ◌↔◌, inl, inr, refl, Bool, true, false, ◌&&◌, Option, none,
  some, List, [], ◌∷◌, ◌++◌, Text, codes, arith, leb, ltb, if◌then◌else◌, All, text_eq, contains,
  split, count_byte, join, has_prefix, has_substring, trim_prefix, length, get_elem?, map,
}
use listnun.Importer.Status.{
  Status, Phase, idle, importing, finished, failed, Mode, subscribe, fresh, is_done, notif,
}
use listnun.Importer.Types.{Std, SubReq, SubStatus, unconfirmed, SessionOpt, Column, Value}
use listnun.Importer.Domains.{
  Rules, new_rules, make_domain_map, check_in_list, sanitize_email, parse_email, ok, err,
  blocked_domain, invalid_email, permits,
}
use listnun.Importer.Domains.Matching.{check_in_list_iff, Matches}
use listnun.Importer.Domains.Policy.{Passes, sanitize_email_policy}
use listnun.Importer.Columns.{
  is_word, ColumnMap, choose_column_map, attribute_key, guess_column, clean_header,
}
use listnun.Importer.Columns.Keys.{IsKey, Words}
use listnun.Importer.Columns.Fits.{Fits, HasEmail, choose_column_map-Fits}
use listnun.Importer.Rows.{read_row, accepted}
use listnun.Importer.Rows.Totals.{Ends}
use listnun.Importer.Rows.Accepted.{Passed}
use listnun.Importer.Session.Accounting.{Served, counted-start}
use listnun.Importer.Session.Batches.{Truthful, start-Truthful}
use listnun.Importer.Session.Outcome.{
  Granted, all_writes, writes_for, start-Granted, insert_failure,
}
use listnun.Importer.Session.{
  RowAnswers, World, Write, Loop, start, first_loop, process_queue, process_row, insert_row, finish,
  write_of, batch_limit,
}

-- ASCII versions of the functions that the validation takes from elsewhere.
abbrev lower_byte : ℕ → ℕ
lower_byte c = if leb b'A' c && leb c b'Z' then c + 32 else c

abbrev drop_spaces : Text → Text
drop_spaces [] = []
drop_spaces (c ∷ s) = let rest = drop_spaces s in if leb c b' ' then rest else c ∷ s

-- It takes an address to be any text with one "@".
abbrev simple_std : Std
simple_std = record {
  to_lower = map lower_byte;
  trim_space = drop_spaces;
  fields = split b' ';
  title = λ s. s;
  parse_address =
      λ s. if leb 1 (count_byte b'@' s) && leb (count_byte b'@' s) 1 then some s else none;
  unmarshal = λ s. some [];
}

abbrev header : List Text
header = codes "email" ∷ codes "name" ∷ []

abbrev row_a : List Text
row_a = codes "Ann@mail.example.com" ∷ codes "Ann" ∷ []

abbrev blocks : List Text
blocks = codes "spam.org" ∷ codes "*.example.com" ∷ []

abbrev simple_opt : SessionOpt
simple_opt = record {
  filename = codes "people.csv";
  mode = subscribe;
  sub_status = unconfirmed;
  overwrite = true;
  overwrite_user_info = false;
  overwrite_sub_status = false;
  list_ids = 3 ∷ [];
  columns = [];
  tenant_id = 1;
}

header_map :
    choose_column_map simple_std [] header
    ≡ some (record { email = some 0; name = some 1; attribs = none; attrs = []; min_cols = 2 })
unfolding choose_column_map text_eq
header_map = refl

key_of_header : attribute_key simple_std (codes "  Phone No. ") ≡ codes "phone_no"
unfolding attribute_key is_word
key_of_header = refl

abbrev ann : SubReq
ann = record { email = codes "ann@mail.example.com"; name = codes "Ann"; attribs = [] }

abbrev good_answers : RowAnswers
good_answers = record { begin_ok = true; uuid_ok = true; exec = some true; commit_ok = true }

abbrev bad_answers : RowAnswers
bad_answers = record { begin_ok = true; uuid_ok = true; exec = none; commit_ok = true }

abbrev queue : List (SubReq × RowAnswers)
queue = (ann, good_answers) ∷ (ann, good_answers) ∷ []

abbrev broken_queue : List (SubReq × RowAnswers)
broken_queue = (ann, good_answers) ∷ (ann, bad_answers) ∷ (ann, good_answers) ∷ []

abbrev first_status : Status
first_status = record {
  name = codes "people.csv";
  total = 0;
  imported = 0;
  added = 0;
  risky = 0;
  skipped = 0;
  failed = 0;
  pending = 0;
  status = importing;
  problems = [];
  mode_name = some subscribe;
}

abbrev first_world : World
first_world = record { status = first_status; commits = []; list_dates = []; notifs = [] }

start-Truthful_example :
    Truthful 0 0 (start simple_opt broken_queue true first_world).0
    × ((start simple_opt broken_queue true first_world).0.status.pending ≡ 0)
start-Truthful_example =
    start-Truthful simple_opt broken_queue true first_world (omega arith) refl tt

counted-start_example :
    (start simple_opt broken_queue true first_world).0.status.imported
      + (start simple_opt broken_queue true first_world).0.status.failed
      + length (start simple_opt broken_queue true first_world).1
    ≡ 3
counted-start_example =
    counted-start simple_opt broken_queue true first_world
      ((refl, refl), ((refl, refl), ((refl, refl), tt)))

abbrev granted : Granted (ann, good_answers)
granted = (refl, refl, (true, refl), refl)

start-Granted_example :
    ((start simple_opt queue true first_world).1 ≡ [])
    × (all_writes (start simple_opt queue true first_world).0.commits
        ≡ write_of simple_opt ann ∷ write_of simple_opt ann ∷ [])
    × ((start simple_opt queue true first_world).0.status.status ≡ finished)
start-Granted_example = start-Granted simple_opt queue first_world (granted, (granted, tt))

-- The failing row is the first of its batch: the import is reported as finished.
insert_failure_example :
    let (s, left) =
      process_queue simple_opt ((ann, bad_answers) ∷ queue) (first_loop first_world) in
    let w = finish simple_opt true s in
    (left ≡ queue)
    × (w.commits ≡ [])
    × (w.status.imported ≡ 0)
    × (w.status.failed ≡ 1)
    × (w.status.status ≡ finished)
unfolding first_loop
insert_failure_example =
    insert_failure simple_opt ann bad_answers queue true (first_loop first_world) refl refl refl

check_in_list_iff_example :
    (check_in_list (codes "mail.example.com") (make_domain_map blocks) ≡ true)
    ↔ Matches blocks (codes "mail.example.com")
check_in_list_iff_example = check_in_list_iff blocks (codes "mail.example.com")

sanitize_email_policy_example :
    let result = sanitize_email simple_std (new_rules blocks []) (codes "Bo@b.net") in
    ((parse_email simple_std (codes "Bo@b.net") ≡ none) × (result ≡ err invalid_email))
    ⊎ ((addr : Text) × (parse_email simple_std (codes "Bo@b.net") ≡ some addr)
        × ((Passes blocks [] (split b'@' addr) × (result ≡ ok addr))
            ⊎ ((¬ Passes blocks [] (split b'@' addr)) × (result ≡ err blocked_domain))))
sanitize_email_policy_example = sanitize_email_policy simple_std blocks [] (codes "Bo@b.net")

lower_word : (c : ℕ) → is_word c ≡ true → lower_byte c ≡ c
unfolding is_word
lower_word c h = ground arith

lower-Words : (start : Bool) (k : Text) → Words start k → map lower_byte k ≡ k
lower-Words start [] w = refl
lower-Words start (c ∷ k) (inl (w, h)) = rw (lower_word c w, lower-Words false k h)
lower-Words start (c ∷ k) (inr (g, e, h)) = rw (e, lower-Words true k h)

lower_key : (k : Text) → IsKey k → map lower_byte k ≡ k
lower_key k (inl e) = rw e
lower_key k (inr w) = lower-Words true k w

abbrev rules : Rules
rules = new_rules [] []

abbrev header_columns : ColumnMap
header_columns = record { email = some 0; name = some 1; attribs = none; attrs = []; min_cols = 2 }
