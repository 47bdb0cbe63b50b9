-- ===== src/Importer/Load/Scrub.antt =====
-- flushWindow: what LoadCSV submits to Scrub for validation.
use listnun.Prelude.{
  ℕ, suc, ◌+◌, ◌≤◌, ◌<◌, ◌≡◌, refl, sym, ap, Bool, true, false, Option, none, some, List, [], ◌∷◌,
  ◌++◌, Text, arith, length, length-append, All, All-append, Bool-cases, Option-cases, inl, inr,
  leb, ◌==◌, ◌∙◌,
}
use mathlib.Core.List.{map-append, append-nil, append_assoc}
use listnun.Importer.Status.{Status, is_done}
use listnun.Importer.Types.{SubReq}
use listnun.Importer.Columns.{ColumnMap, choose_column_map}
use listnun.Importer.Rows.{RowResult, accepted, rejected, panics}
use listnun.Importer.Load.Counts.{flush_window_lem}
use listnun.Importer.Load.{
  Record, fields, malformed, unreadable, Env, Load, submits, submission, emails, flush_rows,
  flush_window, LoadEnd, stopped, reached_eof, read_failed, panicked, Pass, go_on, halt, buffer_row,
  load_result, load_record, proceed, load_rows, Loaded, end_load, load_body, load_header, load_csv,
  first_load, give_up, set_total, count_csv_rows, commit_batch_size,
}

abbrev pub concat : List (List Text) → List Text
concat [] = []
concat (e ∷ es) = e ++ concat es

pub concat-snoc : (es : List (List Text)) (e : List Text) → concat (es ++ (e ∷ [])) ≡ concat es ++ e
concat-snoc [] e = append-nil e
concat-snoc (x ∷ es) e = rw (concat-snoc es e) (sym (append_assoc x (concat es) e))

-- A submission has an address and is no larger than a batch.
abbrev pub IsBatch : List Text → Type 0
IsBatch e = (0 < length e) × (length e ≤ commit_batch_size)

-- The submissions make up the addresses of the rows that were sent, or there are none.
abbrev pub Told : Bool → List (List Text) → List SubReq → Type 0
Told true submitted sent = concat submitted ≡ emails sent
Told false submitted sent = submitted ≡ []

record Inv (env : Env) (s : Load) : Type 0 where
  told : Told (submits env) s.submitted s.sent
  batches : All IsBatch s.submitted

length-emails : (l : List SubReq) → length (emails l) ≡ length l
length-emails [] = refl
length-emails (s ∷ l) = ap suc (length-emails l)

Told-submission :
    (b : Bool) (submitted : List (List Text)) (sent window : List SubReq)
    → Told b submitted sent
    → Told b (submitted ++ submission b window) (sent ++ window)
Told-submission true submitted sent window t =
    concat-snoc submitted (emails window)
    ∙ ap (λ l. l ++ emails window) t
    ∙ sym (map-append _ sent window)
Told-submission false submitted sent window t = rw t

submission-batches :
    (b : Bool) (sub : SubReq) (window : List SubReq)
    → length (sub ∷ window) ≤ commit_batch_size
    → All IsBatch (submission b (sub ∷ window))
submission-batches true sub window h = ((omega arith, omega (arith, length-emails window)), tt)
submission-batches false sub window h = tt

flush_window-Inv :
    (env : Env) (s : Load)
    → Inv env s
    → length s.window ≤ commit_batch_size
    → Inv env (flush_window env s)
unfolding flush_window
flush_window-Inv env s v h = go s.window h
  where
    go : (w : List SubReq) → length w ≤ commit_batch_size → Inv env (flush_rows env w s)
    go [] h = v
    go (sub ∷ w) h = record {
      told = Told-submission (submits env) s.submitted s.sent (sub ∷ w) v.told;
      batches =
          All-append IsBatch s.submitted _ v.batches (submission-batches (submits env) sub w h);
    }

-- Between two passes there is room in the window.
abbrev Ready : Env → Load → Type 0
Ready env s = Inv env s × (length s.window < commit_batch_size)

buffer_row-Ready :
    (env : Env) (sub : SubReq) (s : Load) → Ready env s → Ready env (buffer_row env sub s)
unfolding buffer_row
buffer_row-Ready env sub s (v, room) =
    let s' : Load = record s { window = s.window ++ (sub ∷ []) } in
    let long = length-append s.window (sub ∷ []) in
    let w : Inv env s' = record { told = v.told; batches = v.batches } in
    elim (Bool-cases (leb commit_batch_size (length s'.window))) [
      | inl full ↦
          rw full (
            flush_window-Inv env s' w (omega arith),
            rw ((flush_window_lem env s').1) (omega arith),
          )
      | inr more ↦ rw more (w, ground arith)
    ]

flush-Ready : (env : Env) (s : Load) → Ready env s → Ready env (flush_window env s)
flush-Ready env s (v, room) =
    (flush_window-Inv env s v (omega arith), rw ((flush_window_lem env s).1) (omega arith))

-- What a pass establishes, whether the loop goes on or ends there.
abbrev Good : Env → Pass → Type 0
Good env (go_on s) = Ready env s
Good env (halt end s) = Ready env s

load_result-Good :
    (env : Env) (r : RowResult) (s : Load) → Ready env s → Good env (load_result env r s)
unfolding load_result
load_result-Good env (accepted sub) s v = buffer_row-Ready env sub s v
load_result-Good env (rejected p) s v = (record { told = v.0.told; batches = v.0.batches }, v.1)
load_result-Good env panics s v = v

load_record-Good :
    (env : Env) (m : ColumnMap) (width i : ℕ) (r : Record) (s : Load)
    → Ready env s
    → Good env (load_record env m width i r s)
unfolding load_record
load_record-Good env m width i (fields cells) s v = elim (Bool-cases (length cells == width)) [
  | inl e ↦ rw e (load_result-Good env _ s v)
  | inr e ↦ rw e (record { told = v.0.told; batches = v.0.batches }, v.1)
]
load_record-Good env m width i malformed s v = v
load_record-Good env m width i unreadable s v = v

-- After the loop the window may be empty after a stop.
load_rows-Ready :
    (env : Env) (m : ColumnMap) (width i : ℕ) (rows : List Record) (s : Load)
    → Ready env s
    → Ready env (load_rows env m width i rows s).0
unfolding load_rows
load_rows-Ready env m width i [] s v = elim (Bool-cases (env.signal i)) [
  | inl e ↦ rw e (flush-Ready env s v)
  | inr e ↦ rw e v
]
load_rows-Ready env m width i (r ∷ rest) s v = elim (Bool-cases (env.signal i)) [
  | inl e ↦ rw (e, load_rows) (flush-Ready env s v)
  | inr e ↦
      rw (e, load_rows)
        (go (load_record env m width i r s) (load_record-Good env m width i r s v)
          (load_rows-Ready env m width (i + 1) rest))
]
  where
    more : Load → Load × LoadEnd × ℕ
    more = load_rows env m width (i + 1) rest

    go :
        (t : Pass)
        → Good env t
        → ((s' : Load) → Ready env s' → Ready env (more s').0)
        → Ready env (proceed t more i).0
    go (go_on s') g ih = ih s' g
    go (halt end s') g ih = g

-- What LoadCSV leaves agrees with what it submitted.
abbrev Submitted : Env → Loaded → Type 0
Submitted env r = Told (submits env) r.submitted r.sent × All IsBatch r.submitted

end_load-Submitted :
    (env : Env) (s : Load) (end : LoadEnd) (i : ℕ)
    → Ready env s
    → Submitted env (end_load env s end i)
unfolding end_load
end_load-Submitted env s stopped i v = (v.0.told, v.0.batches)
end_load-Submitted env s reached_eof i v = let w = flush-Ready env s v in (w.0.told, w.0.batches)
end_load-Submitted env s read_failed i v = (v.0.told, v.0.batches)
end_load-Submitted env s panicked i v = (v.0.told, v.0.batches)

first-Ready : (env : Env) (st : Status) → Ready env (first_load st)
first-Ready env st = (record { told = go (submits env); batches = tt }, omega arith)
  where
    go : (b : Bool) → Told b [] []
    go true = refl
    go false = refl

give_up-Submitted : (env : Env) (st : Status) → Submitted env (give_up (first_load st))
give_up-Submitted env st = let v = first-Ready env st in (v.0.told, v.0.batches)

load_header-Submitted :
    (env : Env) (file : List Record) (st : Status)
    → Submitted env (load_header env file (first_load st))
unfolding load_header load_body
load_header-Submitted env [] st = give_up-Submitted env st
load_header-Submitted env (malformed ∷ rest) st = give_up-Submitted env st
load_header-Submitted env (unreadable ∷ rest) st = give_up-Submitted env st
load_header-Submitted env (fields hdr ∷ rest) st =
    elim (Option-cases (choose_column_map env.std env.opt.columns hdr)) [
      | inl e ↦ rw (e, load_header) (give_up-Submitted env st)
      | inr (m, e) ↦
          let (s', end, i) = load_rows env m (length hdr) 1 rest (first_load st) in
          let v = load_rows-Ready env m (length hdr) 1 rest (first_load st) (first-Ready env st) in
          rw (e, load_header) (end_load-Submitted env s' end i v)
    ]

-- However a load ends, the addresses submitted to Scrub, in order, are those of the rows that were
-- sent to the queue if a session in subscribe mode has Scrub wired, and nothing is submitted
-- otherwise; each submission has at least one address and at most 10000.
pub load_csv_submissions :
    (env : Env) (file : Option (List Record)) (st : Status)
    → let r = load_csv env file st in
      Told (submits env) r.submitted r.sent × All IsBatch r.submitted
unfolding load_csv
load_csv_submissions env file st = elim (Bool-cases (is_done st)) [
  | inl e ↦ rw e (give_up-Submitted env st)
  | inr e ↦ rw e (go file)
]
  where
    go :
        (file : Option (List Record))
        → Submitted env (elim file [
          | none ↦ give_up (first_load st)
          | some records ↦
              load_header env records (first_load (set_total (count_csv_rows records) st))
        ])
    go none = give_up-Submitted env st
    go (some records) = load_header-Submitted env records _
