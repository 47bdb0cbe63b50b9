-- ===== src/Importer/Control/Stopping.antt =====
-- Stop requests: what they do to the import that runs, and to the next one.
use listnun.Prelude.{◌≡◌, ◌⊎◌, ◌||◌, refl, true, false, none, some, List, [], ◌∷◌, Text, arith}
use listnun.Importer.Status.{importing, finished, Status, fresh, is_done}
use listnun.Importer.Types.{SessionOpt}
use listnun.Importer.Columns.{ColumnMap, choose_column_map}
use listnun.Importer.Load.{
  Record, fields, Env, load_csv, load_header, load_body, load_rows, end_load, flush_window,
  flush_rows,
}
use listnun.Importer.Control.{Importer, normalize, new_session, starts, stops, ends, step, run}

-- While an import runs or stops, NewSession refuses and changes nothing; when none does it starts
-- one with all counters at zero, whose overwrite options are both set if the old one is.
new_session_cases :
    (opt : SessionOpt) (im : Importer)
    → ((is_done im.status ≡ false) × (new_session opt im ≡ none) × (step (starts opt) im ≡ im))
      ⊎ (is_done im.status ≡ true)
        × (new_session opt im
            ≡ some (
              record im { status = fresh importing opt.filename (some opt.mode) },
              normalize opt,
            ))
        × (is_done (step (starts opt) im).status ≡ false)
        × ((normalize opt).overwrite_user_info ≡ (opt.overwrite || opt.overwrite_user_info))
        × ((normalize opt).overwrite_sub_status ≡ (opt.overwrite || opt.overwrite_sub_status))
unfolding step
new_session_cases opt im = ground arith

-- A load that finds a stop request at its first pass sends nothing, closes the queue and returns
-- without an error.
load_csv_stopped :
    (env : Env) (hdr : List Text) (rows : List Record) (st : Status) (m : ColumnMap)
    → is_done st ≡ false
    → choose_column_map env.std env.opt.columns hdr ≡ some m
    → env.signal 1 ≡ true
    → let r = load_csv env (some (fields hdr ∷ rows)) st in
      (r.sent ≡ []) × (r.closed ≡ true) × (r.returned_error ≡ false)
unfolding load_csv load_body load_rows end_load flush_window flush_rows
load_csv_stopped env hdr [] st m w c e = rw (w, c, load_header) (rw e (refl, refl, refl))
load_csv_stopped env hdr (r ∷ rows) st m w c e =
    rw (w, c, load_header) (rw (e, load_body, load_rows) (refl, refl, refl))

next_session :
    (im : Importer) (opt : SessionOpt)
    → im.status.status ≡ importing
    → run (stops ∷ ends finished ∷ starts opt ∷ []) im
      ≡ record { status = fresh importing opt.filename (some opt.mode); stop = true }
unfolding run
next_session im opt i = ground arith

-- The stop channel is not emptied between imports: if an import is stopped when LoadCSV has read
-- its last row already, the request waits for the next import. When the file of that one opens, its
-- header parses and names an email column, the import sends no row to the queue, whatever rows the
-- file has, and reports no error.
pub stale_stop :
    (im : Importer) (opt : SessionOpt) (env : Env) (hdr : List Text) (rows : List Record)
    (m : ColumnMap)
    → im.status.status ≡ importing
    → choose_column_map env.std env.opt.columns hdr ≡ some m
    → env.signal 1 ≡ (run (stops ∷ ends finished ∷ starts opt ∷ []) im).stop
    → let im' = run (stops ∷ ends finished ∷ starts opt ∷ []) im in
      let r = load_csv env (some (fields hdr ∷ rows)) im'.status in
      (im'.status.status ≡ importing)
      × (r.sent ≡ [])
      × (r.closed ≡ true)
      × (r.returned_error ≡ false)
unfolding is_done fresh
stale_stop im opt env hdr rows m i c e =
    let next = next_session im opt i in
    let (sent, closed, quiet) = load_csv_stopped env hdr rows _ m refl c (rw next at e) in
    rw next (refl, sent, closed, quiet)
