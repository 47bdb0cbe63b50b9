-- ===== src/Campaign/Examples/Pipes.antt =====
-- Runs of a pipe.
use listnun.Prelude.{
  ℕ, ◌+◌, ◌≤◌, ◌<◌, ◌≡◌, ◌≢◌, ◌⊎◌, ◌++◌, refl, true, false, some, List, [], ◌∷◌, length, arith,
}
use listnun.Campaign.Status.{finished, cancelled, set_status, update_counts}
use listnun.Campaign.Pipe.{
  Pipe, fresh_pipe, add, done, stop, on_error, store_last, count_sent, clean_counts,
}
use listnun.Campaign.Pipe.Machine.{
  Subscriber, Machine, Event, fetch, push, requeue, take, send, settle, scan_step, write_counts,
  clean_up, request, waits, next_ending, clean_row, first, step, run, pick, release, fetch_turn,
  push_message, push_turn, requeue_turn, take_message, end_send, settle_one, scan_turn,
}
use listnun.Campaign.Pipe.Moves.{weight}
use listnun.Campaign.Pipe.Waiting.{run-Accounted}
use listnun.Campaign.Pipe.Errors.{failing, succeeding, run-Tallied}
use listnun.Campaign.Pipe.Counting.{seen, held, run-Bounded}
use listnun.Campaign.Sliding.{
  Config, Window, slide, slide_from, slide_all, count_message, first_window, slide_all-window,
}
use listnun.Campaign.Sliding
use listnun.Campaign.Examples.{active}

abbrev subscriber : ℕ → Subscriber
subscriber n = record { id = n; renders = true }

-- Two messages are pushed and sent, the first with an error, while the scan counts.
abbrev whole : List Event
whole =
    fetch (some (subscriber 7 ∷ subscriber 8 ∷ []))
    ∷ push
    ∷ take
    ∷ push
    ∷ send 0 false
    ∷ requeue true
    ∷ take
    ∷ settle 0
    ∷ send 0 true
    ∷ settle 0
    ∷ settle 0
    ∷ settle 0
    ∷ scan_step true
    ∷ scan_step true
    ∷ fetch (some [])
    ∷ []

abbrev ended : List Event
ended = whole ++ (write_counts true ∷ [])

run-Accounted_example :
    let m = run 3 ended (first active) in
    (m.pipe.wg ≡ weight m.turn + length m.queue + length m.sending)
    × ((m.ending ≡ waits)
        ⊎ (m.pipe.wg ≡ 0)
          × (weight m.turn ≡ 0)
          × (m.queue ≡ [])
          × (m.sending ≡ [])
          × (m.took ≡ m.pushed))
    × (m.took ++ m.queue ≡ m.pushed)
run-Accounted_example = run-Accounted 3 ended active

run-Tallied_example :
    let m = run 3 ended (first active) in
    (m.attempts ≡ length m.sending + m.counted + succeeding m.settling + m.failures)
    × (m.failures ≡ m.pipe.errors + failing m.settling)
    × ((m.pipe.errors < 3) ⊎ (m.pipe.stopped ≡ true))
    × ((m.pipe.with_errors ≡ false) ⊎ (3 ≤ m.pipe.errors))
run-Tallied_example = run-Tallied 3 ended active (omega arith)

abbrev halted : Machine
halted = record (first active) { pipe = record fresh_pipe { stopped = true }; queue = 1 ∷ [] }

run-Bounded_example :
    let m = run 3 whole (first active) in
    (m.ending ≢ waits)
    ⊎ (m.row.sent + held m.scan + m.pipe.sent ≤ active.sent + m.counted)
      × (seen m.scan ≤ m.pipe.sent)
run-Bounded_example = run-Bounded 3 whole active

abbrev failed_pipe : Pipe
failed_pipe = record {
  wg = 0;
  sent = 4;
  last_id = 9;
  errors = 3;
  stopped = true;
  with_errors = true;
}

-- The counts and the three tests of cleanup.
abbrev tested : List Event
tested = ended ++ (clean_up true ∷ clean_up true ∷ clean_up true ∷ [])

-- A user cancels the campaign after cleanup has got it: it is finished all the same.
overwritten :
    (run 3 (tested ++ (request cancelled ∷ clean_up true ∷ [])) (first active)).row.status
    ≡ finished
unfolding run step first fresh_pipe pick release fetch_turn push_message push_turn requeue_turn
    take_message end_send settle_one scan_turn add done stop on_error store_last count_sent
    clean_counts next_ending clean_row set_status update_counts
overwritten = refl

-- One message fails and the limit is one error.
abbrev failing_run : List Event
failing_run =
    fetch (some (subscriber 7 ∷ []))
    ∷ push
    ∷ requeue true
    ∷ take
    ∷ send 0 false
    ∷ settle 0
    ∷ fetch (some [])
    ∷ write_counts true
    ∷ []

-- The same run in another order: the pipe ends before the worker counts its error, and the campaign
-- is finished although its only message failed.
late_error :
    (run 1
      (fetch (some (subscriber 7 ∷ []))
        ∷ push
        ∷ requeue true
        ∷ take
        ∷ fetch (some [])
        ∷ send 0 false
        ∷ write_counts true
        ∷ clean_up true
        ∷ clean_up true
        ∷ clean_up true
        ∷ clean_up true
        ∷ settle 0
        ∷ [])
      (first active)).row.status
    ≡ finished
unfolding run step first fresh_pipe pick release fetch_turn push_message push_turn requeue_turn
    take_message end_send settle_one scan_turn add done stop on_error store_last count_sent
    clean_counts next_ending clean_row set_status update_counts
late_error = refl

-- A message that is sent, counted by a scan and counted again by the cleanup.
counted_twice :
    let m =
      run 1
        (fetch (some (subscriber 7 ∷ []))
          ∷ push
          ∷ requeue true
          ∷ take
          ∷ fetch (some [])
          ∷ send 0 true
          ∷ settle 0
          ∷ settle 0
          ∷ settle 0
          ∷ scan_step true
          ∷ write_counts true
          ∷ scan_step true
          ∷ scan_step true
          ∷ [])
        (first active) in
    (m.row.sent ≡ 2) × (m.attempts ≡ 1)
unfolding run step first fresh_pipe pick release fetch_turn push_message push_turn requeue_turn
    take_message end_send settle_one scan_turn add done stop on_error store_last count_sent
    clean_counts next_ending clean_row set_status update_counts
counted_twice = (refl, refl)

-- Two workers store the IDs they have sent, and the lower one stays.
gone_back :
    let m =
      run 1
        (fetch (some (subscriber 7 ∷ subscriber 8 ∷ []))
          ∷ push
          ∷ push
          ∷ take
          ∷ take
          ∷ send 0 true
          ∷ settle 0
          ∷ send 0 true
          ∷ settle 0
          ∷ settle 0
          ∷ settle 1
          ∷ [])
        (first active) in
    m.pipe.last_id ≡ 7
unfolding run step first fresh_pipe pick release fetch_turn push_message push_turn requeue_turn
    take_message end_send settle_one scan_turn add done stop on_error store_last count_sent
gone_back = refl

abbrev three_per_minute : Config
three_per_minute = record { enabled = true; rate = 3; duration = 60; second = 1 }

slide_all-window_example :
    let w = slide_all three_per_minute ((1, 0) ∷ (1, 0) ∷ (0, 1) ∷ []) (first_window 5) in
    let w' = slide three_per_minute 2 1 w in
    (w'.pushed ≤ 3)
    × (((w'.start ≡ w.start) × (w'.pushed ≡ w.pushed + 1))
        ⊎ (w.start + 60 ≤ w'.start) × (w'.pushed ≡ 1))
slide_all-window_example =
    slide_all-window three_per_minute ((1, 0) ∷ (1, 0) ∷ (0, 1) ∷ []) 5 2 1 (omega arith)

-- With a limit of one message the second of a window is pushed at once: the sleep after the first
-- uses the time before the reset.
two_at_once :
    let c = record three_per_minute { rate = 1 } in
    let w = slide_all c ((61, 0) ∷ (0, 0) ∷ []) (first_window 0) in
    (w.pushed ≡ 2) × ((slide_all c ((61, 0) ∷ []) (first_window 0)).now ≡ 61)
unfolding slide slide_from slide_all count_message first_window Sliding.reset
two_at_once = (refl, refl)
