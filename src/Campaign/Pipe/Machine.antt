-- ===== src/Campaign/Pipe/Machine.antt =====
-- A pipe among the goroutines that share it: Manager.Run, NextSubscribers, the workers, StopCampaign,
-- getCurrentCampaigns (internal/manager/manager.go, pipe.go) and the goroutine of newPipe that waits
-- for the counter to reach zero. An event is one atomic step of one of them, so that a list of
-- events is an interleaving; an event that cannot happen changes nothing. `request` is a change of
-- the row's status by a user. newMessage and the send on the channel are one step, so are OnError
-- with its Stop, and cleanup's read and write of the counts. The workers' limit of messages per
-- second is not kept.
use listnun.Prelude.{
  ℕ, zero, suc, ◌+◌, Bool, true, false, Option, none, some, List, [], ◌∷◌, ◌++◌, ltb, ◌==◌, ◌&&◌,
  ◌||◌, if◌then◌else◌,
}
use listnun.Campaign.Status.{
  CampaignStatus, running, scheduled, finished, paused, Campaign, is, set_status, set_pause_reason,
  update_counts,
}
use listnun.Campaign.Pipe.{
  Pipe, fresh_pipe, add, done, stop, on_error, store_last, count_sent, clean_counts,
  too_many_errors,
}

-- A subscriber's ID, and whether its message can be rendered.
pub record Subscriber : Type 0 where
  pub id : ℕ
  pub renders : Bool

-- Where Run has the pipe: in nextPipes, in NextSubscribers with these subscribers left, or gone.
pub data Turn : Type 0 where
  queued : Turn
  pushing : List Subscriber → Turn
  released : Turn

-- A worker after wg.Done for a message: it compares its ID, stores it, counts it, or has an error to
-- count.
pub data Settling : Type 0 where
  compares : ℕ → Settling
  stores : ℕ → Settling
  counts : Settling
  fails : Settling

-- getCurrentCampaigns between its Load, its Store(0) and the write of NextCampaigns.
pub data Scan : Type 0 where
  no_scan : Scan
  loaded : ℕ → Scan
  taken : ℕ → Scan

-- The waiting goroutine: before the counter is zero; in cleanup, where after the counts it reads
-- withErrors (`cleans`), then reads stopped (`checks`), gets the campaign (`fetches`) and sets it to
-- finished (`finishes`), or sets it to paused (`pauses`) and writes the reason (`explains`); on its
-- return (`leaves`), when it deletes the pipe; and at its end.
pub data Ending : Type 0 where
  waits cleans checks fetches finishes pauses explains leaves removed : Ending

-- `queue` has the campaign's messages in campMsgQ. The fields after `row` record what happened: the
-- messages pushed and taken, the attempts to send, those that had an error, and how many were counted
-- as sent.
pub record Machine : Type 0 where
  pub pipe : Pipe
  pub turn : Turn
  pub queue : List ℕ
  pub sending : List ℕ
  pub settling : List Settling
  pub scan : Scan
  pub ending : Ending
  pub row : Campaign
  pub pushed : List ℕ
  pub took : List ℕ
  pub attempts : ℕ
  pub failures : ℕ
  pub counted : ℕ

unfoldable pub first : Campaign → Machine
first c = record {
  pipe = fresh_pipe;
  turn = queued;
  queue = [];
  sending = [];
  settling = [];
  scan = no_scan;
  ending = waits;
  row = c;
  pushed = [];
  took = [];
  attempts = 0;
  failures = 0;
  counted = 0;
}

pub data Event : Type 0 where
  fetch : Option (List Subscriber) → Event
  push : Event
  requeue : Bool → Event
  take : Event
  send : ℕ → Bool → Event
  settle : ℕ → Event
  stop_campaign : Event
  request : CampaignStatus → Event
  scan_step : Bool → Event
  write_counts : Bool → Event
  clean_up : Bool → Event

abbrev pub beside {ℓ} : {A : Type ℓ} → A → Option (A × List A) → Option (A × List A)
beside x none = none
beside x (some (y, ys)) = some (y, x ∷ ys)

-- The element at an index and the others.
unfoldable pub pick {ℓ} : {A : Type ℓ} → ℕ → List A → Option (A × List A)
pick i [] = none
pick zero (x ∷ xs) = some (x, xs)
pick (suc i) (x ∷ xs) = beside x (pick i xs)

-- Run gives the pipe up, after an error or without one.
unfoldable pub release : Bool → Machine → Machine
release failed m = record m {
  pipe = done (if failed then stop false m.pipe else m.pipe);
  turn = released;
}

-- The turns of Run: the query, a pass of the loop over the subscribers, and the return to nextPipes.
unfoldable pub fetch_turn : Option (List Subscriber) → Turn → Machine → Machine
fetch_turn none queued m = release true m
fetch_turn (some []) queued m = release false m
fetch_turn (some (s ∷ subs)) queued m = record m { turn = pushing (s ∷ subs) }
fetch_turn subs (pushing _) m = m
fetch_turn subs released m = m

unfoldable pub push_message : Subscriber → List Subscriber → Machine → Machine
push_message s subs m =
    if s.renders
    then record m {
      pipe = add m.pipe;
      turn = pushing subs;
      queue = m.queue ++ (s.id ∷ []);
      pushed = m.pushed ++ (s.id ∷ []);
    }
    else record m { turn = pushing subs }

unfoldable pub push_turn : Turn → Machine → Machine
push_turn (pushing (s ∷ subs)) m = push_message s subs m
push_turn (pushing []) m = m
push_turn queued m = m
push_turn released m = m

unfoldable pub requeue_turn : Bool → Turn → Machine → Machine
requeue_turn room (pushing []) m = if room then record m { turn = queued } else release true m
requeue_turn room (pushing (s ∷ subs)) m = m
requeue_turn room queued m = m
requeue_turn room released m = m

-- A worker takes the first message; it is skipped when the pipe is stopped.
unfoldable pub take_message : List ℕ → Machine → Machine
take_message [] m = m
take_message (id ∷ rest) m =
    if m.pipe.stopped
    then record m { pipe = done m.pipe; queue = rest; took = m.took ++ (id ∷ []) }
    else record m {
      queue = rest;
      took = m.took ++ (id ∷ []);
      sending = m.sending ++ (id ∷ []);
      attempts = m.attempts + 1;
    }

-- The send of a message ends.
unfoldable pub end_send : Bool → Option (ℕ × List ℕ) → Machine → Machine
end_send ok none m = m
end_send true (some (id, rest)) m = record m {
  pipe = done m.pipe;
  sending = rest;
  settling = compares id ∷ m.settling;
}
end_send false (some (id, rest)) m = record m {
  pipe = done m.pipe;
  sending = rest;
  settling = fails ∷ m.settling;
  failures = m.failures + 1;
}

-- One more step of a worker after its send; the first argument is MaxSendErrors.
unfoldable pub settle_one : ℕ → Option (Settling × List Settling) → Machine → Machine
settle_one max none m = m
settle_one max (some (compares id, rest)) m = record m {
  settling = (if ltb m.pipe.last_id id then stores id else counts) ∷ rest;
}
settle_one max (some (stores id, rest)) m = record m {
  pipe = store_last id m.pipe;
  settling = counts ∷ rest;
}
settle_one max (some (counts, rest)) m = record m {
  pipe = count_sent m.pipe;
  settling = rest;
  counted = m.counted + 1;
}
settle_one max (some (fails, rest)) m = record m { pipe = on_error max m.pipe; settling = rest }

-- The scan's next step. Its write adds the count to the row, unless the query has an error.
unfoldable pub scan_turn : Bool → Scan → Machine → Machine
scan_turn ok no_scan m = record m { scan = loaded m.pipe.sent }
scan_turn ok (loaded n) m = record m { pipe = record m.pipe { sent = 0 }; scan = taken n }
scan_turn ok (taken n) m = record m {
  scan = no_scan;
  row = if ok then update_counts 0 n 0 m.row else m.row;
}

-- The next step of cleanup, whose call of the store goes through or does not: where it leads, and
-- the row.
unfoldable pub next_ending : Bool → Ending → Pipe → Campaign → Ending
next_ending ok waits p c = waits
next_ending ok cleans p c = if p.with_errors then pauses else checks
next_ending ok checks p c = if p.stopped then leaves else fetches
next_ending ok fetches p c =
    if ok && (is running c.status || is scheduled c.status) then finishes else leaves
next_ending ok finishes p c = leaves
next_ending ok pauses p c = if ok then explains else leaves
next_ending ok explains p c = leaves
next_ending ok leaves p c = removed
next_ending ok removed p c = removed

unfoldable pub clean_row : Bool → Ending → Campaign → Campaign
clean_row true finishes c = set_status finished c
clean_row true pauses c = set_status paused c
clean_row true explains c = set_pause_reason too_many_errors c
clean_row _ _ c = c

abbrev is_removed : Ending → Bool
is_removed removed = true
is_removed _ = false

abbrev is_idle : Scan → Bool
is_idle no_scan = true
is_idle _ = false

abbrev pub is_waiting : Ending → Bool
is_waiting waits = true
is_waiting _ = false

unfoldable pub step : ℕ → Event → Machine → Machine
step max (fetch subs) m = fetch_turn subs m.turn m
step max push m = push_turn m.turn m
step max (requeue room) m = requeue_turn room m.turn m
step max take m = take_message m.queue m
step max (send i ok) m = end_send ok (pick i m.sending) m
step max (settle i) m = settle_one max (pick i m.settling) m
step max stop_campaign m = if is_removed m.ending then m else record m { pipe = stop false m.pipe }
step max (request s) m = record m { row = set_status s m.row }
step max (scan_step ok) m =
    if is_removed m.ending && is_idle m.scan then m else scan_turn ok m.scan m
step max (write_counts ok) m =
    if is_waiting m.ending && (m.pipe.wg == 0)
    then record m { ending = cleans; row = clean_counts ok m.pipe m.row }
    else m
step max (clean_up ok) m = record m {
  ending = next_ending ok m.ending m.pipe m.row;
  row = clean_row ok m.ending m.row;
}

unfoldable pub run : ℕ → List Event → Machine → Machine
run max [] m = m
run max (e ∷ es) m = run max es (step max e m)
