-- ===== src/Campaign/Pipe.antt =====
-- The pipe of a campaign that is being sent: internal/manager/pipe.go. Each function is what one
-- call changes; Machine puts them together.
pub mod Machine
pub mod Moves
pub mod Waiting
pub mod Errors
pub mod Counting
pub mod Entering
pub mod Finishing
use listnun.Prelude.{
  ℕ, ◌+◌, ◌-◌, Bool, true, false, ◌||◌, Option, none, some, ◌≡◌, Text, codes, ltb, leb,
  if◌then◌else◌,
}
use listnun.Campaign.Status.{
  CampaignStatus, running, scheduled, paused, finished, cancelled, Campaign, is, set_status,
  set_pause_reason, update_counts,
}

-- The fields of `pipe` that change. Go's counters stay far below 2 ^ 63.
pub record Pipe : Type 0 where
  pub wg : ℕ
  pub sent : ℕ
  pub last_id : ℕ
  pub errors : ℕ
  pub stopped : Bool
  pub with_errors : Bool

-- The pipe that newPipe makes: its counter is one up until Run lets go of it.
unfoldable pub fresh_pipe : Pipe
fresh_pipe = record {
  wg = 1;
  sent = 0;
  last_id = 0;
  errors = 0;
  stopped = false;
  with_errors = false;
}

-- newPipe; the flags tell which of its steps have no error: the messenger, and the images, the
-- template and the media together. A campaign without a messenger is cancelled.
unfoldable pub new_pipe : Bool → Bool → Bool → Campaign → Option Pipe × Campaign
new_pipe false loaded saved c = (none, if saved then set_status cancelled c else c)
new_pipe true false saved c = (none, c)
new_pipe true true saved c = (some fresh_pipe, c)

-- wg.Add(1) and wg.Done()
unfoldable pub add : Pipe → Pipe
add p = record p { wg = p.wg + 1 }

unfoldable pub done : Pipe → Pipe
done p = record p { wg = p.wg - 1 }

-- Stop
unfoldable pub stop : Bool → Pipe → Pipe
stop with_errors p =
    if p.stopped then p else record p { with_errors = with_errors || p.with_errors; stopped = true }

-- OnError; the first argument is the configured MaxSendErrors, 0 also for the negative ones.
unfoldable pub on_error : ℕ → Pipe → Pipe
on_error max p =
    if ltb max 1
    then p
    else (if ltb (p.errors + 1) max
        then record p { errors = p.errors + 1 }
        else stop true (record p { errors = p.errors + 1 }))

-- The two atomic steps of the worker after a message is sent: the store of the higher ID, and the
-- count.
unfoldable pub store_last : ℕ → Pipe → Pipe
store_last id p = record p { last_id = id }

unfoldable pub count_sent : Pipe → Pipe
count_sent p = record p { sent = p.sent + 1 }

abbrev pub too_many_errors : Text
too_many_errors = codes "too_many_errors"

-- The first part of cleanup: UpdateCampaignCounts, whose error is only logged.
unfoldable pub clean_counts : Bool → Pipe → Campaign → Campaign
clean_counts ok p c = if ok then update_counts 0 p.sent p.last_id c else c
