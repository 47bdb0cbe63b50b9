-- ===== src/Campaign/Pipe/Finishing.antt =====
-- How the end of a pipe shows in the row of its campaign.
use listnun.Prelude.{ℕ, ◌≡◌, false, List, ◌⊎◌}
use listnun.Campaign.Status.{running, scheduled, Campaign}
use listnun.Campaign.Pipe.Machine.{Machine, Event}
use listnun.Campaign.Pipe.Entering.{Once}

-- cleanup has found no mark of errors in a run.
abbrev pub Unmarked : ℕ → Machine → List Event → Type 0
Unmarked max m es = Once max m es (λ fs k. k.pipe.with_errors ≡ false)

-- It has found no mark of errors and then the pipe not stopped.
abbrev pub Unstopped : ℕ → Machine → List Event → Type 0
Unstopped max m es = Once max m es (λ fs k. (k.pipe.stopped ≡ false) × Unmarked max m fs)

-- It has found both, and then the campaign running or scheduled.
abbrev pub Active : ℕ → Machine → List Event → Type 0
Active max m es =
    Once max m es
      (λ fs k. ((k.row.status ≡ running) ⊎ (k.row.status ≡ scheduled)) × Unstopped max m fs)
