-- ===== src/Campaign/Examples.antt =====
-- Concrete campaigns for the theorems on them.
mod Pipes
mod Scans
use listnun.Prelude.{
  ◌≡◌, ◌≢◌, refl, Bool, true, false, Option, none, some, List, [], ◌∷◌, ◌⊎◌, inl, inr, ◌↔◌, arith,
}
use listnun.Campaign.Status.{
  CampaignStatus, draft, scheduled, running, paused, finished, cancelled, Campaign, Answer, changed,
  set_status, update_campaign_status, is_set, refusal, run_update, guard_of,
}
use listnun.Campaign.Status.Transitions.{
  Transition, starts, is_changed, Ended, run_requests, update_campaign_status_iff,
}
use listnun.Campaign.Status.Handler.{Request, no_job, job_error, ends, handle_status}
use listnun.Campaign.Status.Handler.Cases.{Startable, Untouched, written, handle_status_cases}
use listnun.Campaign.Status.Handler

abbrev pub drafted : Campaign
drafted = record {
  status = draft;
  send_at = some 5;
  pause_reason = none;
  to_send = 0;
  sent = 0;
  last_subscriber_id = 0;
}

abbrev pub active : Campaign
active = record drafted { status = running; send_at = none }

-- Requests for a campaign that was cancelled.
abbrev too_late : List (Option CampaignStatus × Bool)
too_late = (some running, true) ∷ (some paused, true) ∷ (none, true) ∷ []

update_campaign_status_iff_example :
    (is_changed (update_campaign_status (some running) true (some drafted) (some drafted)).0 ≡ true)
    ↔ (Transition drafted running × (true ≡ true) × (is_set (some drafted) ≡ true))
update_campaign_status_iff_example = update_campaign_status_iff running true drafted (some drafted)

-- A start with a time to send at is written as `scheduled` and answered as `running`.
started :
    update_campaign_status (some running) true (some drafted) (some drafted)
    ≡ (changed (record drafted { status = running }), some (record drafted { status = scheduled }))
unfolding update_campaign_status guard_of refusal run_update set_status
started = refl

-- A request that read the campaign when it was paused restarts it after another has cancelled it.
restarted :
    (update_campaign_status
      (some running)
      true
      (some (record active { status = paused }))
      (some (record active { status = cancelled }))).1
    ≡ some active
unfolding update_campaign_status guard_of refusal run_update set_status
restarted = refl

abbrev start_request : Request
start_request = record {
  permitted = true;
  bound = true;
  status = some running;
  link = some true;
  scrub_ready = true;
  jobs = some (no_job ∷ job_error ∷ []);
  update_ok = true;
  clear_ok = true;
}

handle_status_cases_example :
    let h = handle_status start_request (some drafted) (some drafted) in
    Untouched (some drafted) h
    ⊎ ((s : CampaignStatus) × (cm : Campaign) × (c : Campaign) × (start_request.permitted ≡ true)
        × (start_request.status ≡ some s)
        × (some drafted ≡ some cm)
        × (some drafted ≡ some c)
        × Transition cm s
        × ((Handler.starts s ≡ false) ⊎ Startable start_request)
        × (h.stopped ≡ ends s)
        × (h.row ≡ some (written start_request s c)))
handle_status_cases_example = handle_status_cases start_request (some drafted) (some drafted)
