-- ===== src/Campaign/Status/Handler.antt =====
-- The handler App.UpdateCampaignStatus and checkScrubJobOnCampaign (cmd/campaigns.go).
pub mod Cases
use listnun.Prelude.{
  ◌≡◌, ◌≢◌, All, ◌⊎◌, inl, inr, refl, Bool, true, false, not, ◌&&◌, Option, none, some, List, [],
  ◌∷◌, if◌then◌else◌, Bool-cases,
}
use listnun.Campaign.Status.{
  CampaignStatus, scheduled, running, paused, cancelled, Campaign, is, Answer, unreadable, refused,
  failed, not_found, changed, clear_pause_reason, set_status, update_campaign_status,
}
use listnun.Campaign.Status.Transitions.{
  is_changed, Transition, update_campaign_status_cases, update_campaign_status-Transition,
}

-- What GetActiveScrubJobForList answers for a list: a job, no row, or an error.
pub data Job : Type 0 where
  active no_job job_error : Job

-- The loop over the campaign's lists, which passes over an error.
unfoldable pub find_job : List Job → Bool
find_job [] = false
find_job (active ∷ jobs) = true
find_job (no_job ∷ jobs) = find_job jobs
find_job (job_error ∷ jobs) = find_job jobs

-- `ready` tells that the settings could be read and hold all that Scrub needs. `lists` is `none` if
-- the campaign cannot be read, which is an error; lists that cannot be parsed are an empty list.
unfoldable pub check_scrub_job : Bool → Option (List Job) → Option Bool
check_scrub_job false lists = some false
check_scrub_job true none = none
check_scrub_job true (some jobs) = some (find_job jobs)

-- The answers that the handler gets. `link` is the result of HasUnsubscribeLink for the campaign
-- that GetCampaignForPreview returns, or `none` for its error.
pub record Request : Type 0 where
  pub permitted : Bool
  pub bound : Bool
  pub status : Option CampaignStatus
  pub link : Option Bool
  pub scrub_ready : Bool
  pub jobs : Option (List Job)
  pub update_ok : Bool
  pub clear_ok : Bool

-- The errors of the checks before a start.
pub data Hold : Type 0 where
  no_preview no_unsub_link scrub_job_running : Hold

pub data Response : Type 0 where
  not_permitted bad_body : Response
  held : Hold → Response
  answered : Answer → Response

-- What a request leaves: its response, the row, and whether StopCampaign was called.
pub record Handled : Type 0 where
  pub response : Response
  pub row : Option Campaign
  pub stopped : Bool

abbrev pub is_requested : (CampaignStatus → Bool) → Option CampaignStatus → Bool
is_requested test none = false
is_requested test (some s) = test s

abbrev pub starts : CampaignStatus → Bool
starts running = true
starts scheduled = true
starts _ = false

abbrev pub ends : CampaignStatus → Bool
ends paused = true
ends cancelled = true
ends _ = false

-- The checks before a start: `none` lets the request through.
unfoldable pub blocked : Request → Option Hold
blocked r = if not (is_requested starts r.status) then none else elim r.link [
  | none ↦ some no_preview
  | some false ↦ some no_unsub_link
  | some true ↦ elim (check_scrub_job r.scrub_ready r.jobs) [
    | some true ↦ some scrub_job_running
    | _ ↦ none
  ]
]

-- The pause reason is cleared unless the campaign is paused; an error of that is only logged.
unfoldable pub cleared : Request → Option Campaign → Option Campaign
cleared r none = none
cleared r (some c) =
    some (if not (is_requested (is paused) r.status) && r.clear_ok then clear_pause_reason c else c)

unfoldable pub finish_update : Request → Answer → Option Campaign → Handled
finish_update r (changed cm) row = record {
  response = answered (
      changed (
        if not (is_requested (is paused) r.status) && r.clear_ok
        then clear_pause_reason cm
        else cm));
  row = cleared r row;
  stopped = is_requested ends r.status;
}
finish_update r a row = record { response = answered a; row = row; stopped = false }

-- The early returns of the handler, in their order, before what it does at last.
unfoldable pub checked : Bool → Bool → Option Hold → Option Campaign → Handled → Handled
checked false bound e row last = record { response = not_permitted; row = row; stopped = false }
checked true false e row last = record { response = bad_body; row = row; stopped = false }
checked true true (some e) row last = record { response = held e; row = row; stopped = false }
checked true true none row last = last

-- The whole handler: `read` and `row` as in `update_campaign_status`.
unfoldable pub handle_status : Request → Option Campaign → Option Campaign → Handled
handle_status r read row =
    let u = update_campaign_status r.status r.update_ok read row in
    checked r.permitted r.bound (blocked r) row (finish_update r u.0 u.1)
