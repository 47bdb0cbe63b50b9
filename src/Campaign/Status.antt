-- ===== src/Campaign/Status.antt =====
-- A campaign's status and the requests that change it: Core.UpdateCampaignStatus
-- (internal/core/campaigns.go), the handler UpdateCampaignStatus (cmd/campaigns.go) and the
-- statements of queries/campaigns.sql that they run.
pub mod Transitions
pub mod Handler
use listnun.Prelude.{
  ℕ, ◌+◌, Bool, true, false, not, ◌&&◌, ◌||◌, Option, none, some, Text, ltb, if◌then◌else◌,
}

-- The values of the type campaign_status; the constants of models/campaigns.go.
pub data CampaignStatus : Type 0 where
  draft scheduled running paused finished cancelled : CampaignStatus

abbrev code_of : CampaignStatus → ℕ
code_of draft = 0
code_of scheduled = 1
code_of running = 2
code_of paused = 3
code_of finished = 4
code_of cancelled = 5

-- The columns of a campaign that decide how it is sent.
pub record Campaign : Type 0 where
  pub status : CampaignStatus
  pub send_at : Option ℕ
  pub pause_reason : Option Text
  pub to_send : ℕ
  pub sent : ℕ
  pub last_subscriber_id : ℕ

abbrev pub is : CampaignStatus → CampaignStatus → Bool
is draft draft = true
is scheduled scheduled = true
is running running = true
is paused paused = true
is finished finished = true
is cancelled cancelled = true
is _ _ = false

abbrev pub is_set {ℓ} : {A : Type ℓ} → Option A → Bool
is_set none = false
is_set (some a) = true

-- The messages of the guards.
pub data Refusal : Type 0 where
  only_scheduled_as_draft only_draft_as_scheduled needs_send_at only_paused_draft only_active_pause
        only_active_cancel :
      Refusal

-- The switch of UpdateCampaignStatus. A campaign that cannot be scheduled for both reasons is told
-- of the second.
unfoldable pub refusal : CampaignStatus → Campaign → Option Refusal
refusal draft cm = if is cm.status scheduled then none else some only_scheduled_as_draft
refusal scheduled cm =
    if not (is_set cm.send_at)
    then some needs_send_at
    else (if is cm.status draft || is cm.status paused then none else some only_draft_as_scheduled)
refusal running cm =
    if is cm.status paused || is cm.status draft then none else some only_paused_draft
refusal paused cm = if is cm.status running then none else some only_active_pause
refusal cancelled cm =
    if is cm.status running || is cm.status paused then none else some only_active_cancel
refusal finished cm = none

-- The statement update-campaign-status.
unfoldable pub set_status : CampaignStatus → Campaign → Campaign
set_status running c = record c { status = if is_set c.send_at then scheduled else running }
set_status s c = record c { status = s }

-- The statement set-campaign-pause-reason.
unfoldable pub set_pause_reason : Text → Campaign → Campaign
set_pause_reason r c =
    if is c.status paused && not (is_set c.pause_reason)
    then record c { pause_reason = some r }
    else c

-- The statement clear-campaign-pause-reason.
unfoldable pub clear_pause_reason : Campaign → Campaign
clear_pause_reason c = record c { pause_reason = none }

-- The statement update-campaign-counts.
unfoldable pub update_counts : ℕ → ℕ → ℕ → Campaign → Campaign
update_counts to_send sent last c = record c {
  to_send = if ltb 0 to_send then to_send else c.to_send;
  sent = c.sent + sent;
  last_subscriber_id = if ltb 0 last then last else c.last_subscriber_id;
}

-- What UpdateCampaignStatus returns: an error of GetCampaign, a refusal, an error of the
-- transaction, no row to update, or the campaign.
pub data Answer : Type 0 where
  unreadable : Answer
  refused : Refusal → Answer
  failed : Answer
  not_found : Answer
  changed : Campaign → Answer

-- The result, and the row afterwards. `read` is the campaign that GetCampaign returned, `row` the
-- row when the statement runs. A requested status of `none` is a text that is no campaign_status:
-- no case of the switch names it, and the statement's cast refuses it.
unfoldable pub run_update :
    Option CampaignStatus → Bool → Campaign → Option Campaign → Answer × Option Campaign
run_update none ok cm row = (failed, row)
run_update (some s) false cm row = (failed, row)
run_update (some s) true cm none = (not_found, none)
run_update (some s) true cm (some c) = (changed (record cm { status = s }), some (set_status s c))

unfoldable pub guard_of : Option CampaignStatus → Campaign → Option Refusal
guard_of none cm = none
guard_of (some s) cm = refusal s cm

unfoldable pub update_campaign_status :
    Option CampaignStatus → Bool → Option Campaign → Option Campaign → Answer × Option Campaign
update_campaign_status req ok none row = (unreadable, row)
update_campaign_status req ok (some cm) row = elim (guard_of req cm) [
  | none ↦ run_update req ok cm row
  | some r ↦ (refused r, row)
]
