-- ===== src/Campaign/Status/Handler/Cases.antt =====
-- What a request for a change of status does: the cases of the handler.
use listnun.Prelude.{
  ◌≡◌, ◌≢◌, All, ◌⊎◌, inl, inr, refl, Bool, true, false, not, ◌&&◌, Option, none, some, List, [],
  ◌∷◌, if◌then◌else◌, Bool-cases,
}
use listnun.Campaign.Status.{
  CampaignStatus, paused, Campaign, is, Answer, unreadable, refused, failed, not_found, changed,
  clear_pause_reason, set_status, update_campaign_status,
}
use listnun.Campaign.Status.Transitions.{
  is_changed, Transition, update_campaign_status_cases, update_campaign_status-Transition,
}
use listnun.Campaign.Status.Handler.{
  Job, active, no_job, job_error, find_job, check_scrub_job, Request, is_requested, starts, ends,
  Hold, no_preview, no_unsub_link, scrub_job_running, answered, Handled, blocked, cleared,
  finish_update, checked, handle_status,
}

find_job-none : (jobs : List Job) → find_job jobs ≡ false → All (λ j. j ≢ active) jobs
unfolding find_job
find_job-none [] h = tt
find_job-none (active ∷ jobs) h = cc
find_job-none (no_job ∷ jobs) h = (λ e. cc, find_job-none jobs h)
find_job-none (job_error ∷ jobs) h = (λ e. cc, find_job-none jobs h)

-- What a start needs: a link to unsubscribe, and no list with a known validation job.
abbrev pub Startable : Request → Type 0
Startable r =
    (r.link ≡ some true)
    × ((r.scrub_ready ≡ false)
        ⊎ (r.jobs ≡ none)
        ⊎ ((js : List Job) × (r.jobs ≡ some js) × All (λ j. j ≢ active) js))

blocked-Startable :
    (r : Request) → blocked r ≡ none → (is_requested starts r.status ≡ false) ⊎ Startable r
unfolding blocked check_scrub_job
blocked-Startable r h = elim (Bool-cases (is_requested starts r.status)) [
  | inr s ↦ inl s
  | inl s ↦ inr (go r.link r.scrub_ready r.jobs (rw (s, blocked) at h))
]
  where
    go :
        (link : Option Bool) (ready : Bool) (jobs : Option (List Job))
        → (elim link [
          | none ↦ some no_preview
          | some false ↦ some no_unsub_link
          | some true ↦ elim (check_scrub_job ready jobs) [
            | some true ↦ some scrub_job_running
            | _ ↦ none
          ]
        ])
          ≡ none
        → (link ≡ some true)
          × ((ready ≡ false)
              ⊎ (jobs ≡ none)
              ⊎ ((js : List Job) × (jobs ≡ some js) × All (λ j. j ≢ active) js))
    go none ready jobs h = cc
    go (some false) ready jobs h = cc
    go (some true) false jobs h = (refl, inl refl)
    go (some true) true none h = (refl, inr (inl refl))
    go (some true) true (some js) h = elim (Bool-cases (find_job js)) [
      | inl f ↦ let h' : some scrub_job_running ≡ none = rw (check_scrub_job, f) at h in cc
      | inr f ↦ (refl, inr (inr (js, refl, find_job-none js f)))
    ]

-- What the row of a campaign holds after a request that succeeds.
abbrev pub written : Request → CampaignStatus → Campaign → Campaign
written r s c =
    if not (is paused s) && r.clear_ok then clear_pause_reason (set_status s c) else set_status s c

-- What a handled request leaves: nothing, or the change of one campaign.
abbrev pub Untouched : Option Campaign → Handled → Type 0
Untouched row h =
    (h.row ≡ row) × (h.stopped ≡ false) × ((c : Campaign) → h.response ≢ answered (changed c))

last_step_cases :
    (r : Request) (a : Answer) (read row row' : Option Campaign)
    → ((is_changed a ≡ false) × (row' ≡ row))
      ⊎ ((s : CampaignStatus) × (cm : Campaign) × (c : Campaign) × (r.status ≡ some s)
          × (read ≡ some cm)
          × (row ≡ some c)
          × (a ≡ changed (record cm { status = s }))
          × (row' ≡ some (set_status s c)))
    → Untouched row (finish_update r a row')
      ⊎ ((s : CampaignStatus) × (cm : Campaign) × (c : Campaign) × (r.status ≡ some s)
          × (read ≡ some cm)
          × (row ≡ some c)
          × (a ≡ changed (record cm { status = s }))
          × ((finish_update r a row').stopped ≡ ends s)
          × ((finish_update r a row').row ≡ some (written r s c)))
unfolding finish_update cleared
last_step_cases r (changed a) read row row' (inl (n, w)) = cc
last_step_cases r unreadable read row row' (inl (n, w)) = inl (w, refl, λ c e. cc)
last_step_cases r (refused _) read row row' (inl (n, w)) = inl (w, refl, λ c e. cc)
last_step_cases r failed read row row' (inl (n, w)) = inl (w, refl, λ c e. cc)
last_step_cases r not_found read row row' (inl (n, w)) = inl (w, refl, λ c e. cc)
last_step_cases r a read row row' (inr (s, cm, c, es, er, ew, ea, w)) = inr (
  s,
  cm,
  c,
  es,
  er,
  ew,
  ea,
  rw (ea, es, finish_update) refl,
  rw (w, ea, es, finish_update, cleared) refl,
)

-- A request either leaves the row as it is, does not stop the pipe and answers with no campaign; or
-- the user may manage the campaign, the change is one of those allowed to the campaign that was
-- read, a start has an unsubscribe link and no known validation job, the pipe is stopped exactly
-- for a pause or a cancellation, and the row gets the status and, but for a pause, loses its pause
-- reason unless clearing it fails.
pub handle_status_cases :
    (r : Request) (read row : Option Campaign)
    → let h = handle_status r read row in
      Untouched row h
      ⊎ ((s : CampaignStatus) × (cm : Campaign) × (c : Campaign) × (r.permitted ≡ true)
          × (r.status ≡ some s)
          × (read ≡ some cm)
          × (row ≡ some c)
          × Transition cm s
          × ((starts s ≡ false) ⊎ Startable r)
          × (h.stopped ≡ ends s)
          × (h.row ≡ some (written r s c)))
unfolding handle_status checked
handle_status_cases r read row = go r.permitted r.bound (blocked r) refl refl refl
  where
    u : Answer × Option Campaign
    u = update_campaign_status r.status r.update_ok read row

    go :
        (p b : Bool) (e : Option Hold)
        → r.permitted ≡ p
        → r.bound ≡ b
        → blocked r ≡ e
        → let h = checked p b e row (finish_update r u.0 u.1) in
          Untouched row h
          ⊎ ((s : CampaignStatus) × (cm : Campaign) × (c : Campaign) × (r.permitted ≡ true)
              × (r.status ≡ some s)
              × (read ≡ some cm)
              × (row ≡ some c)
              × Transition cm s
              × ((starts s ≡ false) ⊎ Startable r)
              × (h.stopped ≡ ends s)
              × (h.row ≡ some (written r s c)))
    go false b e ep eb ee = inl (refl, refl, λ c e. cc)
    go true false e ep eb ee = inl (refl, refl, λ c e. cc)
    go true true (some e) ep eb ee = inl (refl, refl, λ c k. cc)
    go true true none ep eb ee =
        elim (last_step_cases r u.0 read row u.1
          (update_campaign_status_cases r.status r.update_ok read row)) [
            | inl k ↦ inl k
            | inr (s, cm, c, es, er, ew, ea, st, w) ↦
                let t =
                  update_campaign_status-Transition s r.update_ok cm row _ (rw (es, er) at ea) in
                inr (s, cm, c, ep, es, er, ew, t, rw es at (blocked-Startable r ee), st, w)
          ]
