-- ===== src/Campaign/Status/Transitions.antt =====
-- The changes of status that UpdateCampaignStatus lets through, and what they leave in the row.
use listnun.Prelude.{
  ◌≡◌, ◌↔◌, ◌⊎◌, inl, inr, refl, ap, sym, ◌∙◌, Bool, true, false, Option, none, some, List, [], ◌∷◌,
  arith, Option-cases,
}
use listnun.Campaign.Status.{
  CampaignStatus, draft, scheduled, running, paused, finished, cancelled, Campaign, is_set, refusal,
  set_status, Answer, changed, run_update, guard_of, update_campaign_status,
}

-- The changes that a user may ask for, from a campaign to a status.
pub data Transition : Campaign → CampaignStatus → Type 0 where
  unschedules : (c : Campaign) → c.status ≡ scheduled → Transition c draft
  schedules :
      (c : Campaign)
      → is_set c.send_at ≡ true
      → (c.status ≡ draft) ⊎ (c.status ≡ paused)
      → Transition c scheduled
  starts : (c : Campaign) → (c.status ≡ draft) ⊎ (c.status ≡ paused) → Transition c running
  pauses : (c : Campaign) → c.status ≡ running → Transition c paused
  cancels : (c : Campaign) → (c.status ≡ running) ⊎ (c.status ≡ paused) → Transition c cancelled
  finishes : (c : Campaign) → Transition c finished

refusal-sound : (s : CampaignStatus) (c : Campaign) → refusal s c ≡ none → Transition c s
unfolding refusal
refusal-sound draft c h = unschedules c (ground arith)
refusal-sound scheduled c h = schedules c (ground arith) (ground arith)
refusal-sound running c h = starts c (ground arith)
refusal-sound paused c h = pauses c (ground arith)
refusal-sound finished c h = finishes c
refusal-sound cancelled c h = cancels c (ground arith)

refusal_complete : (c : Campaign) (s : CampaignStatus) → Transition c s → refusal s c ≡ none
unfolding refusal
refusal_complete c s (unschedules _ e) = rw e refl
refusal_complete c s (schedules _ a (inl e)) = rw (a, e) refl
refusal_complete c s (schedules _ a (inr e)) = rw (a, e) refl
refusal_complete c s (starts _ (inl e)) = rw e refl
refusal_complete c s (starts _ (inr e)) = rw e refl
refusal_complete c s (pauses _ e) = rw e refl
refusal_complete c s (cancels _ (inl e)) = rw e refl
refusal_complete c s (cancels _ (inr e)) = rw e refl
refusal_complete c s (finishes _) = refl

absurd {ℓ} : {A : Type 0} {B : Type ℓ} {a : A} → some a ≡ none → B
absurd h = cc

abbrev pub is_changed : Answer → Bool
is_changed (changed c) = true
is_changed _ = false

-- UpdateCampaignStatus succeeds exactly when the campaign it read may make the change, the database
-- has no error, and the row is still there. The other changes are refused.
pub update_campaign_status_iff :
    (s : CampaignStatus) (ok : Bool) (cm : Campaign) (row : Option Campaign)
    → (is_changed (update_campaign_status (some s) ok (some cm) row).0 ≡ true)
      ↔ (Transition cm s × (ok ≡ true) × (is_set row ≡ true))
unfolding update_campaign_status guard_of run_update
update_campaign_status_iff s ok cm row = elim (Option-cases (refusal s cm)) [
  | inl e ↦ rw (e, update_campaign_status, guard_of) (go ok row (refusal-sound s cm e))
  | inr (r, e) ↦
      rw (e, update_campaign_status, guard_of)
        (λ h. cc, λ p. absurd (sym e ∙ refusal_complete cm s p.0))
]
  where
    go :
        (ok : Bool) (row : Option Campaign)
        → Transition cm s
        → (is_changed (run_update (some s) ok cm row).0 ≡ true)
          ↔ (Transition cm s × (ok ≡ true) × (is_set row ≡ true))
    go false row t = (λ h. cc, λ p. cc)
    go true none t = (λ h. cc, λ p. cc)
    go true (some c) t = (λ h. (t, refl, refl), λ p. refl)

-- Every error of UpdateCampaignStatus leaves the row as it is. A success writes the requested
-- status to the row, or `scheduled` for a start when the row has a time to send at, whatever the
-- row's status is by then, and returns the campaign that it read with the requested status.
pub update_campaign_status_cases :
    (req : Option CampaignStatus) (ok : Bool) (read row : Option Campaign)
    → let r = update_campaign_status req ok read row in
      ((is_changed r.0 ≡ false) × (r.1 ≡ row))
      ⊎ ((s : CampaignStatus) × (cm : Campaign) × (c : Campaign) × (req ≡ some s)
          × (read ≡ some cm)
          × (row ≡ some c)
          × (r.0 ≡ changed (record cm { status = s }))
          × (r.1 ≡ some (set_status s c)))
unfolding update_campaign_status run_update
update_campaign_status_cases req ok none row = inl (refl, refl)
update_campaign_status_cases req ok (some cm) row = elim (Option-cases (guard_of req cm)) [
  | inl e ↦ rw (e, update_campaign_status) (go req ok row)
  | inr (r, e) ↦ rw (e, update_campaign_status) (inl (refl, refl))
]
  where
    go :
        (req : Option CampaignStatus) (ok : Bool) (row : Option Campaign)
        → let r = run_update req ok cm row in
          ((is_changed r.0 ≡ false) × (r.1 ≡ row))
          ⊎ ((s : CampaignStatus) × (cm' : Campaign) × (c : Campaign) × (req ≡ some s)
              × (some cm ≡ some cm')
              × (row ≡ some c)
              × (r.0 ≡ changed (record cm' { status = s }))
              × (r.1 ≡ some (set_status s c)))
    go none ok row = inl (refl, refl)
    go (some s) false row = inl (refl, refl)
    go (some s) true none = inl (refl, refl)
    go (some s) true (some c) = inr (s, cm, c, refl, refl, refl, refl, refl)

pub update_campaign_status-Transition :
    (s : CampaignStatus) (ok : Bool) (cm : Campaign) (row : Option Campaign) (c : Campaign)
    → (update_campaign_status (some s) ok (some cm) row).0 ≡ changed c
    → Transition cm s
update_campaign_status-Transition s ok cm row c h =
    ((update_campaign_status_iff s ok cm row).0 (ap is_changed h)).0

-- A request together with the answers of the database, of which nothing else changes the row.
unfoldable pub run_requests :
    List (Option CampaignStatus × Bool) → Option Campaign → Option Campaign
run_requests [] row = row
run_requests ((req, ok) ∷ rest) row = run_requests rest (update_campaign_status req ok row row).1

abbrev pub Ended : Campaign → Type 0
Ended c = (c.status ≡ finished) ⊎ (c.status ≡ cancelled)

refusal-Ended : (s : CampaignStatus) (c : Campaign) → Ended c → refusal s c ≡ none → s ≡ finished
unfolding refusal
refusal-Ended s c e h = ground arith

-- A campaign that is finished or cancelled stays so through every sequence of requests.
run_requests-Ended :
    (reqs : List (Option CampaignStatus × Bool)) (c : Campaign)
    → Ended c
    → (c' : Campaign) × (run_requests reqs (some c) ≡ some c') × Ended c'
unfolding run_requests update_campaign_status guard_of run_update set_status
run_requests-Ended [] c e = (c, refl, e)
run_requests-Ended ((req, ok) ∷ rest) c e =
    let (c', h, e') = turn req ok in rw h (run_requests-Ended rest c' e')
  where
    turn :
        (req : Option CampaignStatus) (ok : Bool)
        → (c' : Campaign) × ((update_campaign_status req ok (some c) (some c)).1 ≡ some c')
          × Ended c'
    turn none ok = (c, refl, e)
    turn (some s) ok = elim (Option-cases (refusal s c)) [
      | inr (r, h) ↦ (c, rw (h, update_campaign_status, guard_of) refl, e)
      | inl h ↦ rw (h, update_campaign_status, guard_of, refusal-Ended s c e h) (write ok)
    ]
      where
        write :
            (ok : Bool)
            → (c' : Campaign) × ((run_update (some finished) ok c (some c)).1 ≡ some c') × Ended c'
        write false = (c, refl, e)
        write true = (record c { status = finished }, refl, inl refl)
