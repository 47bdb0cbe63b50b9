-- ===== src/Bounces/Examples.antt =====
-- Tests and worked cases of the bounces.
use listnun.Prelude.{
  ℕ, ◌+◌, ◌≡◌, refl, true, false, Option, none, some, [], ◌∷◌, filter, arith, if◌then◌else◌, ltb,
  text_eq, codes,
}
use listnun.Bounces.{
  SubscriberRow, SubscriberStatus, Db, Bounce, Actions, bounce_action, matches, is_the_one,
  record_bounce, record_times, record_with, record_found, is_bounce_type, count_of, query_failed,
  no_subscriber, invalid_type,
}
use listnun.Bounces.Threshold.{after_block, blocklists_at, record_times-threshold}
use listnun.Bounces.Isolation.{others, record_bounce-others}

abbrev ann : ℕ → SubscriberRow
ann t = record {
  id = 10 + t;
  uuid = codes "5f";
  email = codes "ann@a.example";
  tenant_id = t;
  status = SubscriberStatus.enabled;
}

-- The tenants 1 and 2 have a subscriber of the same address.
abbrev two_tenants : Db
two_tenants = record {
  subscribers = ann 1 ∷ ann 2 ∷ [];
  subscriptions = record { subscriber_id = 12; list_id = 1; unsubscribed = false } ∷ [];
  campaigns = [];
  bounces = [];
}

abbrev hard_bounce : ℕ → Bounce
hard_bounce t = record {
  bounce_type = codes "hard";
  email = codes "ann@a.example";
  subscriber_uuid = [];
  campaign_uuid = [];
  tenant_id = t;
}

abbrev no_settings : ℕ → Option Actions
no_settings t = none

abbrev at_three : Actions
at_three typ = if text_eq typ (codes "hard") then some (blocklists_at 3) else none

-- A mailbox's bounce, which has no tenant, finds both subscribers and is lost.
ambiguous :
    record_bounce no_settings at_three (hard_bounce 0) two_tenants ≡ (two_tenants, query_failed)
unfolding record_bounce record_with bounce_action record_found is_bounce_type matches is_the_one
    text_eq
ambiguous = refl

unknown_address :
    record_bounce no_settings at_three (hard_bounce 3) two_tenants ≡ (two_tenants, no_subscriber)
unfolding record_bounce record_with bounce_action record_found is_bounce_type matches is_the_one
    text_eq
unknown_address = refl

unknown_type :
    record_bounce no_settings at_three
      (record (hard_bounce 1) { bounce_type = codes "soft" })
      two_tenants
    ≡ (two_tenants, invalid_type)
unfolding record_bounce record_with bounce_action text_eq
unknown_type = refl

acts_at_three : bounce_action no_settings at_three 2 (codes "hard") ≡ some (blocklists_at 3)
unfolding bounce_action text_eq
acts_at_three = refl

is_hard : is_bounce_type (codes "hard") ≡ true
unfolding is_bounce_type text_eq
is_hard = refl

finds_ann : filter (matches (hard_bounce 2)) two_tenants.subscribers ≡ ann 2 ∷ []
unfolding matches is_the_one text_eq
finds_ann = refl

no_bounces : count_of 12 (codes "hard") two_tenants.bounces ≡ 0
unfolding count_of
no_bounces = refl

record_times-threshold_example :
    (filter
        (matches (hard_bounce 2))
        (record_times no_settings at_three (hard_bounce 2) 5 two_tenants).subscribers
      ≡ (if ltb 5 3 then ann 2 else after_block (ann 2)) ∷ [])
    × (count_of 12
          (codes "hard")
          (record_times no_settings at_three (hard_bounce 2) 5 two_tenants).bounces
        ≡ (if ltb 5 3 then 5 else 3))
record_times-threshold_example =
    record_times-threshold no_settings at_three (hard_bounce 2) 3 (ann 2) acts_at_three is_hard 5
      two_tenants (omega arith) refl finds_ann no_bounces

record_bounce-others_example :
    others
      (λ i. if ltb 11 i then 2 else 1)
      2
      (record_bounce no_settings at_three (hard_bounce 2) two_tenants).0
    ≡ others (λ i. if ltb 11 i then 2 else 1) 2 two_tenants
record_bounce-others_example =
    record_bounce-others no_settings at_three (hard_bounce 2) (λ i. if ltb 11 i then 2 else 1)
      two_tenants (omega arith) (refl, (refl, tt))
