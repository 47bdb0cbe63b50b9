-- ===== src/Bounces.antt =====
-- Bounces as internal/core/bounces.go records them with the statement record-bounce of
-- queries/bounces.sql. The order of a table's rows has no meaning.
pub mod Threshold
pub mod Isolation
mod Examples
use listnun.Prelude.{
  ℕ, ◌+◌, ◌≡◌, Bool, true, false, ◌&&◌, ◌||◌, not, Option, none, some, List, [], ◌∷◌, map, filter,
  if◌then◌else◌, ◌==◌, ltb, leb, Text, text_eq, codes,
}

pub data SubscriberStatus : Type 0 where
  enabled disabled blocklisted : SubscriberStatus

pub record SubscriberRow : Type 0 where
  pub id : ℕ
  pub uuid : Text
  pub email : Text
  pub tenant_id : ℕ
  pub status : SubscriberStatus

-- A row of subscriber_lists.
pub record Subscription : Type 0 where
  pub subscriber_id : ℕ
  pub list_id : ℕ
  pub unsubscribed : Bool

pub record CampaignRow : Type 0 where
  pub id : ℕ
  pub uuid : Text
  pub tenant_id : ℕ

-- A row of bounces, without the source, the provider's data and the time.
pub record BounceRow : Type 0 where
  pub subscriber_id : ℕ
  pub campaign_id : Option ℕ
  pub bounce_type : Text
  pub tenant_id : ℕ

pub record Db : Type 0 where
  pub subscribers : List SubscriberRow
  pub subscriptions : List Subscription
  pub campaigns : List CampaignRow
  pub bounces : List BounceRow

-- A bounce as it comes in. Its UUIDs are empty or well formed, and the tenant 0 stands for none.
pub record Bounce : Type 0 where
  pub bounce_type : Text
  pub email : Text
  pub subscriber_uuid : Text
  pub campaign_uuid : Text
  pub tenant_id : ℕ

pub record BounceAction : Type 0 where
  pub count : ℕ
  pub action : Text

abbrev pub Actions : Type 0
Actions = Text → Option BounceAction

abbrev pub or_default : Option BounceAction → Option BounceAction → Option BounceAction
or_default none d = d
or_default (some a) d = some a

-- The entry in the settings of a tenant, which may be unreadable.
abbrev pub entry : Option Actions → Text → Option BounceAction
entry none typ = none
entry (some acts) typ = acts typ

unfoldable pub bounce_action : (ℕ → Option Actions) → Actions → ℕ → Text → Option BounceAction
bounce_action settings defaults tenant typ =
    or_default (if ltb 0 tenant then entry (settings tenant) typ else none) (defaults typ)

abbrev pub is_unset : Text → Bool
is_unset [] = true
is_unset (x ∷ xs) = false

abbrev pub in_scope : ℕ → ℕ → Bool
in_scope tenant own = tenant == 0 || own == tenant

-- Whether a row has the UUID that the bounce names or, when it names none, its e-mail address.
unfoldable pub is_the_one : Bounce → SubscriberRow → Bool
is_the_one b s =
    if is_unset b.subscriber_uuid then text_eq s.email b.email else text_eq s.uuid b.subscriber_uuid

unfoldable pub matches : Bounce → SubscriberRow → Bool
matches b s = is_the_one b s && in_scope b.tenant_id s.tenant_id

unfoldable pub first_id : List CampaignRow → Option ℕ
first_id [] = none
first_id (c ∷ cs) = some c.id

unfoldable pub campaign_of : Bounce → List CampaignRow → Option ℕ
campaign_of b cs =
    if is_unset b.campaign_uuid
    then none
    else first_id
        (filter (λ c. text_eq c.uuid b.campaign_uuid && in_scope b.tenant_id c.tenant_id) cs)

-- How many bounces of a type a subscriber has.
unfoldable pub count_of : ℕ → Text → List BounceRow → ℕ
count_of i typ [] = 0
count_of i typ (r ∷ rs) =
    let rest = count_of i typ rs in
    if r.subscriber_id == i && text_eq r.bounce_type typ then rest + 1 else rest

abbrev pub is_blocklisted : SubscriberStatus → Bool
is_blocklisted SubscriberStatus.blocklisted = true
is_blocklisted _ = false

abbrev pub block : ℕ → SubscriberRow → SubscriberRow
block i s = if s.id == i then record s { status = SubscriberStatus.blocklisted } else s

abbrev pub unsubscribe : ℕ → Subscription → Subscription
unsubscribe i r = if r.subscriber_id == i then record r { unsubscribed = true } else r

-- The new row.
abbrev pub row_for : Bounce → SubscriberRow → List CampaignRow → BounceRow
row_for b s cs = record {
  subscriber_id = s.id;
  campaign_id = campaign_of b cs;
  bounce_type = b.bounce_type;
  tenant_id = s.tenant_id;
}

-- block1, block2 and bounce of record-bounce, when `num` bounces are counted with the new one.
unfoldable pub apply_action : Bounce → BounceAction → SubscriberRow → ℕ → Db → Db
apply_action b a s num db =
    let acts = leb a.count num && not (is_blocklisted s.status) in
    record db {
      subscribers =
          if acts && text_eq a.action (codes "blocklist")
          then map (block s.id) db.subscribers
          else db.subscribers;
      subscriptions =
          if acts && text_eq a.action (codes "unsubscribe")
          then map (unsubscribe s.id) db.subscriptions
          else db.subscriptions;
      bounces =
          if is_blocklisted s.status || ltb a.count num
          then db.bounces
          else row_for b s db.campaigns ∷ db.bounces;
    }

-- The deletion of a subscriber, whose subscriptions and bounces go with it.
unfoldable pub delete_subscriber : ℕ → Db → Db
delete_subscriber i db = record db {
  subscribers = filter (λ s. not (s.id == i)) db.subscribers;
  subscriptions = filter (λ r. not (r.subscriber_id == i)) db.subscriptions;
  bounces = filter (λ r. not (r.subscriber_id == i)) db.bounces;
}

unfoldable pub record_for : Bounce → BounceAction → SubscriberRow → Db → Db
record_for b a s db =
    let num = count_of s.id b.bounce_type db.bounces + 1 in
    let done = apply_action b a s num db in
    if text_eq a.action (codes "delete") && leb a.count num
    then delete_subscriber s.id done
    else done

-- What RecordBounce returns: nil, the error on a type without an action, or the statement's error.
pub data RecordResult : Type 0 where
  recorded no_subscriber invalid_type query_failed : RecordResult

-- The statement on the subscribers found: none violates the row's tenant_id, unless no row was to be
-- written, and RecordBounce ignores that; of more than one, the scalar subqueries fail.
unfoldable pub record_found : Bounce → BounceAction → List SubscriberRow → Db → Db × RecordResult
record_found b a [] db = (db, no_subscriber)
record_found b a (s ∷ []) db = (record_for b a s db, recorded)
record_found b a (s ∷ s' ∷ ss) db = (db, query_failed)

-- The values of the type bounce_type.
unfoldable pub is_bounce_type : Text → Bool
is_bounce_type typ =
    text_eq typ (codes "soft") || (text_eq typ (codes "hard") || text_eq typ (codes "complaint"))

unfoldable pub record_with : Bounce → Option BounceAction → Db → Db × RecordResult
record_with b none db = (db, invalid_type)
record_with b (some a) db =
    if is_bounce_type b.bounce_type
    then record_found b a (filter (matches b) db.subscribers) db
    else (db, query_failed)

unfoldable pub record_bounce : (ℕ → Option Actions) → Actions → Bounce → Db → Db × RecordResult
record_bounce settings defaults b db =
    record_with b (bounce_action settings defaults b.tenant_id b.bounce_type) db

-- A bounce that comes in `n` times.
unfoldable pub record_times : (ℕ → Option Actions) → Actions → Bounce → ℕ → Db → Db
record_times settings defaults b ℕ.zero db = db
record_times settings defaults b (ℕ.suc n) db =
    (record_bounce settings defaults b (record_times settings defaults b n db)).0
