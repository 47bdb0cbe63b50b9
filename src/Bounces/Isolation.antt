-- ===== src/Bounces/Isolation.antt =====
-- A bounce that comes in for a tenant and the rows of the others.
use listnun.Prelude.{
  inl, inr, ◌∙◌, ℕ, ◌+◌, All-imp, ◌<◌, ◌≡◌, refl, ap, Bool, true, false, ◌&&◌, ◌||◌, not, Option,
  none, some, List, [], ◌∷◌, map, arith, All, filter, filter-filter, filter-map_same, filter-All,
  and_parts, Bool-cases, ==_iff, if◌then◌else◌, ◌==◌, ltb, leb, text_eq, codes,
}
use listnun.Bounces.{
  SubscriberRow, Subscription, BounceRow, Db, Bounce, BounceAction, Actions, bounce_action,
  in_scope, is_the_one, matches, block, unsubscribe, row_for, apply_action, delete_subscriber,
  record_for, record_found, is_bounce_type, record_with, record_bounce, query_failed, count_of,
  is_blocklisted,
}

-- The rows of the subscribers whom `owner` gives to another tenant than `t`.
unfoldable pub others : (ℕ → ℕ) → ℕ → Db → List SubscriberRow × (List Subscription × List BounceRow)
others owner t db = (
  filter (λ s. not (owner s.id == t)) db.subscribers,
  (
    filter (λ r. not (owner r.subscriber_id == t)) db.subscriptions,
    filter (λ r. not (owner r.subscriber_id == t)) db.bounces,
  ),
)

-- A row of another tenant is not one of the subscriber's.
other_id : (owner : ℕ → ℕ) (t i j : ℕ) → owner i ≡ t → not (owner j == t) ≡ true → (j == i) ≡ false
other_id owner t i j h k = elim (Bool-cases (j == i)) [
  | inr e ↦ e
  | inl e ↦ let q : owner j ≡ t = ap owner ((==_iff j i).0 e) ∙ h in absurd (ground arith)
]

module _ (owner : ℕ → ℕ) (t i : ℕ) (own : owner i ≡ t) where
  others-block :
      (ss : List SubscriberRow)
      → filter (λ s. not (owner s.id == t)) (map (block i) ss)
        ≡ filter (λ s. not (owner s.id == t)) ss
  others-block ss =
      filter-map_same (λ s. not (owner s.id == t)) (block i)
        (λ s. elim (Bool-cases (s.id == i)) [ inl e ↦ rw e refl | inr e ↦ rw e refl ])
        (λ s k. rw (other_id owner t i s.id own k) refl) ss

  others-unsubscribe :
      (rs : List Subscription)
      → filter (λ r. not (owner r.subscriber_id == t)) (map (unsubscribe i) rs)
        ≡ filter (λ r. not (owner r.subscriber_id == t)) rs
  others-unsubscribe rs =
      filter-map_same (λ r. not (owner r.subscriber_id == t)) (unsubscribe i)
        (λ r. elim (Bool-cases (r.subscriber_id == i)) [ inl e ↦ rw e refl | inr e ↦ rw e refl ])
        (λ r k. rw (other_id owner t i r.subscriber_id own k) refl) rs

  others-removed {ℓ} :
      {A : Type ℓ} (key : A → ℕ) (xs : List A)
      → filter (λ x. not (owner (key x) == t)) (filter (λ x. not (key x == i)) xs)
        ≡ filter (λ x. not (owner (key x) == t)) xs
  others-removed key xs =
      filter-filter (λ x. not (owner (key x) == t)) (λ x. not (key x == i))
        (λ x k. rw (other_id owner t i (key x) own k) refl) xs

  others-delete_subscriber : (db : Db) → others owner t (delete_subscriber i db) ≡ others owner t db
  unfolding others delete_subscriber
  others-delete_subscriber db =
      rw
        (
          others-removed (λ (s : SubscriberRow). s.id) db.subscribers,
          others-removed (λ (r : Subscription). r.subscriber_id) db.subscriptions,
          others-removed (λ (r : BounceRow). r.subscriber_id) db.bounces,
        )
        refl

if_both {ℓ κ} :
    {A : Type ℓ} {B : Type κ} (f : A → B) (c : Bool) (x y : A) (z : B)
    → f x ≡ z
    → f y ≡ z
    → f (if c then x else y) ≡ z
if_both f true x y z h k = h
if_both f false x y z h k = k

own_row :
    (owner : ℕ → ℕ) (t : ℕ) (r : BounceRow) (rs : List BounceRow)
    → owner r.subscriber_id ≡ t
    → filter (λ r. not (owner r.subscriber_id == t)) (r ∷ rs)
      ≡ filter (λ r. not (owner r.subscriber_id == t)) rs
own_row owner t r rs h = rw ((==_iff (owner r.subscriber_id) t).1 h) refl

module _ (owner : ℕ → ℕ) (t : ℕ) (b : Bounce) (a : BounceAction) where
  others-apply_action :
      (s : SubscriberRow) (num : ℕ) (db : Db)
      → owner s.id ≡ t
      → others owner t (apply_action b a s num db) ≡ others owner t db
  unfolding others apply_action
  others-apply_action s num db own =
      let acts = leb a.count num && not (is_blocklisted s.status) in
      rw
        (
          if_both (filter (λ x. not (owner x.id == t)))
              (acts && text_eq a.action (codes "blocklist")) (map (block s.id) db.subscribers)
              db.subscribers (filter (λ x. not (owner x.id == t)) db.subscribers)
              (others-block owner t s.id own db.subscribers) refl,
          if_both (filter (λ r. not (owner r.subscriber_id == t)))
              (acts && text_eq a.action (codes "unsubscribe"))
              (map (unsubscribe s.id) db.subscriptions) db.subscriptions
              (filter (λ r. not (owner r.subscriber_id == t)) db.subscriptions)
              (others-unsubscribe owner t s.id own db.subscriptions) refl,
          if_both (filter (λ r. not (owner r.subscriber_id == t)))
              (is_blocklisted s.status || ltb a.count num) db.bounces
              (row_for b s db.campaigns ∷ db.bounces)
              (filter (λ r. not (owner r.subscriber_id == t)) db.bounces) refl
              (own_row owner t (row_for b s db.campaigns) db.bounces own),
        )
        refl

  others-record_found :
      (ss : List SubscriberRow) (db : Db)
      → All (λ s. owner s.id ≡ t) ss
      → others owner t (record_found b a ss db).0 ≡ others owner t db
  unfolding record_found record_for
  others-record_found [] db own = refl
  others-record_found (s ∷ s' ∷ ss) db own = refl
  others-record_found (s ∷ []) db own =
      let num = count_of s.id b.bounce_type db.bounces + 1 in
      let done = apply_action b a s num db in
      let same = others-apply_action s num db own.0 in
      if_both (others owner t) (text_eq a.action (codes "delete") && leb a.count num)
        (delete_subscriber s.id done) done (others owner t db)
        (others-delete_subscriber owner t s.id own.0 done ∙ same) same

-- A subscriber whom a bounce of a tenant matches is the tenant's.
matches-tenant :
    (b : Bounce) (s : SubscriberRow)
    → 0 < b.tenant_id
    → matches b s ≡ true
    → s.tenant_id ≡ b.tenant_id
unfolding matches
matches-tenant b s h k =
    let q = (and_parts (is_the_one b s) (in_scope b.tenant_id s.tenant_id) k).1 in ground (arith, q)

found-own :
    (owner : ℕ → ℕ) (b : Bounce) (ss : List SubscriberRow)
    → 0 < b.tenant_id
    → All (λ s. owner s.id ≡ s.tenant_id) ss
    → All (λ s. owner s.id ≡ b.tenant_id) (filter (matches b) ss)
found-own owner b ss h own =
    All-imp (λ s. (owner s.id ≡ s.tenant_id) × (matches b s ≡ true)) (λ s. owner s.id ≡ b.tenant_id)
      (λ s p. p.0 ∙ matches-tenant b s h p.1) (filter (matches b) ss)
      (filter-All (matches b) (λ s. owner s.id ≡ s.tenant_id) ss own)

-- A bounce that comes in for a tenant leaves the subscribers, the subscriptions and the bounces of
-- all other tenants as they are, whatever its e-mail address and its action, when each subscriber
-- has one owner, the tenant in its row.
pub record_bounce-others :
    (settings : ℕ → Option Actions) (defaults : Actions) (b : Bounce) (owner : ℕ → ℕ) (db : Db)
    → 0 < b.tenant_id
    → All (λ s. owner s.id ≡ s.tenant_id) db.subscribers
    → others owner b.tenant_id (record_bounce settings defaults b db).0
      ≡ others owner b.tenant_id db
unfolding record_bounce record_with
record_bounce-others settings defaults b owner db h own =
    go (bounce_action settings defaults b.tenant_id b.bounce_type)
  where
    go :
        (o : Option BounceAction)
        → others owner b.tenant_id (record_with b o db).0 ≡ others owner b.tenant_id db
    go none = refl
    go (some a) =
        if_both (λ r. others owner b.tenant_id r.0) (is_bounce_type b.bounce_type)
          (record_found b a (filter (matches b) db.subscribers) db) (db, query_failed)
          (others owner b.tenant_id db)
          (others-record_found owner b.tenant_id b a (filter (matches b) db.subscribers) db
            (found-own owner b db.subscribers h own))
          refl
