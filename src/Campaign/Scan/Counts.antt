-- ===== src/Campaign/Scan/Counts.antt =====
-- Where the sent counts go that a scan of internal/manager/manager.go takes from the pipes.
use listnun.Prelude.{
  ℕ, ◌+◌, ◌≡◌, refl, ap, ◌∙◌, inl, inr, Bool, true, false, Option, none, some, List, [], ◌∷◌, map,
  All, All-append, if◌then◌else◌, ◌==◌, ==_iff, Bool-cases,
}
use listnun.Campaign.Status.{Campaign, set_status}
use listnun.Campaign.Pipe.{new_pipe, fresh_pipe}
use listnun.Campaign.Scan.{
  Running, Row, CurrentIds, group_of, collect, zeroed, get_current_campaigns, is_next, count_for,
  add_sent, rows_of, update_sent, set_counts, start_next, next_rows, Tick, State, add_running,
  open_pipe, open_pipes, or_empty, scan_tenant, scan_tenants, scan,
}
use listnun.Campaign.Scan.Collect.{pending, found, current-found}

-- The sent count of a campaign's row.
unfoldable pub row_sent : ℕ → List Row → Option ℕ
row_sent i [] = none
row_sent i (r ∷ rs) = let rest = row_sent i rs in if r.id == i then some r.campaign.sent else rest

pub plus : Option ℕ → Option ℕ → Option ℕ
plus none o = none
plus (some s) none = some s
plus (some s) (some n) = some (s + n)

row_sent-map :
    (i : ℕ) (f : Row → Row)
    → ((r : Row) → (f r).id ≡ r.id)
    → ((r : Row) → (f r).campaign.sent ≡ r.campaign.sent)
    → (rows : List Row) → row_sent i (map f rows) ≡ row_sent i rows
unfolding row_sent
row_sent-map i f p q [] = refl
row_sent-map i f p q (r ∷ rs) = rw (p r, q r, row_sent-map i f p q rs) refl

add_sent_id : (o : Option ℕ) (r : Row) → (add_sent o r).id ≡ r.id
add_sent_id none r = refl
add_sent_id (some n) r = refl

row_sent-update_sent :
    (i : ℕ) (e : CurrentIds) (rows : List Row)
    → row_sent i (update_sent e rows) ≡ plus (row_sent i rows) (found i e)
unfolding row_sent update_sent found plus
row_sent-update_sent i e [] = refl
row_sent-update_sent i e (r ∷ rs) = elim (Bool-cases (r.id == i)) [
  | inl c ↦
      rw (add_sent_id (count_for r.id (rows_of e.ids) (rows_of e.counts)) r, c)
        (own r.id i ((==_iff r.id i).0 c))
  | inr c ↦
      rw (add_sent_id (count_for r.id (rows_of e.ids) (rows_of e.counts)) r, c)
        (row_sent-update_sent i e rs)
]
  where
    by : (o : Option ℕ) → some (add_sent o r).campaign.sent ≡ plus (some r.campaign.sent) o
    by none = refl
    by (some n) = refl

    own :
        (x y : ℕ)
        → x ≡ y
        → some (add_sent (count_for x (rows_of e.ids) (rows_of e.counts)) r).campaign.sent
          ≡ plus (some r.campaign.sent) (count_for y (rows_of e.ids) (rows_of e.counts))
    own x y q = rw q (by (count_for y (rows_of e.ids) (rows_of e.counts)))

set_counts_keeps :
    (now : ℕ) (o : Option (ℕ × ℕ)) (r : Row)
    → ((set_counts now o r).id ≡ r.id) × ((set_counts now o r).campaign.sent ≡ r.campaign.sent)
set_counts_keeps now none r = (refl, refl)
set_counts_keeps now (some (n, last)) r = (refl, refl)

row_sent-start_next :
    (i now t : ℕ) (ids : Option (List ℕ)) (audience : ℕ → Option (ℕ × ℕ)) (rows : List Row)
    → row_sent i (start_next now t ids audience rows) ≡ row_sent i rows
unfolding start_next
row_sent-start_next i now t ids audience rows =
    row_sent-map i _ (λ r. (keeps r (is_next now t ids r)).0)
      (λ r. (keeps r (is_next now t ids r)).1) rows
  where
    keeps :
        (r : Row) (b : Bool)
        → ((if b then set_counts now (audience r.id) r else r).id ≡ r.id)
          × ((if b then set_counts now (audience r.id) r else r).campaign.sent ≡ r.campaign.sent)
    keeps r true = set_counts_keeps now (audience r.id) r
    keeps r false = (refl, refl)

new_pipe_sent :
    (messenger loaded saved : Bool) (c : Campaign)
    → (new_pipe messenger loaded saved c).1.sent ≡ c.sent
unfolding new_pipe set_status
new_pipe_sent false loaded true c = refl
new_pipe_sent false loaded false c = refl
new_pipe_sent true false saved c = refl
new_pipe_sent true true saved c = refl

-- The pipes have all been read.
abbrev pub Read : Running → Type 0
Read p = p.sent ≡ 0

add_running-Read :
    (r : Row) (messenger loaded saved : Bool) (ps : List Running)
    → All Read ps
    → All Read (add_running r (new_pipe messenger loaded saved r.campaign).0 ps)
unfolding new_pipe fresh_pipe
add_running-Read r false loaded saved ps h = h
add_running-Read r true false saved ps h = h
add_running-Read r true true saved ps h = All-append Read ps _ h (refl, tt)

row_sent-open_pipe :
    (tick : Tick) (i : ℕ) (r : Row) (st : State)
    → row_sent i (open_pipe tick r st).rows ≡ row_sent i st.rows
unfolding open_pipe
row_sent-open_pipe tick i r st =
    row_sent-map i _ (λ x. (keeps x (x.id == r.id)).0) (λ x. (keeps x (x.id == r.id)).1) st.rows
  where
    opened : Row → Row
    opened x = record x {
      campaign =
          (new_pipe (tick.loads r.id).messenger (tick.loads r.id).loaded (tick.loads r.id).saved
            x.campaign).1;
    }

    keeps :
        (x : Row) (b : Bool)
        → ((if b then opened x else x).id ≡ x.id)
          × ((if b then opened x else x).campaign.sent ≡ x.campaign.sent)
    keeps x true = (
      refl,
      new_pipe_sent (tick.loads r.id).messenger (tick.loads r.id).loaded (tick.loads r.id).saved
          x.campaign,
    )
    keeps x false = (refl, refl)

open_pipe-Read :
    (tick : Tick) (r : Row) (st : State) → All Read st.pipes → All Read (open_pipe tick r st).pipes
unfolding open_pipe
open_pipe-Read tick r st h =
    add_running-Read r (tick.loads r.id).messenger (tick.loads r.id).loaded (tick.loads r.id).saved
      st.pipes h

-- Opening pipes leaves the rows' counts, and their own are zero.
open_pipes_keeps :
    (tick : Tick) (i : ℕ) (next : List Row) (st : State)
    → All Read st.pipes
    → (row_sent i (open_pipes tick next st).rows ≡ row_sent i st.rows)
      × All Read (open_pipes tick next st).pipes
unfolding open_pipes open_pipe
open_pipes_keeps tick i [] st h = (refl, h)
open_pipes_keeps tick i (r ∷ rs) st h =
    let (p, q) = open_pipes_keeps tick i rs (open_pipe tick r st) (open_pipe-Read tick r st h) in
    (p ∙ row_sent-open_pipe tick i r st, q)

-- What the statement of one tenant writes to a row: the count of the tenant's pipe.
pub write_one : Bool → Option ℕ → Option ℕ → Option ℕ
write_one works count sent = if works then plus sent count else sent

or_empty-found :
    (i : ℕ) (g : CurrentIds)
    → found i (record { ids = or_empty g.ids; counts = or_empty g.counts }) ≡ found i g
unfolding found
or_empty-found i g = go g.ids g.counts
  where
    go :
        (a b : Option (List ℕ))
        → count_for i (rows_of (or_empty a)) (rows_of (or_empty b))
          ≡ count_for i (rows_of a) (rows_of b)
    go none none = refl
    go none (some b) = refl
    go (some a) none = refl
    go (some a) (some b) = refl

scan_tenant_keeps :
    (tick : Tick) (current : List (ℕ × CurrentIds)) (t i : ℕ) (st : State)
    → All Read st.pipes
    → (row_sent i (scan_tenant tick current t st).rows
        ≡ write_one (tick.works t) (found i (group_of t current)) (row_sent i st.rows))
      × All Read (scan_tenant tick current t st).pipes
unfolding scan_tenant write_one
scan_tenant_keeps tick current t i st h = elim (Bool-cases (tick.works t)) [
  | inl e ↦ rw e (
      go (
        open_pipes_keeps tick i (next_rows tick.now t (or_empty (group_of t current).ids) st.rows)
          next h))
  | inr e ↦ rw e (refl, h)
]
  where
    e : CurrentIds
    e = record {
      ids = or_empty (group_of t current).ids;
      counts = or_empty (group_of t current).counts;
    }

    next : State
    next = record st { rows = start_next tick.now t e.ids tick.audience (update_sent e st.rows) }

    go :
        (row_sent i (open_pipes tick (next_rows tick.now t e.ids st.rows) next).rows
            ≡ row_sent i next.rows)
          × All Read (open_pipes tick (next_rows tick.now t e.ids st.rows) next).pipes
        → (row_sent i (open_pipes tick (next_rows tick.now t e.ids st.rows) next).rows
            ≡ plus (row_sent i st.rows) (found i (group_of t current)))
          × All Read (open_pipes tick (next_rows tick.now t e.ids st.rows) next).pipes
    go (p, q) = (
      p
          ∙ row_sent-start_next i tick.now t e.ids tick.audience (update_sent e st.rows)
          ∙ row_sent-update_sent i e st.rows
          ∙ ap (plus (row_sent i st.rows)) (or_empty-found i (group_of t current)),
      q,
    )

-- What the statements of several tenants write to a row, one after another.
pub write_all : (ℕ → Bool) → (ℕ → Option ℕ) → List ℕ → Option ℕ → Option ℕ
write_all works count [] sent = sent
write_all works count (t ∷ ts) sent = write_all works count ts (write_one (works t) (count t) sent)

write_all-cong :
    (works : ℕ → Bool) (f g : ℕ → Option ℕ)
    → ((t : ℕ) → f t ≡ g t)
    → (ts : List ℕ) (sent : Option ℕ) → write_all works f ts sent ≡ write_all works g ts sent
unfolding write_all
write_all-cong works f g h [] sent = refl
write_all-cong works f g h (t ∷ ts) sent = rw (h t) (write_all-cong works f g h ts _)

scan_tenants_keeps :
    (tick : Tick) (current : List (ℕ × CurrentIds)) (i : ℕ) (ts : List ℕ) (st : State)
    → All Read st.pipes
    → (row_sent i (scan_tenants tick current ts st).rows
        ≡ write_all tick.works (λ t. found i (group_of t current)) ts (row_sent i st.rows))
      × All Read (scan_tenants tick current ts st).pipes
unfolding scan_tenants write_all
scan_tenants_keeps tick current i [] st h = (refl, h)
scan_tenants_keeps tick current i (t ∷ ts) st h =
    let (p, q) = scan_tenant_keeps tick current t i st h in
    let (p', q') = scan_tenants_keeps tick current i ts (scan_tenant tick current t st) q in
    (p' ∙ ap (write_all tick.works (λ t. found i (group_of t current)) ts) p, q')

zeroed-Read : (ps : List Running) → All Read (map zeroed ps)
zeroed-Read [] = tt
zeroed-Read (p ∷ ps) = (refl, zeroed-Read ps)

-- A scan takes every pipe's count, and adds it to the campaign's row once for each time that it
-- visits the campaign's tenant and the statement goes through: so once, when the tenant is active
-- and its statement works, and not at all otherwise, when the count is lost.
pub scan_counts :
    (tick : Tick) (ts : List ℕ) (i : ℕ) (st : State)
    → (row_sent i (scan tick (some ts) st).rows
        ≡ write_all tick.works (λ t. pending t i st.pipes) ts (row_sent i st.rows))
      × All (λ p. p.sent ≡ 0) (scan tick (some ts) st).pipes
unfolding scan get_current_campaigns
scan_counts tick ts i st =
    let (p, q) =
      scan_tenants_keeps tick (collect st.pipes []) i ts (record st { pipes = map zeroed st.pipes })
        (zeroed-Read st.pipes) in
    (p ∙ write_all-cong tick.works _ _ (λ t. current-found t i st.pipes) ts (row_sent i st.rows), q)
