-- ===== src/Campaign/Scan.antt =====
-- The scan for campaigns over all tenants: scanCampaigns and getCurrentCampaigns of
-- internal/manager/manager.go, with the statement next-campaigns of queries/campaigns.sql.
pub mod Collect
pub mod Counts
use listnun.Prelude.{
  ℕ, zero, suc, ◌+◌, Bool, true, false, not, ◌&&◌, ◌||◌, Option, none, some, List, [], ◌∷◌, ◌++◌,
  map, if◌then◌else◌, leb, ◌==◌,
}
use listnun.Campaign.Status.{CampaignStatus, running, scheduled, Campaign, is}
use listnun.Campaign.Pipe.{Pipe, new_pipe}

-- A pipe in Manager.pipes, as far as the scan reads it.
pub record Running : Type 0 where
  pub id : ℕ
  pub tenant_id : ℕ
  pub sent : ℕ

-- A row of campaigns.
pub record Row : Type 0 where
  pub id : ℕ
  pub tenant_id : ℕ
  pub campaign : Campaign
  pub max_subscriber_id : ℕ
  pub started_at : Option ℕ

-- currentCampaignIDs; `none` is Go's nil slice.
pub record CurrentIds : Type 0 where
  pub ids : Option (List ℕ)
  pub counts : Option (List ℕ)

abbrev pub no_ids : CurrentIds
no_ids = record { ids = none; counts = none }

-- append of one element.
abbrev pub push : Option (List ℕ) → ℕ → Option (List ℕ)
push none n = some (n ∷ [])
push (some ns) n = some (ns ++ (n ∷ []))

-- A Go map from tenants, with the zero value for a tenant that has no entry.
unfoldable pub group_of : ℕ → List (ℕ × CurrentIds) → CurrentIds
group_of t [] = no_ids
group_of t ((k, g) ∷ gs) = let rest = group_of t gs in if k == t then g else rest

unfoldable pub put_group : ℕ → CurrentIds → List (ℕ × CurrentIds) → List (ℕ × CurrentIds)
put_group t g [] = (t, g) ∷ []
put_group t g ((k, h) ∷ gs) =
    let rest = put_group t g gs in if k == t then (k, g) ∷ gs else (k, h) ∷ rest

abbrev pub add_pipe : Running → CurrentIds → CurrentIds
add_pipe p e = record { ids = push e.ids p.id; counts = push e.counts p.sent }

-- The loop of getCurrentCampaigns.
unfoldable pub collect : List Running → List (ℕ × CurrentIds) → List (ℕ × CurrentIds)
collect [] out = out
collect (p ∷ ps) out =
    collect ps (put_group p.tenant_id (add_pipe p (group_of p.tenant_id out)) out)

abbrev pub zeroed : Running → Running
zeroed p = record p { sent = 0 }

unfoldable pub get_current_campaigns : List Running → List (ℕ × CurrentIds) × List Running
get_current_campaigns ps = (collect ps [], map zeroed ps)

-- NOT(id = ANY(ids)), which is not true of a NULL array.
unfoldable pub any_of : ℕ → List ℕ → Bool
any_of i [] = false
any_of i (x ∷ xs) = x == i || any_of i xs

abbrev pub not_any : ℕ → Option (List ℕ) → Bool
not_any i none = false
not_any i (some ids) = not (any_of i ids)

abbrev pub passed : ℕ → Option ℕ → Bool
passed now none = false
passed now (some at) = leb at now

-- The WHERE of `camps`.
unfoldable pub is_next : ℕ → ℕ → Option (List ℕ) → Row → Bool
is_next now t ids r =
    (is r.campaign.status running
      || (is r.campaign.status scheduled && passed now r.campaign.send_at))
    && (r.tenant_id == t && not_any r.id ids)

-- The row of unnest(ids, counts) for an id.
unfoldable pub count_for : ℕ → List ℕ → List ℕ → Option ℕ
count_for i [] counts = none
count_for i (x ∷ xs) [] = none
count_for i (x ∷ xs) (n ∷ ns) = let rest = count_for i xs ns in if x == i then some n else rest

abbrev pub add_sent : Option ℕ → Row → Row
add_sent none r = r
add_sent (some n) r = record r { campaign = record r.campaign { sent = r.campaign.sent + n } }

-- The arrays as the statement reads them: a NULL one has no rows.
abbrev pub rows_of : Option (List ℕ) → List ℕ
rows_of none = []
rows_of (some ns) = ns

unfoldable pub update_sent : CurrentIds → List Row → List Row
update_sent e = map (λ r. add_sent (count_for r.id (rows_of e.ids) (rows_of e.counts)) r)

-- The subscribers of a campaign: how many, and the last one's id; none for a campaign without any.
abbrev pub started_first : ℕ → Option ℕ → Option ℕ
started_first now none = some now
started_first now (some at) = some at

abbrev pub set_counts : ℕ → Option (ℕ × ℕ) → Row → Row
set_counts now none r = r
set_counts now (some (n, last)) r = record r {
  campaign = record r.campaign { status = running; to_send = n };
  max_subscriber_id = last;
  started_at = started_first now r.started_at;
}

unfoldable pub start_next : ℕ → ℕ → Option (List ℕ) → (ℕ → Option (ℕ × ℕ)) → List Row → List Row
start_next now t ids audience =
    map (λ r. if is_next now t ids r then set_counts now (audience r.id) r else r)

unfoldable pub next_rows : ℕ → ℕ → Option (List ℕ) → List Row → List Row
next_rows now t ids [] = []
next_rows now t ids (r ∷ rs) =
    let rest = next_rows now t ids rs in if is_next now t ids r then r ∷ rest else rest

-- What newPipe answers for a campaign: its messenger is there, it loads, the database saves.
pub record Loads : Type 0 where
  pub messenger : Bool
  pub loaded : Bool
  pub saved : Bool

-- A tick's answers: whether a tenant's statement goes through, the campaigns' subscribers, and what
-- newPipe meets.
pub record Tick : Type 0 where
  pub now : ℕ
  pub works : ℕ → Bool
  pub audience : ℕ → Option (ℕ × ℕ)
  pub loads : ℕ → Loads

pub record State : Type 0 where
  pub pipes : List Running
  pub rows : List Row

abbrev pub add_running : Row → Option Pipe → List Running → List Running
add_running r none ps = ps
add_running r (some p) ps =
    ps ++ (record { id = r.id; tenant_id = r.tenant_id; sent = p.sent } ∷ [])

-- newPipe for one campaign. A pipe that finds nextPipes full is stopped, and stays in the map until
-- it is cleaned up.
unfoldable pub open_pipe : Tick → Row → State → State
open_pipe tick r st =
    let l = tick.loads r.id in
    record {
      pipes = add_running r (new_pipe l.messenger l.loaded l.saved r.campaign).0 st.pipes;
      rows =
          map
            (λ x.
              if x.id == r.id
              then record x { campaign = (new_pipe l.messenger l.loaded l.saved x.campaign).1 }
              else x)
            st.rows;
    }

unfoldable pub open_pipes : Tick → List Row → State → State
open_pipes tick [] st = st
open_pipes tick (r ∷ rs) st = open_pipes tick rs (open_pipe tick r st)

-- `e.ids == nil` and `e.counts == nil` become empty slices.
abbrev pub or_empty : Option (List ℕ) → Option (List ℕ)
or_empty none = some []
or_empty (some ns) = some ns

-- The body of the loop over the tenants.
unfoldable pub scan_tenant : Tick → List (ℕ × CurrentIds) → ℕ → State → State
scan_tenant tick current t st =
    let e : CurrentIds = record {
      ids = or_empty (group_of t current).ids;
      counts = or_empty (group_of t current).counts;
    } in
    if tick.works t
    then open_pipes tick (next_rows tick.now t e.ids st.rows)
        (record st { rows = start_next tick.now t e.ids tick.audience (update_sent e st.rows) })
    else st

unfoldable pub scan_tenants : Tick → List (ℕ × CurrentIds) → List ℕ → State → State
scan_tenants tick current [] st = st
scan_tenants tick current (t ∷ ts) st = scan_tenants tick current ts (scan_tenant tick current t st)

-- One tick of scanCampaigns; `none` when GetActiveTenantIDs fails.
unfoldable pub scan : Tick → Option (List ℕ) → State → State
scan tick none st = st
scan tick (some ts) st =
    scan_tenants tick (get_current_campaigns st.pipes).0 ts
      (record st { pipes = (get_current_campaigns st.pipes).1 })
