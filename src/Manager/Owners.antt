-- ===== src/Manager/Owners.antt =====
-- That the template cache of internal/manager/manager.go keeps the tenants apart.
use listnun.Prelude.{
  ℕ, ◌≡◌, refl, Bool, true, false, Option, none, some, List, [], ◌∷◌, if◌then◌else◌, ◌==◌,
}
use listnun.Manager.{
  Template, Templates, Inlined, no_images, images, owner_of, cache_tpl, delete_tpl, or_zero,
  if_owner, get_tpl,
}

-- The calls that change the cache.
pub data Call : Type 0 where
  caches : (tenant : ℕ) → (i : ℕ) → (tpl : Template) → (inlined : Inlined) → Call
  deletes : (i : ℕ) → Call

pub run_calls : List Call → Templates → Templates
run_calls [] st = st
run_calls (caches tenant i tpl inlined ∷ cs) st = run_calls cs (cache_tpl tenant i tpl inlined st)
run_calls (deletes i ∷ cs) st = run_calls cs (delete_tpl i st)

pub no_templates : Templates
no_templates = record { tpls = λ i. none; tpl_tenants = λ i. none }

-- What one call makes of a template and its owner.
pub stored : ℕ → Template → Inlined → Option (ℕ × Template) → Option (ℕ × Template)
stored tenant tpl no_images last = some (owner_of tenant tpl.tenant_id, tpl)
stored tenant tpl (images body false) last = last
stored tenant tpl (images body true) last =
    some (owner_of tenant tpl.tenant_id, record tpl { body = body })

-- The owner and the template of an id after calls: those of the last one that stored or deleted it.
pub latest : ℕ → List Call → Option (ℕ × Template) → Option (ℕ × Template)
latest i [] last = last
latest i (caches tenant j tpl inlined ∷ cs) last =
    latest i cs (if j == i then stored tenant tpl inlined last else last)
latest i (deletes j ∷ cs) last = latest i cs (if j == i then none else last)

pub shown : ℕ → Option (ℕ × Template) → Option Template
shown tenant none = none
shown tenant (some (owner, tpl)) = if owner == tenant then some tpl else none

tpl_part : Option (ℕ × Template) → Option Template
tpl_part none = none
tpl_part (some (owner, tpl)) = some tpl

owner_part : Option (ℕ × Template) → Option ℕ
owner_part none = none
owner_part (some (owner, tpl)) = some owner

-- The two maps agree with a template and its owner.
Sync : Templates → ℕ → Option (ℕ × Template) → Type 0
Sync st i last = (st.tpls i ≡ tpl_part last) × (st.tpl_tenants i ≡ owner_part last)

-- A change of one entry of both maps.
set_entry : ℕ → Option (ℕ × Template) → Templates → Templates
set_entry j entry st = record {
  tpls = λ k. if j == k then tpl_part entry else st.tpls k;
  tpl_tenants = λ k. if j == k then owner_part entry else st.tpl_tenants k;
}

set_entry-Sync :
    (i j : ℕ) (st : Templates) (entry last : Option (ℕ × Template))
    → Sync st i last
    → Sync (set_entry j entry st) i (if j == i then entry else last)
unfolding Sync set_entry
set_entry-Sync i j st entry last (p, q) = (go_tpl (j == i), go_owner (j == i))
  where
    go_tpl :
        (b : Bool)
        → (if b then tpl_part entry else st.tpls i) ≡ tpl_part (if b then entry else last)
    go_tpl true = refl
    go_tpl false = p

    go_owner :
        (b : Bool)
        → (if b then owner_part entry else st.tpl_tenants i)
          ≡ owner_part (if b then entry else last)
    go_owner true = refl
    go_owner false = q

same-Sync :
    (b : Bool) (st : Templates) (i : ℕ) (last : Option (ℕ × Template))
    → Sync st i last
    → Sync st i (if b then last else last)
same-Sync true st i last h = h
same-Sync false st i last h = h

cache_tpl-Sync :
    (i tenant j : ℕ) (tpl : Template) (inlined : Inlined) (st : Templates)
    (last : Option (ℕ × Template))
    → Sync st i last
    → Sync
        (cache_tpl tenant j tpl inlined st)
        i
        (if j == i then stored tenant tpl inlined last else last)
unfolding cache_tpl stored set_entry tpl_part owner_part
cache_tpl-Sync i tenant j tpl no_images st last h =
    set_entry-Sync i j st (some (owner_of tenant tpl.tenant_id, tpl)) last h
cache_tpl-Sync i tenant j tpl (images body false) st last h = same-Sync (j == i) st i last h
cache_tpl-Sync i tenant j tpl (images body true) st last h =
    set_entry-Sync i j st (some (owner_of tenant tpl.tenant_id, record tpl { body = body })) last h

delete_tpl-Sync :
    (i j : ℕ) (st : Templates) (last : Option (ℕ × Template))
    → Sync st i last
    → Sync (delete_tpl j st) i (if j == i then none else last)
unfolding delete_tpl set_entry tpl_part owner_part
delete_tpl-Sync i j st last h = set_entry-Sync i j st none last h

run_calls-Sync :
    (i : ℕ) (cs : List Call) (st : Templates) (last : Option (ℕ × Template))
    → Sync st i last
    → Sync (run_calls cs st) i (latest i cs last)
unfolding run_calls latest
run_calls-Sync i [] st last h = h
run_calls-Sync i (caches tenant j tpl inlined ∷ cs) st last h =
    run_calls-Sync i cs (cache_tpl tenant j tpl inlined st) _
      (cache_tpl-Sync i tenant j tpl inlined st last h)
run_calls-Sync i (deletes j ∷ cs) st last h =
    run_calls-Sync i cs (delete_tpl j st) _ (delete_tpl-Sync i j st last h)

if_owner-shown :
    (tenant : ℕ) (last : Option (ℕ × Template))
    → if_owner tenant (or_zero (owner_part last)) (tpl_part last) ≡ shown tenant last
unfolding owner_part tpl_part shown
if_owner-shown tenant none = refl
if_owner-shown tenant (some (owner, tpl)) = refl

no_templates-Sync : (i : ℕ) → Sync no_templates i none
unfolding Sync no_templates tpl_part owner_part
no_templates-Sync i = (refl, refl)

-- However templates are cached and deleted, GetTpl shows a tenant the template that was stored last
-- under an id when that tenant owns it, and nothing when another tenant does or it was deleted.
pub get_tpl-latest :
    (cs : List Call) (tenant i : ℕ)
    → get_tpl tenant i (run_calls cs no_templates) ≡ shown tenant (latest i cs none)
unfolding get_tpl Sync
get_tpl-latest cs tenant i =
    let (p, q) = run_calls-Sync i cs no_templates none (no_templates-Sync i) in
    rw (p, q) (if_owner-shown tenant (latest i cs none))
