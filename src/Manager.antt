-- ===== src/Manager.antt =====
-- What the campaign manager keeps by tenant: the templates, messengers, root URLs and tracked links of
-- internal/manager/manager.go. A Go map is a function to options.
pub mod Owners
pub mod Tracking
mod Examples
use listnun.Prelude.{
  ℕ, zero, suc, ◌+◌, ◌*◌, Bool, true, false, ◌&&◌, not, Option, none, some, List, [], ◌∷◌, ◌++◌,
  if◌then◌else◌, ◌==◌, ltb, Text, text_eq, codes,
}

-- A template, as far as its tenant and its text go.
pub record Template : Type 0 where
  pub tenant_id : ℕ
  pub body : Text

pub record Templates : Type 0 where
  pub tpls : ℕ → Option Template
  pub tpl_tenants : ℕ → Option ℕ

-- What ApplyInlineImages and Compile make of a body: it has no images, or it has a new body, which
-- compiles or does not.
pub data Inlined : Type 0 where
  no_images : Inlined
  images : (body : Text) → (compiles : Bool) → Inlined

abbrev pub owner_of : ℕ → ℕ → ℕ
owner_of tenant own = if own == 0 then tenant else own

abbrev pub store_tpl : ℕ → ℕ → Template → Templates → Templates
store_tpl tenant i tpl st = record {
  tpls = λ j. if i == j then some tpl else st.tpls j;
  tpl_tenants = λ j. if i == j then some (owner_of tenant tpl.tenant_id) else st.tpl_tenants j;
}

unfoldable pub cache_tpl : ℕ → ℕ → Template → Inlined → Templates → Templates
cache_tpl tenant i tpl no_images st = store_tpl tenant i tpl st
cache_tpl tenant i tpl (images body false) st = st
cache_tpl tenant i tpl (images body true) st = store_tpl tenant i (record tpl { body = body }) st

unfoldable pub delete_tpl : ℕ → Templates → Templates
delete_tpl i st = record {
  tpls = λ j. if i == j then none else st.tpls j;
  tpl_tenants = λ j. if i == j then none else st.tpl_tenants j;
}

-- The zero value of a missing tenant.
abbrev pub or_zero : Option ℕ → ℕ
or_zero none = 0
or_zero (some n) = n

abbrev pub if_owner : ℕ → ℕ → Option Template → Option Template
if_owner tenant owner none = none
if_owner tenant owner (some tpl) = if owner == tenant then some tpl else none

unfoldable pub get_tpl : ℕ → ℕ → Templates → Option Template
get_tpl tenant i st = if_owner tenant (or_zero (st.tpl_tenants i)) (st.tpls i)

-- What the resolver answers for a tenant's messenger.
pub data Resolved {ℓ} (M : Type ℓ) : Type ℓ where
  no_resolver messenger_not_found resolver_error : Resolved M
  resolved : (m : M) → Resolved M

-- getMessenger: the tenant's, or one that all tenants share.
unfoldable pub get_messenger {ℓ} : {M : Type ℓ} → Resolved M → (Text → Option M) → Text → Option M
get_messenger (resolved m) shared name = some m
get_messenger resolver_error shared name = none
get_messenger no_resolver shared name = shared name
get_messenger messenger_not_found shared name = shared name

-- GetTenantRootURL: an error, or a text that may be empty.
pub data RootUrl : Type 0 where
  root_error : RootUrl
  root_url : (s : Text) → RootUrl

abbrev pub root_or : Text → RootUrl → Text
root_or default root_error = default
root_or default (root_url s) = if text_eq s [] then default else s

-- Manager.links and Manager.tenantURLs, of which only the root is kept: each URL follows from it.
pub record Links : Type 0 where
  pub roots : ℕ → Option Text
  pub links : ℕ → Text → Option Text

abbrev pub cached_root : Option Text → ℕ → Text → Links → Text × Links
cached_root (some root) tenant fresh st = (root, st)
cached_root none tenant fresh st =
    (fresh, record st { roots = λ t. if tenant == t then some fresh else st.roots t })

-- urlsFor, down to the root URL.
unfoldable pub urls_for : Text → RootUrl → ℕ → Links → Text × Links
urls_for default answer tenant st = cached_root (st.roots tenant) tenant (root_or default answer) st

-- strings.ReplaceAll of `&amp;` by `&`.
unfoldable pub unescape : Text → Text
unescape (a ∷ b ∷ c ∷ d ∷ e ∷ s) =
    let rest = unescape s in
    let next = unescape (b ∷ c ∷ d ∷ e ∷ s) in
    if text_eq (a ∷ b ∷ c ∷ d ∷ e ∷ []) (codes "&amp;") then 38 ∷ rest else a ∷ next
unescape s = s

-- fmt.Sprintf of a format and three texts, which is a parameter.
abbrev pub Sprintf : Type 0
Sprintf = Text → Text → Text → Text → Text

-- fmt.Sprintf of LinkTrackURL, whose format has the root in it.
unfoldable pub link_url : Sprintf → Text → Text → Text → Text → Text
link_url sprintf root uuid camp sub = sprintf (root ++ codes "/link/%s/%s/%s") uuid camp sub

-- A call of trackLink: whose link, and what the database answers if it is asked.
pub record Track : Type 0 where
  pub tenant : ℕ
  pub url : Text
  pub campaign : Text
  pub subscriber : Text
  pub root : RootUrl
  pub created : Option Text

abbrev pub register : ℕ → Text → Text → Links → Links
register tenant url uuid st = record st {
  links = λ t u. if tenant == t && text_eq url u then some uuid else st.links t u;
}

-- The link of a cached UUID, or CreateLink and its answer.
abbrev pub link_from :
    Sprintf → Option Text → Option Text → Text → Text → Track → Links → Text × Links
link_from sprintf (some uuid) created root url c st =
    (link_url sprintf root uuid c.campaign c.subscriber, st)
link_from sprintf none none root url c st = (url, st)
link_from sprintf none (some uuid) root url c st =
    (link_url sprintf root uuid c.campaign c.subscriber, register c.tenant url uuid st)

unfoldable pub track_link : Sprintf → Bool → Text → Track → Links → Text × Links
track_link sprintf disabled default c st =
    let url = unescape c.url in
    let (root, st') = urls_for default c.root c.tenant st in
    if disabled
    then (c.url, st)
    else link_from sprintf (st'.links c.tenant url) c.created root url c st'

abbrev pub no_links : Links
no_links = record { roots = λ t. none; links = λ t u. none }

-- Calls one after another.
unfoldable pub track_all : Sprintf → Bool → Text → List Track → Links → List Text × Links
track_all sprintf disabled default [] st = ([], st)
track_all sprintf disabled default (c ∷ cs) st =
    let (link, next) = track_link sprintf disabled default c st in
    let (links, last) = track_all sprintf disabled default cs next in (link ∷ links, last)
