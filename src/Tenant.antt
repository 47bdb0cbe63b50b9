-- ===== src/Tenant.antt =====
-- The tenant that a request is for: internal/tenant/resolve.go with the lookups of
-- internal/core/tenants.go and queries/tenants.sql. Text is ASCII.
pub mod Hosts
pub mod Serving
mod Examples
use listnun.Prelude.{
  ℕ, ◌+◌, Bool, true, false, ◌&&◌, ◌||◌, not, Option, none, some, List, [], ◌∷◌, ◌++◌, map,
  if◌then◌else◌, leb, Text, text_eq, codes, has_prefix,
}

pub record Tenant : Type 0 where
  pub id : ℕ
  pub slug : Text
  pub status : Text
  pub custom_domain : Option Text

pub record WebRequest : Type 0 where
  pub method : Text
  pub path : Text
  pub host : Text

pub record SiteConfig : Type 0 where
  pub root_domain : Text
  pub console_url : Text
  pub enabled : Bool

abbrev pub is_none : Text → Bool
is_none [] = true
is_none (c ∷ s) = false

-- strings.TrimSuffix
unfoldable pub trim_suffix : Text → Text → Text
trim_suffix [] suffix = []
trim_suffix (c ∷ s) suffix =
    let rest = trim_suffix s suffix in if text_eq (c ∷ s) suffix then [] else c ∷ rest

-- What a lookup answers: an error of the query, no row or the first one.
pub data Lookup : Type 0 where
  query_failed no_tenant : Lookup
  found : (t : Tenant) → Lookup

unfoldable pub first_with_slug : List Tenant → Text → Lookup
first_with_slug [] slug = no_tenant
first_with_slug (t ∷ ts) slug =
    let rest = first_with_slug ts slug in if text_eq t.slug slug then found t else rest

-- The table of tenants is `none` when the query fails.
unfoldable pub get_tenant_by_slug : Option (List Tenant) → Text → Lookup
get_tenant_by_slug none slug = query_failed
get_tenant_by_slug (some ts) slug = first_with_slug ts slug

abbrev lower_ascii : ℕ → ℕ
lower_ascii c = if leb 65 c && leb c 90 then c + 32 else c

abbrev pub lowered : Text → Text
lowered s = map lower_ascii s

abbrev has_domain : Option Text → Text → Bool
has_domain none host = false
has_domain (some d) host = text_eq (lowered d) (lowered host)

unfoldable pub first_with_domain : List Tenant → Text → Lookup
first_with_domain [] host = no_tenant
first_with_domain (t ∷ ts) host =
    let rest = first_with_domain ts host in
    if has_domain t.custom_domain host then found t else rest

unfoldable pub get_tenant_by_custom_domain : Option (List Tenant) → Text → Lookup
get_tenant_by_custom_domain none host = query_failed
get_tenant_by_custom_domain (some ts) host = first_with_domain ts host

unfoldable pub resolve_slug : Option (List Tenant) → Text → Text → Lookup
resolve_slug tenants host slug =
    if not (text_eq slug host) && not (is_none slug)
    then get_tenant_by_slug tenants slug
    else get_tenant_by_custom_domain tenants host

unfoldable pub resolve_tenant : Option (List Tenant) → Text → Text → Lookup
resolve_tenant tenants host root = resolve_slug tenants host (trim_suffix host (codes "." ++ root))

abbrev pub is_admin_page : Text → Bool
is_admin_page p =
    text_eq p (codes "/") || (text_eq p (codes "/admin") || has_prefix p (codes "/admin/"))

unfoldable pub unavailable_redirect : WebRequest → Text → Text → Text
unavailable_redirect r status console =
    if is_none console || not (text_eq r.method (codes "GET"))
    then []
    else if not (is_admin_page r.path)
    then []
    else if text_eq status (codes "suspended")
    then trim_suffix console (codes "/") ++ codes "/billing"
    else trim_suffix console (codes "/")

-- What the middleware does: it goes on with a tenant, or answers 302, 404 or 503.
pub data Outcome : Type 0 where
  next : (t : Tenant) → Outcome
  redirect : (url : Text) → Outcome
  not_found unavailable : Outcome

abbrev pub default_tenant : Tenant
default_tenant = record {
  id = 1;
  slug = codes "default";
  status = codes "active";
  custom_domain = none;
}

abbrev pub or_whole : Option Text → Text → Text
or_whole none host = host
or_whole (some h) host = h

abbrev pub redirect_or_fail : Text → Outcome
redirect_or_fail [] = unavailable
redirect_or_fail (c ∷ u) = redirect (c ∷ u)

unfoldable pub serve_tenant : SiteConfig → WebRequest → Lookup → Outcome
serve_tenant cfg r query_failed = not_found
serve_tenant cfg r no_tenant = not_found
serve_tenant cfg r (found t) =
    if text_eq t.status (codes "active")
    then next t
    else redirect_or_fail (unavailable_redirect r t.status cfg.console_url)

abbrev pub is_exempt : SiteConfig → WebRequest → Bool
is_exempt cfg r = not cfg.enabled || has_prefix r.path (codes "/api/operator/")

-- `split_host_port` is net.SplitHostPort, with the host alone.
unfoldable pub middleware :
    (Text → Option Text) → Option (List Tenant) → SiteConfig → WebRequest → Outcome
middleware split_host_port tenants cfg r =
    if is_exempt cfg r
    then next default_tenant
    else serve_tenant cfg r
        (resolve_tenant tenants (or_whole (split_host_port r.host) r.host) cfg.root_domain)
