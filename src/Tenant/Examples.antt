-- ===== src/Tenant/Examples.antt =====
-- Tests and worked cases of the tenant that a request is for.
use listnun.Prelude.{
  ◌≡◌, ◌≢◌, refl, ◌⊎◌, true, false, Option, none, some, List, [], ◌∷◌, ◌++◌, Text, text_eq, codes,
  has_prefix,
}
use listnun.Tenant.{
  Tenant, WebRequest, SiteConfig, next, redirect, not_found, unavailable, trim_suffix,
  get_tenant_by_slug, first_with_slug, no_tenant, get_tenant_by_custom_domain, resolve_slug,
  resolve_tenant, unavailable_redirect, serve_tenant, middleware,
}
use listnun.Tenant.Hosts.{resolve_tenant_cases}
use listnun.Tenant.Serving.{Right, middleware-Right}

abbrev acme : Tenant
acme = record { id = 2; slug = codes "acme"; status = codes "active"; custom_domain = none }

-- Its custom domain looks like a subdomain.
abbrev owing : Tenant
owing = record {
  id = 3;
  slug = codes "owing";
  status = codes "suspended";
  custom_domain = some (codes "news.listnun.dev");
}

abbrev tenants : Option (List Tenant)
tenants = some (acme ∷ owing ∷ [])

abbrev site : SiteConfig
site = record {
  root_domain = codes "listnun.dev";
  console_url = codes "https://listnun.dev/";
  enabled = true;
}

abbrev no_port : Text → Option Text
no_port host = none

abbrev get : Text → Text → WebRequest
get host path = record { method = codes "GET"; path = path; host = host }

goes_on :
    middleware no_port tenants site (get (codes "acme.listnun.dev") (codes "/api/lists"))
    ≡ next acme
unfolding middleware resolve_tenant resolve_slug trim_suffix text_eq has_prefix get_tenant_by_slug
    first_with_slug serve_tenant
goes_on = refl

goes_to_billing :
    middleware no_port tenants site (get (codes "owing.listnun.dev") (codes "/admin/campaigns"))
    ≡ redirect (codes "https://listnun.dev/billing")
unfolding middleware resolve_tenant resolve_slug trim_suffix text_eq has_prefix get_tenant_by_slug
    first_with_slug serve_tenant unavailable_redirect
goes_to_billing = refl

unsubscribing :
    middleware no_port tenants site
      (get (codes "owing.listnun.dev") (codes "/subscription/abc/def"))
    ≡ unavailable
unfolding middleware resolve_tenant resolve_slug trim_suffix text_eq has_prefix get_tenant_by_slug
    first_with_slug serve_tenant unavailable_redirect
unsubscribing = refl

-- A custom domain under the root domain is taken for a slug, and is never found.
hidden_domain : resolve_tenant tenants (codes "news.listnun.dev") (codes "listnun.dev") ≡ no_tenant
unfolding resolve_tenant resolve_slug trim_suffix text_eq get_tenant_by_slug first_with_slug
hidden_domain = refl

-- While the database is out, every host has no workspace.
outage : middleware no_port none site (get (codes "acme.listnun.dev") (codes "/admin")) ≡ not_found
unfolding middleware resolve_tenant resolve_slug trim_suffix text_eq has_prefix get_tenant_by_slug
    serve_tenant
outage = refl

resolve_tenant_cases_example :
    ((slug : Text) × (codes "acme.listnun.dev" ≡ slug ++ (codes "." ++ codes "listnun.dev"))
      × (slug ≢ [])
      × (resolve_tenant tenants (codes "acme.listnun.dev") (codes "listnun.dev")
          ≡ get_tenant_by_slug tenants slug))
    ⊎ (((slug : Text)
          → slug ≢ []
          → codes "acme.listnun.dev" ≢ slug ++ (codes "." ++ codes "listnun.dev"))
        × (resolve_tenant tenants (codes "acme.listnun.dev") (codes "listnun.dev")
            ≡ get_tenant_by_custom_domain tenants (codes "acme.listnun.dev")))
resolve_tenant_cases_example =
    resolve_tenant_cases tenants (codes "acme.listnun.dev") (codes "listnun.dev")

not_exempt_path : has_prefix (codes "/admin") (codes "/api/operator/") ≡ false
unfolding has_prefix
not_exempt_path = refl

middleware-Right_example :
    Right site
      (get (codes "owing.listnun.dev") (codes "/admin"))
      (resolve_tenant tenants (codes "owing.listnun.dev") (codes "listnun.dev"))
      (middleware no_port tenants site (get (codes "owing.listnun.dev") (codes "/admin")))
middleware-Right_example =
    middleware-Right no_port tenants site (get (codes "owing.listnun.dev") (codes "/admin"))
      not_exempt_path
