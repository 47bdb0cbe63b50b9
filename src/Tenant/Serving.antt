-- ===== src/Tenant/Serving.antt =====
-- What a request gets: Middleware and unavailableRedirect of internal/tenant/resolve.go.
use listnun.Prelude.{
  ◌⊎◌, ℕ, ◌≡◌, ◌≢◌, refl, inl, inr, Bool, true, false, ◌||◌, not, Option, List, [], ◌∷◌, Bool-cases,
  if◌then◌else◌, Text, text_eq, text_eq_iff, codes,
}
use listnun.Tenant.{
  Tenant, Lookup, found, no_tenant, query_failed, WebRequest, SiteConfig, Outcome, next, redirect,
  not_found, unavailable, is_none, is_admin_page, unavailable_redirect, redirect_or_fail,
  serve_tenant, is_exempt, middleware, or_whole, resolve_tenant,
}

-- Whether an outcome is right for a request, by what the lookup of its host's tenant has answered.
abbrev pub Right : SiteConfig → WebRequest → Lookup → Outcome → Type 0
Right cfg r looked (next t) = (looked ≡ found t) × (t.status ≡ codes "active")
Right cfg r looked (redirect u) =
    (t : Tenant) × (looked ≡ found t)
    × (t.status ≢ codes "active")
    × (r.method ≡ codes "GET")
    × (is_admin_page r.path ≡ true)
    × (cfg.console_url ≢ [])
Right cfg r looked not_found = (looked ≡ no_tenant) ⊎ (looked ≡ query_failed)
Right cfg r looked unavailable = (t : Tenant) × (looked ≡ found t) × (t.status ≢ codes "active")

guards :
    (a b p : Bool) (x u : Text) {c : ℕ}
    → c ∷ u ≡ (if a || not b then [] else if not p then [] else x)
    → (a ≡ false) × (b ≡ true) × (p ≡ true)
guards true b p x u e = absurd (cc)
guards false false p x u e = absurd (cc)
guards false true false x u e = absurd (cc)
guards false true true x u e = (refl, refl, refl)

is_none-false : (s : Text) → is_none s ≡ false → s ≢ []
is_none-false [] h = cc
is_none-false (c ∷ s) h = λ e. cc

refused-Right :
    (cfg : SiteConfig) (r : WebRequest) (t : Tenant) (u : Text)
    → u ≡ unavailable_redirect r t.status cfg.console_url
    → t.status ≢ codes "active"
    → Right cfg r (found t) (redirect_or_fail u)
unfolding unavailable_redirect
refused-Right cfg r t [] e n = (t, refl, n)
refused-Right cfg r t (c ∷ u) e n =
    let (console, get, page) =
      guards (is_none cfg.console_url) (text_eq r.method (codes "GET")) (is_admin_page r.path) _ u
        e in
    (
      t,
      refl,
      n,
      (text_eq_iff r.method (codes "GET")).0 get,
      page,
      is_none-false cfg.console_url console,
    )

serve_tenant-Right :
    (cfg : SiteConfig) (r : WebRequest) (looked : Lookup)
    → Right cfg r looked (serve_tenant cfg r looked)
unfolding serve_tenant
serve_tenant-Right cfg r no_tenant = inl refl
serve_tenant-Right cfg r query_failed = inr refl
serve_tenant-Right cfg r (found t) = elim (Bool-cases (text_eq t.status (codes "active"))) [
  | inl e ↦ rw e (refl, (text_eq_iff t.status (codes "active")).0 e)
  | inr e ↦ rw e (
      refused-Right cfg r t (unavailable_redirect r t.status cfg.console_url) refl
        (λ k. let q = (text_eq_iff t.status (codes "active")).1 k in cc))
]

-- With several tenants, a request outside the Operator API goes on with a tenant only if its host
-- names the tenant, which is active; it is redirected only if it is a GET request of an admin page of
-- a tenant that is not active, and a console is configured, so a subscriber's link never is; it gets
-- 404 only if its host names no tenant or the lookup fails, and 503 only if its tenant is not active.
pub middleware-Right :
    (split_host_port : Text → Option Text) (tenants : Option (List Tenant)) (cfg : SiteConfig)
    (r : WebRequest)
    → is_exempt cfg r ≡ false
    → Right cfg r
        (resolve_tenant tenants (or_whole (split_host_port r.host) r.host) cfg.root_domain)
        (middleware split_host_port tenants cfg r)
unfolding middleware
middleware-Right split_host_port tenants cfg r h = rw h (
    serve_tenant-Right cfg r
      (resolve_tenant tenants (or_whole (split_host_port r.host) r.host) cfg.root_domain))
