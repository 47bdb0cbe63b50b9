-- ===== src/Tenant/Hosts.antt =====
-- The tenant that a host names: resolveTenant of internal/tenant/resolve.go.
use listnun.Prelude.{
  Option, ◌≡◌, ◌≢◌, refl, sym, ap, ◌∙◌, ◌⊎◌, inl, inr, false, List, [], ◌∷◌, ◌++◌, ◌<◌, arith,
  length, length-append, Bool-cases, Text, text_eq, text_eq_iff, codes,
}
use listnun.Tenant.{
  Tenant, trim_suffix, get_tenant_by_slug, get_tenant_by_custom_domain, resolve_slug,
  resolve_tenant,
}

-- A text either ends in the suffix, which is then cut off, or stays as it is.
trim_suffix_cases :
    (s suffix : Text)
    → 0 < length suffix
    → ((p : Text) × (s ≡ p ++ suffix) × (trim_suffix s suffix ≡ p))
      ⊎ (((p : Text) → s ≢ p ++ suffix) × (trim_suffix s suffix ≡ s))
unfolding trim_suffix
trim_suffix_cases [] suffix h =
    inr ((λ p e. omega (arith, ap length e, length-append p suffix)), refl)
trim_suffix_cases (c ∷ s) suffix h = elim (Bool-cases (text_eq (c ∷ s) suffix)) [
  | inl e ↦ inl ([], (text_eq_iff (c ∷ s) suffix).0 e, rw e refl)
  | inr e ↦ elim (trim_suffix_cases s suffix h) [
    | inl (p, q, k) ↦ inl (c ∷ p, ap (λ x. c ∷ x) q, rw (e, k) refl)
    | inr (n, k) ↦ inr ((λ p q. not_ending p e n q), rw (e, k) refl)
  ]
]
  where
    not_ending :
        (p : Text)
        → text_eq (c ∷ s) suffix ≡ false
        → ((x : Text) → s ≢ x ++ suffix)
        → c ∷ s ≢ p ++ suffix
    not_ending [] e n q = let k = (text_eq_iff (c ∷ s) suffix).1 q in cc
    not_ending (x ∷ p) e n q = let k : s ≡ p ++ suffix = cc in n p k

longer : (p suffix : Text) → 0 < length suffix → text_eq p (p ++ suffix) ≡ false
longer p suffix h = elim (Bool-cases (text_eq p (p ++ suffix))) [
  | inr e ↦ e
  | inl e ↦
      absurd (omega (arith, ap length ((text_eq_iff p (p ++ suffix)).0 e), length-append p suffix))
]

too_long : (p suffix : Text) → p ≢ [] → suffix ≢ p ++ suffix
too_long [] suffix h e = h refl
too_long (c ∷ p) suffix h e = omega (arith, ap length e, length-append p suffix)

-- A host that is a slug, a dot and the root domain, with a slug that is not empty, is for the tenant
-- with that slug alone, whatever custom domains there are; every other host is for the tenant whose
-- custom domain it is.
pub resolve_tenant_cases :
    (tenants : Option (List Tenant)) (host root : Text)
    → ((slug : Text) × (host ≡ slug ++ (codes "." ++ root))
        × (slug ≢ [])
        × (resolve_tenant tenants host root ≡ get_tenant_by_slug tenants slug))
      ⊎ (((slug : Text) → slug ≢ [] → host ≢ slug ++ (codes "." ++ root))
          × (resolve_tenant tenants host root ≡ get_tenant_by_custom_domain tenants host))
unfolding resolve_tenant resolve_slug text_eq
resolve_tenant_cases tenants host root =
    elim (trim_suffix_cases host (codes "." ++ root) (omega arith)) [
      | inl (p, e, k) ↦ go p e k
      | inr (n, k) ↦ inr ((λ slug h. n slug), rw (k, (text_eq_iff host host).1 refl) refl)
    ]
  where
    go :
        (p : Text)
        → host ≡ p ++ (codes "." ++ root)
        → trim_suffix host (codes "." ++ root) ≡ p
        → ((slug : Text) × (host ≡ slug ++ (codes "." ++ root))
            × (slug ≢ [])
            × (resolve_tenant tenants host root ≡ get_tenant_by_slug tenants slug))
          ⊎ (((slug : Text) → slug ≢ [] → host ≢ slug ++ (codes "." ++ root))
              × (resolve_tenant tenants host root ≡ get_tenant_by_custom_domain tenants host))
    go [] e k = inr ((λ slug h q. too_long slug (codes "." ++ root) h (sym e ∙ q)), rw (k, e) refl)
    go (c ∷ p) e k =
        inl (c ∷ p, e, (λ q. cc), rw (k, e, longer (c ∷ p) (codes "." ++ root) (omega arith)) refl)
