-- ===== src/Importer/Domains/Policy.antt =====
-- Importer.SanitizeEmail: which addresses it accepts, and why it refuses the others.
use listnun.Prelude.{
  ◌≡◌, ◌↔◌, ◌⊎◌, inl, inr, refl, sym, ◌∙◌, Bool, true, false, none, some, Option-cases, List, [],
  ◌∷◌, Text, arith, split, if◌then◌else◌, Bool-cases, contains,
}
use mathlib.Core.Bool.{false≢true}
use listnun.Importer.Types.{Std}
use listnun.Importer.Domains.{
  Rules, new_rules, sanitize_email, parse_email, permits, ok, err, invalid_email, domain_of,
  blocked_domain, make_domain_map, is_set,
}
use listnun.Importer.Domains.Matching.{Matches, check_in_list_iff, contains-make_domain_map}

-- The domains that the configuration lets through: those that the allowlist matches, if it has
-- entries, and otherwise those that the blocklist does not match.
abbrev pub Allowed : List Text → List Text → Text → Type 0
Allowed block [] domain = ¬ Matches block domain
Allowed block (a ∷ allow) domain = Matches (a ∷ allow) domain

is_set_of_contains :
    (ds : List Text) (x : Text) (w : Bool)
    → contains ds x ≡ true
    → is_set (record { domains = ds; has_wildcards = w }) ≡ true
unfolding contains
is_set_of_contains [] x w h = h
is_set_of_contains (d ∷ ds) x w h = refl

is_set-make_domain_map : (d : Text) (ds : List Text) → is_set (make_domain_map (d ∷ ds)) ≡ true
is_set-make_domain_map d ds =
    let m = make_domain_map (d ∷ ds) in
    is_set_of_contains m.domains d m.has_wildcards
      ((contains-make_domain_map (d ∷ ds) d).1 (inl (inl refl)))

is_set-make_domain_map_nil : is_set (make_domain_map []) ≡ false
unfolding make_domain_map
is_set-make_domain_map_nil = refl

not_iff : (b : Bool) {P : Type 0} → (b ≡ true) ↔ P → ((if b then false else true) ≡ true) ↔ (¬ P)
not_iff true h = (λ e p. false≢true e, λ n. absurd (n (h.0 refl)))
not_iff false h = (λ e p. false≢true (h.1 p), λ n. refl)

permits_iff :
    (block allow : List Text) (domain : Text)
    → (permits (new_rules block allow) domain ≡ true) ↔ Allowed block allow domain
unfolding permits new_rules
permits_iff [] [] domain =
    rw is_set-make_domain_map_nil (λ _. elim [ inl m ↦ m | inr m ↦ m.0 ], λ _. refl)
permits_iff (b ∷ block) [] domain =
    rw (is_set-make_domain_map_nil, is_set-make_domain_map b block)
      (not_iff _ (check_in_list_iff (b ∷ block) domain))
permits_iff block (a ∷ allow) domain =
    rw (is_set-make_domain_map a allow) (check_in_list_iff (a ∷ allow) domain)

sanitize_email-permits :
    (std : Std) (r : Rules) (email addr local domain : Text)
    → parse_email std email ≡ some addr
    → split b'@' addr ≡ local ∷ domain ∷ []
    → sanitize_email std r email ≡ (if permits r domain then ok addr else err blocked_domain)
unfolding sanitize_email permits
sanitize_email-permits std r email addr local domain p s = rw (p, sanitize_email) (ground arith)

-- An address whose parts at "@" are not two has no domain that the rules judge.
abbrev pub Passes : List Text → List Text → List Text → Type 0
Passes block allow (local ∷ domain ∷ []) = Allowed block allow domain
Passes block allow _ = Unit

sanitize_email-whole :
    (std : Std) (r : Rules) (email addr : Text)
    → parse_email std email ≡ some addr
    → domain_of (split b'@' addr) ≡ none
    → sanitize_email std r email ≡ ok addr
unfolding sanitize_email
sanitize_email-whole std r email addr p s = rw (p, sanitize_email) (ground arith)

-- What does not parse is refused as invalid. An address that parses is accepted as it is if its
-- domain is allowed, and is refused for its domain otherwise; one that is not two parts around a
-- single "@" is accepted.
pub sanitize_email_policy :
    (std : Std) (block allow : List Text) (email : Text)
    → let result = sanitize_email std (new_rules block allow) email in
      ((parse_email std email ≡ none) × (result ≡ err invalid_email))
      ⊎ ((addr : Text) × (parse_email std email ≡ some addr)
          × ((Passes block allow (split b'@' addr) × (result ≡ ok addr))
              ⊎ ((¬ Passes block allow (split b'@' addr)) × (result ≡ err blocked_domain))))
unfolding sanitize_email
sanitize_email_policy std block allow email = elim (Option-cases (parse_email std email)) [
  | inl e ↦ inl (e, rw (e, sanitize_email) refl)
  | inr (addr, p) ↦ inr (addr, p, go addr p (split b'@' addr) refl)
]
  where
    r : Rules
    r = new_rules block allow

    go :
        (addr : Text)
        → parse_email std email ≡ some addr
        → (parts : List Text) → split b'@' addr ≡ parts
        → (Passes block allow parts × (sanitize_email std r email ≡ ok addr))
          ⊎ ((¬ Passes block allow parts) × (sanitize_email std r email ≡ err blocked_domain))
    go addr p [] s = inl (tt, sanitize_email-whole std r email addr p (rw s refl))
    go addr p (l ∷ []) s = inl (tt, sanitize_email-whole std r email addr p (rw s refl))
    go addr p (l ∷ d ∷ x ∷ rest) s = inl (tt, sanitize_email-whole std r email addr p (rw s refl))
    go addr p (local ∷ domain ∷ []) s =
        let e = sanitize_email-permits std r email addr local domain p s in
        let (sound, complete) = permits_iff block allow domain in
        elim (Bool-cases (permits r domain)) [
          | inl y ↦ inl (sound y, rw y at e)
          | inr n ↦ inr (λ a. false≢true (sym n ∙ complete a), rw n at e)
        ]
