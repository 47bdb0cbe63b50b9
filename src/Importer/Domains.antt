-- ===== src/Importer/Domains.antt =====
-- Domain allowlists and blocklists: makeDomainMap, checkInList and SanitizeEmail of
-- internal/subimporter/importer.go, with SanitizeEmail of internal/utils/utils.go.
pub mod Matching
pub mod Policy
use listnun.Prelude.{
  ℕ, ◌+◌, Bool, true, false, ◌&&◌, ◌||◌, Option, none, some, List, [], ◌∷◌, Text, codes, text_eq,
  ltb, if◌then◌else◌, contains, has_substring, trim_prefix, count_byte, split, join,
}
use listnun.Importer.Types.{Std}

-- A Go map[string]struct{} as the list of its keys, with the flag that goes with it.
pub record DomainMap : Type 0 where
  pub domains : List Text
  pub has_wildcards : Bool

abbrev pub star : Text
star = codes "*."

-- One round of makeDomainMap's loop.
unfoldable pub add_domain : Text → DomainMap → DomainMap
add_domain d m =
    if has_substring d star
    then record { domains = trim_prefix d star ∷ d ∷ m.domains; has_wildcards = true }
    else record m { domains = d ∷ m.domains }

unfoldable pub add_domains : List Text → DomainMap → DomainMap
add_domains [] m = m
add_domains (d ∷ ds) m = add_domains ds (add_domain d m)

unfoldable pub make_domain_map : List Text → DomainMap
unfolding add_domains add_domain
make_domain_map ds = add_domains ds (record { domains = []; has_wildcards = false })

-- parts[0] = "*"
abbrev pub star_first : List Text → List Text
star_first [] = []
star_first (p ∷ ps) = codes "*" ∷ ps

unfoldable pub starred : Text → Text
starred domain = join (codes ".") (star_first (split b'.' domain))

-- checkInList
unfoldable pub check_in_list : Text → DomainMap → Bool
unfolding starred
check_in_list domain m =
    if contains m.domains domain
    then true
    else (if m.has_wildcards && ltb 1 (count_byte b'.' domain)
        then contains m.domains (starred domain)
        else false)

-- The importer's two maps. hasAllowlist and hasBlocklist are `is_set`.
pub record Rules : Type 0 where
  pub allowlist : DomainMap
  pub blocklist : DomainMap

abbrev pub is_set : DomainMap → Bool
is_set m = elim m.domains [ [] ↦ false | d ∷ ds ↦ true ]

-- New, as far as the domains go.
unfoldable pub new_rules : List Text → List Text → Rules
new_rules block allow = record {
  allowlist = make_domain_map allow;
  blocklist = make_domain_map block;
}

pub data EmailError : Type 0 where
  invalid_email blocked_domain : EmailError

pub data Result {ℓ} (A : Type ℓ) : Type ℓ where
  ok : A → Result A
  err : EmailError → Result A

-- utils.SanitizeEmail
unfoldable pub parse_email : Std → Text → Option Text
parse_email std s =
    let s' = std.to_lower (std.trim_space s) in
    elim (std.parse_address s') [
      | none ↦ none
      | some address ↦ if text_eq address s' then some address else none
    ]

-- Which domains the rules let through.
unfoldable pub permits : Rules → Text → Bool
permits r domain =
    if is_set r.allowlist
    then check_in_list domain r.allowlist
    else (if is_set r.blocklist
        then (if check_in_list domain r.blocklist then false else true)
        else true)

-- The part of an address that the rules judge, if the address has two parts.
abbrev pub domain_of : List Text → Option Text
domain_of [] = none
domain_of (l ∷ []) = none
domain_of (l ∷ d ∷ []) = some d
domain_of (l ∷ d ∷ e ∷ rest) = none

-- Importer.SanitizeEmail
unfoldable pub sanitize_email : Std → Rules → Text → Result Text
sanitize_email std r email = elim (parse_email std email) [
  | none ↦ err invalid_email
  | some addr ↦
      if is_set r.allowlist || is_set r.blocklist
      then elim (domain_of (split b'@' addr)) [
        | none ↦ ok addr
        | some domain ↦ if permits r domain then ok addr else err blocked_domain
      ]
      else ok addr
]
