-- ===== src/Importer/Domains/Matching.antt =====
-- checkInList: which domains a list of entries covers.
use listnun.Prelude.{
  ◌<◌, ◌≡◌, ap, ◌==◌, ◌↔◌, ◌⊎◌, inl, inr, refl, Bool, true, false, ◌&&◌, List, [], ◌∷◌, ◌++◌, Text,
  codes, arith, ltb, if◌then◌else◌, contains, text_eq, text_eq_iff, has_substring, has_prefix,
  trim_prefix, count_byte, split-append, join-cons-split, count_byte-append, Any, Bool-cases,
  ltb→lt, lt→ltb, ==_iff,
}
use mathlib.Core.Bool.{false≢true}
use listnun.Importer.Domains.{
  DomainMap, star, add_domain, add_domains, make_domain_map, starred, check_in_list,
}

abbrev pub IsWildcard : Text → Type 0
IsWildcard d = has_substring d star ≡ true

-- The entry `d` puts `domain` into the map: as it is, or, if it holds "*.", less that prefix.
abbrev pub Covers : Text → Text → Type 0
Covers domain d = (d ≡ domain) ⊎ IsWildcard d × (trim_prefix d star ≡ domain)

contains-add_domain :
    (d : Text) (m : DomainMap) (x : Text)
    → (contains (add_domain d m).domains x ≡ true) ↔ (Covers x d ⊎ (contains m.domains x ≡ true))
unfolding add_domain contains
contains-add_domain d m x = ground (arith, text_eq_iff d x, text_eq_iff (trim_prefix d star) x)

-- The induction step of both facts about the loop.
or_chain : {A B C D E : Type 0} → A ↔ (B ⊎ C) → C ↔ (D ⊎ E) → A ↔ ((D ⊎ B) ⊎ E)
or_chain later first = (
  λ h. elim (later.0 h) [
    | inl b ↦ inl (inr b)
    | inr c ↦ elim (first.0 c) [ inl d ↦ inl (inl d) | inr e ↦ inr e ]
  ],
  elim [
    | inl (inl d) ↦ later.1 (inr (first.1 (inl d)))
    | inl (inr b) ↦ later.1 (inl b)
    | inr e ↦ later.1 (inr (first.1 (inr e)))
  ],
)

contains-add_domains :
    (ds : List Text) (m : DomainMap) (x : Text)
    → (contains (add_domains ds m).domains x ≡ true)
      ↔ (Any (Covers x) ds ⊎ (contains m.domains x ≡ true))
unfolding add_domains
contains-add_domains [] m x = (λ h. inr h, elim [ inl h ↦ absurd h | inr h ↦ h ])
contains-add_domains (d ∷ ds) m x =
    or_chain (contains-add_domains ds (add_domain d m) x) (contains-add_domain d m x)

wildcards-add_domain :
    (d : Text) (m : DomainMap)
    → ((add_domain d m).has_wildcards ≡ true) ↔ (IsWildcard d ⊎ (m.has_wildcards ≡ true))
unfolding add_domain
wildcards-add_domain d m = ground arith

wildcards-add_domains :
    (ds : List Text) (m : DomainMap)
    → ((add_domains ds m).has_wildcards ≡ true) ↔ (Any IsWildcard ds ⊎ (m.has_wildcards ≡ true))
unfolding add_domains
wildcards-add_domains [] m = (λ h. inr h, elim [ inl h ↦ absurd h | inr h ↦ h ])
wildcards-add_domains (d ∷ ds) m =
    or_chain (wildcards-add_domains ds (add_domain d m)) (wildcards-add_domain d m)

or_false : {P : Type 0} → (P ⊎ (false ≡ true)) → P
or_false (inl p) = p
or_false (inr e) = absurd (false≢true e)

pub contains-make_domain_map :
    (ds : List Text) (x : Text)
    → (contains (make_domain_map ds).domains x ≡ true) ↔ Any (Covers x) ds
unfolding make_domain_map contains
contains-make_domain_map ds x =
    let h = contains-add_domains ds (record { domains = []; has_wildcards = false }) x in
    (λ c. or_false (h.0 c), λ a. h.1 (inl a))

wildcards-make_domain_map :
    (ds : List Text) → ((make_domain_map ds).has_wildcards ≡ true) ↔ Any IsWildcard ds
unfolding make_domain_map
wildcards-make_domain_map ds =
    let h = wildcards-add_domains ds (record { domains = []; has_wildcards = false }) in
    (λ c. or_false (h.0 c), λ a. h.1 (inl a))

ladder_iff :
    (a w l s : Bool)
    → ((if a then true else (if w && l then s else false)) ≡ true)
      ↔ ((a ≡ true) ⊎ (w ≡ true) × (l ≡ true) × (s ≡ true))
ladder_iff a w l s = ground arith

-- When a list of entries matches a domain: an entry covers it, or, where the list has a wildcard
-- and the domain is a first label, a dot and a rest that has a dot, an entry covers "*." and the rest.
abbrev pub Matches : List Text → Text → Type 0
Matches ds domain =
    Any (Covers domain) ds
    ⊎ Any IsWildcard ds
      × ((label : Text) × (rest : Text) × (domain ≡ label ++ (b'.' ∷ rest))
          × (count_byte b'.' label ≡ 0)
          × (0 < count_byte b'.' rest)
          × Any (Covers (codes "*." ++ rest)) ds)

starred-append :
    (label rest : Text)
    → count_byte b'.' label ≡ 0
    → starred (label ++ (b'.' ∷ rest)) ≡ star ++ rest
unfolding starred
starred-append label rest h =
    rw (split-append b'.' label rest h) (join-cons-split b'.' (codes "*") rest)

dots_in_subdomain :
    (label rest : Text) → 0 < count_byte b'.' rest → 1 < count_byte b'.' (label ++ (b'.' ∷ rest))
unfolding count_byte
dots_in_subdomain label rest r = rw (count_byte-append b'.' label (b'.' ∷ rest)) (omega arith)

dots_in_rest :
    (label rest : Text)
    → count_byte b'.' label ≡ 0
    → 1 < count_byte b'.' (label ++ (b'.' ∷ rest))
    → 0 < count_byte b'.' rest
unfolding count_byte
dots_in_rest label rest n h =
    let k = rw (count_byte-append b'.' label (b'.' ∷ rest)) at h in omega arith

-- A text with a dot, at its first dot.
first_dot :
    (s : Text)
    → 0 < count_byte b'.' s
    → (label : Text) × (rest : Text) × (s ≡ label ++ (b'.' ∷ rest)) × (count_byte b'.' label ≡ 0)
unfolding count_byte
first_dot [] h = absurd (omega arith)
first_dot (c ∷ s) h = elim (Bool-cases (c == b'.')) [
  | inl e ↦ ([], s, ap (λ x. x ∷ s) ((==_iff c b'.').0 e), refl)
  | inr e ↦
      let (label, rest, p, n) = first_dot s (rw e at h) in
      (c ∷ label, rest, ap (λ x. c ∷ x) p, rw e n)
]

-- checkInList over the map that makeDomainMap builds holds exactly when the list matches: when an
-- entry covers the domain, or when some entry is a wildcard, the domain has two dots or more, and an
-- entry covers "*." and what follows its first dot.
pub check_in_list_iff :
    (ds : List Text) (domain : Text)
    → (check_in_list domain (make_domain_map ds) ≡ true) ↔ Matches ds domain
unfolding check_in_list
check_in_list_iff ds domain =
    let plain = contains-make_domain_map ds domain in
    let wild = contains-make_domain_map ds (starred domain) in
    let flag = wildcards-make_domain_map ds in
    let ladder =
      ladder_iff (contains (make_domain_map ds).domains domain) (make_domain_map ds).has_wildcards
        (ltb 1 (count_byte b'.' domain)) (contains (make_domain_map ds).domains (starred domain)) in
    (
      λ h. elim (ladder.0 h) [
        | inl c ↦ inl (plain.0 c)
        | inr (w, l, s) ↦
            let dots : 1 < count_byte b'.' domain = ltb→lt _ _ l in
            let (label, rest, p, n) = first_dot domain (omega arith) in
            inr (
              flag.0 w,
              (
                label,
                rest,
                p,
                n,
                dots_in_rest label rest n (rw p at dots),
                rw (p, starred-append label rest n) at (wild.0 s),
              ),
            )
      ],
      elim [
        | inl c ↦ ladder.1 (inl (plain.1 c))
        | inr (w, (label, rest, p, n, d, c)) ↦ ladder.1 (
            inr (
              flag.1 w,
              rw p (lt→ltb _ _ (dots_in_subdomain label rest d)),
              wild.1 (rw (p, starred-append label rest n) c),
            ))
      ],
    )

has_prefix-append : (p s : Text) → has_prefix (p ++ s) p ≡ true
unfolding has_prefix
has_prefix-append [] [] = refl
has_prefix-append [] (c ∷ s) = refl
has_prefix-append (c ∷ p) s = rw ((==_iff c c).1 refl) (has_prefix-append p s)

Covers-Any :
    {x : Text} (ds : List Text) (d : Text)
    → contains ds d ≡ true
    → Covers x d
    → Any (Covers x) ds × (IsWildcard d → Any IsWildcard ds)
unfolding contains
Covers-Any [] d h c = absurd (false≢true h)
Covers-Any (e ∷ ds) d h c = elim (Bool-cases (text_eq e d)) [
  | inl same ↦ let p = (text_eq_iff e d).0 same in (inl (rw p c), λ w. inl (rw p w))
  | inr other ↦ let (a, w) = Covers-Any ds d (rw other at h) c in (inr a, λ v. inr (w v))
]

trim_prefix-append : (s : Text) → trim_prefix (star ++ s) star ≡ s
unfolding trim_prefix has_prefix
trim_prefix-append [] = refl
trim_prefix-append (c ∷ s) = refl

star-IsWildcard : (s : Text) → IsWildcard (star ++ s)
unfolding has_substring has_prefix
star-IsWildcard [] = refl
star-IsWildcard (c ∷ s) = refl

-- An entry "*.rest" matches `rest` itself, and `label.rest` for every label without a dot, if
-- `rest` has a dot of its own.
wildcard_entry :
    (ds : List Text) (label rest : Text)
    → contains ds (star ++ rest) ≡ true
    → count_byte b'.' label ≡ 0
    → 0 < count_byte b'.' rest
    → (check_in_list rest (make_domain_map ds) ≡ true)
      × (check_in_list (label ++ (b'.' ∷ rest)) (make_domain_map ds) ≡ true)
wildcard_entry ds label rest h l r =
    let (bare, wild) =
      Covers-Any {x = rest} ds _ h (inr (star-IsWildcard rest, trim_prefix-append rest)) in
    let (starred_in, _) = Covers-Any {x = star ++ rest} ds _ h (inl refl) in
    (
      (check_in_list_iff ds rest).1 (inl bare),
      (check_in_list_iff ds (label ++ (b'.' ∷ rest))).1
          (inr (wild (star-IsWildcard rest), (label, rest, refl, l, r, starred_in))),
    )
