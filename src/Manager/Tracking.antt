-- ===== src/Manager/Tracking.antt =====
-- Which links trackLink of internal/manager/manager.go makes, call after call.
use listnun.Prelude.{
  ℕ, ◌≡◌, refl, ap, sym, ◌∙◌, inl, inr, true, false, ◌&&◌, Option, none, some, List, [], ◌∷◌,
  if◌then◌else◌, ◌==◌, ==_iff, Bool-cases, and_parts, Text, text_eq, text_eq_sound,
}
use listnun.Manager.{
  Sprintf, root_or, Links, cached_root, urls_for, unescape, link_url, Track, link_from, track_link,
  no_links, track_all,
}

pub or_first {ℓ} : {A : Type ℓ} → Option A → Option A → Option A
or_first none o = o
or_first (some a) o = some a

-- The root URL that the first call for a tenant got, and the first UUID for a tenant's URL.
pub first_root : Text → ℕ → List Track → Option Text
first_root default t [] = none
first_root default t (c ∷ cs) =
    or_first (if c.tenant == t then some (root_or default c.root) else none)
      (first_root default t cs)

pub first_uuid : ℕ → Text → List Track → Option Text
first_uuid t u [] = none
first_uuid t u (c ∷ cs) =
    or_first (if c.tenant == t && text_eq (unescape c.url) u then c.created else none)
      (first_uuid t u cs)

pub or_else_text : Option Text → Text → Text
or_else_text none s = s
or_else_text (some r) s = r

or_first_assoc {ℓ} :
    {A : Type ℓ} (x y z : Option A) → or_first (or_first x y) z ≡ or_first x (or_first y z)
unfolding or_first
or_first_assoc none y z = refl
or_first_assoc (some a) y z = refl

or_first-none {ℓ} : {A : Type ℓ} (x : Option A) → or_first x none ≡ x
unfolding or_first
or_first-none none = refl
or_first-none (some a) = refl

cached_root-roots :
    (o : Option Text) (tenant : ℕ) (fresh : Text) (st : Links) (t : ℕ)
    → st.roots tenant ≡ o
    → (cached_root o tenant fresh st).1.roots t
      ≡ or_first (st.roots t) (if tenant == t then some fresh else none)
unfolding or_first
cached_root-roots (some root) tenant fresh st t h = elim (Bool-cases (tenant == t)) [
  | inl e ↦
      let q : st.roots t ≡ some root = ap st.roots (sym ((==_iff tenant t).0 e)) ∙ h in
      rw (e, q) refl
  | inr e ↦ rw e (sym (or_first-none (st.roots t)))
]
cached_root-roots none tenant fresh st t h = elim (Bool-cases (tenant == t)) [
  | inl e ↦
      let q : st.roots t ≡ none = ap st.roots (sym ((==_iff tenant t).0 e)) ∙ h in rw (e, q) refl
  | inr e ↦ rw e (sym (or_first-none (st.roots t)))
]

-- The root that a call uses.
cached_root-fst :
    (o : Option Text) (tenant : ℕ) (fresh : Text) (st : Links)
    → (cached_root o tenant fresh st).0 ≡ or_else_text o fresh
unfolding or_else_text
cached_root-fst none tenant fresh st = refl
cached_root-fst (some root) tenant fresh st = refl

cached_root-links :
    (o : Option Text) (tenant : ℕ) (fresh : Text) (st : Links) (t : ℕ) (u : Text)
    → (cached_root o tenant fresh st).1.links t u ≡ st.links t u
cached_root-links none tenant fresh st t u = refl
cached_root-links (some root) tenant fresh st t u = refl

link_from-roots :
    (sprintf : Sprintf) (o created : Option Text) (root url : Text) (c : Track) (st : Links) (t : ℕ)
    → (link_from sprintf o created root url c st).1.roots t ≡ st.roots t
link_from-roots sprintf (some uuid) created root url c st t = refl
link_from-roots sprintf none none root url c st t = refl
link_from-roots sprintf none (some uuid) root url c st t = refl

link_from-links :
    (sprintf : Sprintf) (o created : Option Text) (root url : Text) (c : Track) (st : Links) (t : ℕ)
    (u : Text)
    → st.links c.tenant url ≡ o
    → (link_from sprintf o created root url c st).1.links t u
      ≡ or_first (st.links t u) (if c.tenant == t && text_eq url u then created else none)
unfolding or_first
link_from-links sprintf o created root url c st t u h =
    elim (Bool-cases (c.tenant == t && text_eq url u)) [
      | inl e ↦ rw e (own o created (same (and_parts _ _ e) ∙ h) e)
      | inr e ↦ rw e (other o created e ∙ sym (or_first-none (st.links t u)))
    ]
  where
    same : ((c.tenant == t) ≡ true) × (text_eq url u ≡ true) → st.links t u ≡ st.links c.tenant url
    same (p, q) = rw ((==_iff c.tenant t).0 p, text_eq_sound url u q) refl

    own :
        (x y : Option Text)
        → st.links t u ≡ x
        → (c.tenant == t && text_eq url u) ≡ true
        → (link_from sprintf x y root url c st).1.links t u ≡ or_first (st.links t u) y
    own (some uuid) y q e = rw q refl
    own none none q e = rw q refl
    own none (some uuid) q e = rw (e, q) refl

    other :
        (x y : Option Text)
        → (c.tenant == t && text_eq url u) ≡ false
        → (link_from sprintf x y root url c st).1.links t u ≡ st.links t u
    other (some uuid) y e = refl
    other none none e = refl
    other none (some uuid) e = rw e refl

-- The link of a call, by the UUID that is known after it.
pub link_of : Sprintf → Option Text → Text → Text → Track → Text
link_of sprintf none root url c = url
link_of sprintf (some uuid) root url c = link_url sprintf root uuid c.campaign c.subscriber

link_from-fst :
    (sprintf : Sprintf) (o created : Option Text) (root url : Text) (c : Track) (st : Links)
    → (link_from sprintf o created root url c st).0
      ≡ link_of sprintf (or_first o created) root url c
unfolding link_of or_first
link_from-fst sprintf (some uuid) created root url c st = refl
link_from-fst sprintf none none root url c st = refl
link_from-fst sprintf none (some uuid) root url c st = refl

module _ (sprintf : Sprintf) (default : Text) (c : Track) (st : Links) where
  found : Text × Links
  found = urls_for default c.root c.tenant st

  cached : Option Text
  cached = found.1.links c.tenant (unescape c.url)

  track_link-roots :
      (t : ℕ)
      → (track_link sprintf false default c st).1.roots t
        ≡ or_first (st.roots t) (if c.tenant == t then some (root_or default c.root) else none)
  unfolding track_link urls_for found cached
  track_link-roots t =
      link_from-roots sprintf cached c.created found.0 (unescape c.url) c found.1 t
      ∙ cached_root-roots (st.roots c.tenant) c.tenant (root_or default c.root) st t refl

  track_link-links :
      (t : ℕ) (u : Text)
      → (track_link sprintf false default c st).1.links t u
        ≡ or_first
            (st.links t u)
            (if c.tenant == t && text_eq (unescape c.url) u then c.created else none)
  unfolding track_link urls_for found cached
  track_link-links t u =
      link_from-links sprintf cached c.created found.0 (unescape c.url) c found.1 t u refl
      ∙ ap
          (λ o.
            or_first o (if c.tenant == t && text_eq (unescape c.url) u then c.created else none))
          (cached_root-links (st.roots c.tenant) c.tenant (root_or default c.root) st t u)

  track_link-fst :
      (track_link sprintf false default c st).0
      ≡ link_of sprintf
          (or_first (st.links c.tenant (unescape c.url)) c.created)
          (or_else_text (st.roots c.tenant) (root_or default c.root))
          (unescape c.url)
          c
  unfolding track_link urls_for found cached
  track_link-fst =
      link_from-fst sprintf cached c.created found.0 (unescape c.url) c found.1
      ∙ rw
          (
            cached_root-links (st.roots c.tenant) c.tenant (root_or default c.root) st c.tenant
                (unescape c.url),
            cached_root-fst (st.roots c.tenant) c.tenant (root_or default c.root) st,
          )
          refl

module _ (sprintf : Sprintf) (default : Text) where
  track_all-roots :
      (cs : List Track) (st : Links) (t : ℕ)
      → (track_all sprintf false default cs st).1.roots t
        ≡ or_first (st.roots t) (first_root default t cs)
  unfolding track_all first_root
  track_all-roots [] st t = sym (or_first-none (st.roots t))
  track_all-roots (c ∷ cs) st t =
      track_all-roots cs (track_link sprintf false default c st).1 t
      ∙ ap (λ o. or_first o (first_root default t cs)) (track_link-roots sprintf default c st t)
      ∙ or_first_assoc (st.roots t) _ (first_root default t cs)

  track_all-links :
      (cs : List Track) (st : Links) (t : ℕ) (u : Text)
      → (track_all sprintf false default cs st).1.links t u
        ≡ or_first (st.links t u) (first_uuid t u cs)
  unfolding track_all first_uuid
  track_all-links [] st t u = sym (or_first-none (st.links t u))
  track_all-links (c ∷ cs) st t u =
      track_all-links cs (track_link sprintf false default c st).1 t u
      ∙ ap (λ o. or_first o (first_uuid t u cs)) (track_link-links sprintf default c st t u)
      ∙ or_first_assoc (st.links t u) _ (first_uuid t u cs)

  -- With tracking enabled, after any calls for any tenants, a call's link has the UUID that the database gave first for that
  -- tenant and URL, below the root URL that the tenant's first call got, whatever the database
  -- answers now; the URL itself is used when it has given no UUID yet.
  pub track_link-first :
      (cs : List Track) (c : Track)
      → (track_link sprintf false default c (track_all sprintf false default cs no_links).1).0
        ≡ link_of sprintf
            (or_first (first_uuid c.tenant (unescape c.url) cs) c.created)
            (or_else_text (first_root default c.tenant cs) (root_or default c.root))
            (unescape c.url)
            c
  unfolding or_first
  track_link-first cs c =
      track_link-fst sprintf default c (track_all sprintf false default cs no_links).1
      ∙ rw
          (
            track_all-links cs no_links c.tenant (unescape c.url),
            track_all-roots cs no_links c.tenant,
          )
          refl
