-- ===== src/Manager/Examples.antt =====
-- Worked cases of the manager's caches.
use listnun.Prelude.{
  ◌≡◌, refl, false, Option, none, some, List, [], ◌∷◌, ◌++◌, if◌then◌else◌, ◌==◌, ◌&&◌, Text, codes,
  text_eq,
}
use listnun.Manager.{
  Template, no_images, Sprintf, RootUrl, root_error, root_url, root_or, Track, track_link,
  track_all, no_links, urls_for, unescape, link_url, get_tpl,
}
use listnun.Manager.Owners.{
  Call, caches, deletes, run_calls, no_templates, latest, shown, get_tpl-latest,
}
use listnun.Manager.Tracking.{
  or_first, first_root, first_uuid, or_else_text, link_of, track_link-first,
}

abbrev welcome : Template
welcome = record { tenant_id = 3; body = codes "Welcome" }

abbrev calls : List Call
calls = caches 1 10 welcome no_images ∷ caches 2 11 welcome no_images ∷ deletes 11 ∷ []

get_tpl-latest_example :
    get_tpl 1 10 (run_calls calls no_templates) ≡ shown 1 (latest 10 calls none)
get_tpl-latest_example = get_tpl-latest calls 1 10

abbrev default_root : Text
default_root = codes "https://main.example"

-- fmt.Sprintf of a format whose only verbs are "%s".
abbrev sprintf_all : Text → List Text → Text
sprintf_all (a ∷ b ∷ f) (t ∷ ts) =
    let filled = sprintf_all f ts in
    let copied = sprintf_all (b ∷ f) (t ∷ ts) in
    if a == b'%' && b == b's' then t ++ filled else a ∷ copied
sprintf_all f ts = f

abbrev simple_sprintf : Sprintf
simple_sprintf f uuid camp sub = sprintf_all f (uuid ∷ camp ∷ sub ∷ [])

abbrev visit : RootUrl → Option Text → Track
visit root created = record {
  tenant = 2;
  url = codes "https://a.example/?x=1&amp;y=2";
  campaign = codes "camp";
  subscriber = codes "sub";
  root = root;
  created = created;
}

-- After one failed lookup of its root URL, a tenant's links lead to the default one.
wrong_root :
    (track_link simple_sprintf false default_root
      (visit (root_url (codes "https://tenant.example")) none)
      (track_all simple_sprintf false default_root
        (visit root_error (some (codes "uuid")) ∷ [])
        no_links).1).0
    ≡ codes "https://main.example/link/uuid/camp/sub"
unfolding track_link track_all urls_for unescape link_url text_eq
wrong_root = refl

track_link-first_example :
    (track_link simple_sprintf false default_root
      (visit root_error none)
      (track_all simple_sprintf false default_root
        (visit root_error (some (codes "uuid")) ∷ [])
        no_links).1).0
    ≡ link_of simple_sprintf
        (or_first
          (first_uuid 2
            (unescape (codes "https://a.example/?x=1&amp;y=2"))
            (visit root_error (some (codes "uuid")) ∷ []))
          none)
        (or_else_text
          (first_root default_root 2 (visit root_error (some (codes "uuid")) ∷ []))
          (root_or default_root root_error))
        (unescape (codes "https://a.example/?x=1&amp;y=2"))
        (visit root_error none)
track_link-first_example =
    track_link-first simple_sprintf default_root (visit root_error (some (codes "uuid")) ∷ [])
      (visit root_error none)
