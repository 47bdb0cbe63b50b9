-- ===== src/Auth/Roles.antt =====
-- What a user's permissions are after they have been read from the roles.
use listnun.Prelude.{
  ◌≡◌, inl, inr, refl, ◌∙◌, Bool, true, false, Option, none, some, List, [], ◌∷◌, ◌++◌, All,
  All-append, Text, text_eq, contains, if◌then◌else◌, Bool-cases, arith,
}
use listnun.Auth.{
  ℤ, pos, negsuc, int_eq, list_get, list_manage, ListPermission, User, holds, perms_at, add_perm,
  add_perms, open_list, add_lists, role_user, setup_user_fields,
}

abbrev pub Granted : Text → User → List ℤ → Type 0
Granted perm u ids = All (λ k. holds (u.list_permissions_map k) perm ≡ true) ids

abbrev pub Apart : ℤ → List ℤ → Type 0
Apart id ids = All (λ k. int_eq k id ≡ false) ids

-- No list has two entries.
abbrev pub Distinct : List ListPermission → Type 0
Distinct [] = Unit
Distinct (l ∷ ls) = All (λ m. int_eq l.id m.id ≡ false) ls × Distinct ls

int_eq_refl : (id : ℤ) → int_eq id id ≡ true
int_eq_refl (pos n) = ground arith
int_eq_refl (negsuc n) = ground arith

open-Granted :
    (perm : Text) (id : ℤ) (u : User) (ids : List ℤ)
    → Apart id ids
    → Granted perm u ids
    → Granted perm (open_list id u) ids
unfolding open_list
open-Granted perm id u [] a g = tt
open-Granted perm id u (k ∷ ids) a g = (rw a.0 g.0, open-Granted perm id u ids a.1 g.1)

grown :
    (q perm : Text) (o : Option (List Text))
    → holds o q ≡ true
    → holds (some (perm ∷ perms_at o)) q ≡ true
unfolding contains
grown q perm none h = cc
grown q perm (some perms) h = ground arith

add-Granted :
    (q : Text) (id : ℤ) (perm : Text) (u : User) (ids : List ℤ)
    → Granted q u ids
    → Granted q (add_perm id perm u) ids
unfolding add_perm
add-Granted q id perm u [] g = tt
add-Granted q id perm u (k ∷ ids) g = (go, add-Granted q id perm u ids g.1)
  where
    go : holds ((add_perm id perm u).list_permissions_map k) q ≡ true
    go = elim (Bool-cases (int_eq k id)) [
      | inl e ↦ rw e (grown q perm (u.list_permissions_map k) g.0)
      | inr e ↦ rw e g.0
    ]

-- Both lists of IDs are granted what they stand for.
abbrev Both : User → Type 0
Both u = Granted list_get u u.get_list_ids × Granted list_manage u u.manage_list_ids

new-Granted :
    (q : Text) (id : ℤ) (perm : Text) (u : User) (ids : List ℤ)
    → Granted q u ids
    → Granted q (add_perm id perm u) (if text_eq perm q then ids ++ (id ∷ []) else ids)
unfolding add_perm contains
new-Granted q id perm u ids g = elim (Bool-cases (text_eq perm q)) [
  | inl e ↦ rw e (All-append _ ids (id ∷ []) (add-Granted q id perm u ids g) (new e, tt))
  | inr e ↦ rw e (add-Granted q id perm u ids g)
]
  where
    new : text_eq perm q ≡ true → holds ((add_perm id perm u).list_permissions_map id) q ≡ true
    new e = rw (int_eq_refl id) (rw e refl)

add_perm-Both : (id : ℤ) (perm : Text) (u : User) → Both u → Both (add_perm id perm u)
unfolding add_perm
add_perm-Both id perm u (g, m) =
    (new-Granted list_get id perm u _ g, new-Granted list_manage id perm u _ m)

add_perms-Both : (id : ℤ) (perms : List Text) (u : User) → Both u → Both (add_perms id perms u)
unfolding add_perms
add_perms-Both id [] u b = b
add_perms-Both id (perm ∷ perms) u b =
    add_perms-Both id perms (add_perm id perm u) (add_perm-Both id perm u b)

abbrev Away : ℤ → User → Type 0
Away j u = Apart j u.get_list_ids × Apart j u.manage_list_ids

added-Apart :
    (b : Bool) (id j : ℤ) (ids : List ℤ)
    → int_eq id j ≡ false
    → Apart j ids
    → Apart j (if b then ids ++ (id ∷ []) else ids)
added-Apart true id j ids n a = All-append _ ids (id ∷ []) a (n, tt)
added-Apart false id j ids n a = a

add_perms-Away :
    (id j : ℤ) (perms : List Text) (u : User)
    → int_eq id j ≡ false
    → Away j u
    → Away j (add_perms id perms u)
unfolding add_perms add_perm
add_perms-Away id j [] u n a = a
add_perms-Away id j (perm ∷ perms) u n (g, m) =
    add_perms-Away id j perms (add_perm id perm u) n
      (added-Apart _ id j _ n g, added-Apart _ id j _ n m)

entry-Away :
    (id : ℤ) (perms : List Text) (ls : List ListPermission) (u : User)
    → All (λ m. int_eq id m.id ≡ false) ls
    → All (λ m. Away m.id u) ls
    → All (λ m. Away m.id (add_perms id perms (open_list id u))) ls
unfolding open_list
entry-Away id perms [] u n a = tt
entry-Away id perms (m ∷ ls) u n a =
    (add_perms-Away id m.id perms (open_list id u) n.0 a.0, entry-Away id perms ls u n.1 a.1)

add_lists-Both :
    (ls : List ListPermission) (u : User)
    → Distinct ls
    → All (λ l. Away l.id u) ls
    → Both u
    → Both (add_lists ls u)
unfolding add_lists open_list
add_lists-Both [] u d a b = b
add_lists-Both (l ∷ ls) u d a b =
    add_lists-Both ls _ d.1 (entry-Away l.id l.permissions ls u d.0 a.1) (
      add_perms-Both l.id l.permissions (open_list l.id u)
        (open-Granted list_get l.id u _ a.0.0 b.0, open-Granted list_manage l.id u _ a.0.1 b.1))

first-Away :
    (ls : List ListPermission) (u : User)
    → u.get_list_ids ≡ []
    → u.manage_list_ids ≡ []
    → All (λ l. Away l.id u) ls
first-Away [] u g m = tt
first-Away (l ∷ ls) u g m = (rw (g, m) (tt, tt), first-Away ls u g m)

pub setup_user_fields-Granted :
    (perms : List Text) (lists : List ListPermission)
    → Distinct lists
    → let u = setup_user_fields perms lists in
      Granted list_get u u.get_list_ids × Granted list_manage u u.manage_list_ids
unfolding setup_user_fields
setup_user_fields-Granted perms lists d =
    add_lists-Both lists (role_user perms) d (first-Away lists (role_user perms) refl refl) (tt, tt)

pub kept :
    (ls : List ListPermission) (u : User)
    → ((add_lists ls u).user_role_id ≡ u.user_role_id)
      × ((add_lists ls u).permissions_map ≡ u.permissions_map)
unfolding add_lists open_list add_perms add_perm
kept [] u = (refl, refl)
kept (l ∷ ls) u =
    let (a, b) = kept ls (add_perms l.id l.permissions (open_list l.id u)) in
    let (c, d) = perms l.id l.permissions (open_list l.id u) in (a ∙ c, b ∙ d)
  where
    perms :
        (id : ℤ) (ps : List Text) (u : User)
        → ((add_perms id ps u).user_role_id ≡ u.user_role_id)
          × ((add_perms id ps u).permissions_map ≡ u.permissions_map)
    perms id [] u = (refl, refl)
    perms id (p ∷ ps) u = perms id ps (add_perm id p u)
