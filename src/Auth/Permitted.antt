-- ===== src/Auth/Permitted.antt =====
-- What the functions for a user's lists return after the roles have been read.
use listnun.Prelude.{
  ℕ, ◌==◌, ◌≡◌, ◌⊎◌, inl, inr, refl, Bool, true, false, List, [], ◌∷◌, Text, contains,
  if◌then◌else◌, Bool-cases,
}
use listnun.Auth.{
  super_admin_role_id, has_get, has_manage, is_empty, permitted_ids, get_permitted_lists, ℤ, negsuc,
  int_eq, list_get, list_manage, ListPermission, User, has_perm, holds, has_all, passes, filter_ids,
  filter_lists_by_perm, role_user, setup_user_fields, subscribers_get_all, own_ids, fall_back,
  get_permitted_list_ids,
}
use listnun.Auth.Roles.{Granted, Distinct, setup_user_fields-Granted, kept}

-- What GetPermittedLists may return for a user who is not the super admin.
abbrev pub Permitted : ℕ → User → Bool × List ℤ → Type 0
Permitted types u (true, ids) = (ids ≡ []) × (has_all types u ≡ true)
Permitted types u (false, ids) =
    (ids ≡ [])
    ⊎ ((has_get types ≡ true) × Granted list_get u ids)
    ⊎ ((has_manage types ≡ true) × Granted list_manage u ids)

permitted :
    (types : ℕ) (u : User)
    → int_eq u.user_role_id super_admin_role_id ≡ false
    → Granted list_get u u.get_list_ids
    → Granted list_manage u u.manage_list_ids
    → Permitted types u (get_permitted_lists types u)
unfolding get_permitted_lists permitted_ids
permitted types u s g m = elim (Bool-cases (types == 0)) [
  | inl z ↦ rw z (inl refl)
  | inr z ↦ elim (Bool-cases (has_all types u)) [
    | inl a ↦ rw (z, s, a) (refl, a)
    | inr a ↦ rw (z, s, a) (ids (Bool-cases (has_get types)) (Bool-cases (is_empty u.get_list_ids)))
  ]
]
  where
    rest :
        (has_manage types ≡ true) ⊎ (has_manage types ≡ false)
        → ((if has_manage types then u.manage_list_ids else []) ≡ [])
          ⊎ ((has_get types ≡ true)
              × Granted list_get u (if has_manage types then u.manage_list_ids else []))
          ⊎ ((has_manage types ≡ true)
              × Granted list_manage u (if has_manage types then u.manage_list_ids else []))
    rest (inl h) = rw h (inr (inr (refl, m)))
    rest (inr h) = rw h (inl refl)

    ids :
        (has_get types ≡ true) ⊎ (has_get types ≡ false)
        → (is_empty u.get_list_ids ≡ true) ⊎ (is_empty u.get_list_ids ≡ false)
        → (permitted_ids types u ≡ [])
          ⊎ ((has_get types ≡ true) × Granted list_get u (permitted_ids types u))
          ⊎ ((has_manage types ≡ true) × Granted list_manage u (permitted_ids types u))
    ids (inl h) (inr e) = inr (inl (h, rw (h, e) g))
    ids (inl h) (inl e) = rw (h, e) (rw h at (rest (Bool-cases (has_manage types))))
    ids (inr h) e = rw h (rw h at (rest (Bool-cases (has_manage types))))

filtered-Granted : (ids : List ℤ) (u : User) → Granted list_get u (filter_ids 3 ids u)
unfolding filter_ids passes
filtered-Granted [] u = tt
filtered-Granted (id ∷ ids) u = elim (Bool-cases (holds (u.list_permissions_map id) list_get)) [
  | inl h ↦ rw h (h, filtered-Granted ids u)
  | inr h ↦ rw h (filtered-Granted ids u)
]

-- For a user without a permission for all lists, when no list has two entries in the list role:
-- GetPermittedListIDs returns only lists that the user may get, whatever IDs it is given, or the
-- one ID -1, which no list has.
get_permitted_list_ids-Granted :
    (perms : List Text) (lists : List ListPermission) (ids : List ℤ)
    → Distinct lists
    → has_all 3 (setup_user_fields perms lists) ≡ false
    → let u = setup_user_fields perms lists in
      Granted list_get u (get_permitted_list_ids ids u)
      ⊎ (get_permitted_list_ids ids u ≡ negsuc 0 ∷ [])
unfolding get_permitted_list_ids filter_lists_by_perm fall_back
get_permitted_list_ids-Granted perms lists ids d n =
    let u = setup_user_fields perms lists in
    rw n (
      go (filter_ids 3 ids u) u (filtered-Granted ids u)
        (setup_user_fields-Granted perms lists d).0)
  where
    go :
        (out : List ℤ) (u : User)
        → Granted list_get u out
        → Granted list_get u u.get_list_ids
        → Granted list_get u (fall_back out u) ⊎ (fall_back out u ≡ negsuc 0 ∷ [])
    go (id ∷ out) u g o = inl g
    go [] u g o = elim (Bool-cases (contains u.permissions_map subscribers_get_all)) [
      | inl a ↦ rw a (inl tt)
      | inr a ↦ rw a (own u.get_list_ids o)
    ]
      where
        own :
            (l : List ℤ)
            → Granted list_get u l
            → Granted list_get u (own_ids l) ⊎ (own_ids l ≡ negsuc 0 ∷ [])
        own [] o = inr refl
        own (id ∷ l) o = inl o

-- For each type of permission and a user read from the roles, when no list has two entries in the
-- list role: GetPermittedLists answers that all lists are permitted only if the user role says so,
-- and otherwise with no list, or with lists that the user may get when that was asked for, or with
-- lists that the user may manage when that was asked for.
get_permitted_lists-Permitted :
    (types : ℕ) (perms : List Text) (lists : List ListPermission)
    → Distinct lists
    → let u = setup_user_fields perms lists in Permitted types u (get_permitted_lists types u)
unfolding setup_user_fields
get_permitted_lists-Permitted types perms lists d =
    let (g, m) = setup_user_fields-Granted perms lists d in
    permitted types (setup_user_fields perms lists) (rw ((kept lists (role_user perms)).0) refl) g m

-- A user read from the roles has exactly the permissions of the user role: setupUserFields clears
-- the role's ID, so the test for the super admin never succeeds.
has_perm-roles :
    (perms : List Text) (lists : List ListPermission) (perm : Text)
    → has_perm perm (setup_user_fields perms lists) ≡ contains perms perm
unfolding setup_user_fields has_perm
has_perm-roles perms lists perm =
    rw ((kept lists (role_user perms)).0, (kept lists (role_user perms)).1) refl
