-- ===== src/Auth/Lists.antt =====
-- The tests for a user's lists agree with each other and with the user's roles.
use listnun.Prelude.{
  ℕ, ◌≡◌, ◌⊎◌, inl, inr, refl, ap, Bool, true, false, ◌&&◌, ◌||◌, List, [], ◌∷◌, All, contains,
  if◌then◌else◌, Bool-cases, arith,
}
use listnun.Auth.{
  ℤ, int_eq, is_positive, super_admin_role_id, list_get_all, list_manage_all, User, has_perm,
  has_this_list_perm, has_each, perms_of, has_list_perm, has_all, passes, filter_ids,
  filter_lists_by_perm,
}

-- The IDs that a test lets through, in their order.
abbrev pub keep : (ℤ → Bool) → List ℤ → List ℤ
keep p [] = []
keep p (id ∷ ids) = if p id then id ∷ keep p ids else keep p ids

keep-all : (p : ℤ → Bool) (ids : List ℤ) → ((id : ℤ) → p id ≡ true) → keep p ids ≡ ids
keep-all p [] h = refl
keep-all p (id ∷ ids) h = rw (h id, keep-all p ids h) refl

or_false : (a b : Bool) → (a || b && true) ≡ ((a || false) || b)
or_false a b = ground arith

or_true : (a b : Bool) → (a || b && true) ≡ (a || b)
or_true a b = ground arith

-- The test of HasListPerm for one ID, for a user who is not the super admin.
one_list :
    (types : ℕ) (id : ℤ) (u : User)
    → (types ≡ 1) ⊎ (types ≡ 2)
    → int_eq u.user_role_id super_admin_role_id ≡ false
    → is_positive id ≡ true
    → has_list_perm types (id ∷ []) u
      ≡ (has_all types u || passes types (u.list_permissions_map id))
unfolding has_list_perm has_perm has_each has_this_list_perm perms_of has_all passes
one_list types id u (inl t) s p =
    rw (t, s, p) (or_false (contains u.permissions_map list_get_all) _)
one_list types id u (inr t) s p =
    rw (t, s, p) (or_true (contains u.permissions_map list_manage_all) _)

keep-passes :
    (types : ℕ) (ids : List ℤ) (u : User)
    → (types ≡ 1) ⊎ (types ≡ 2)
    → int_eq u.user_role_id super_admin_role_id ≡ false
    → All (λ id. is_positive id ≡ true) ids
    → (if has_all types u then ids else filter_ids types ids u)
      ≡ keep (λ id. has_list_perm types (id ∷ []) u) ids
unfolding filter_ids
keep-passes types [] u t s p = elim (Bool-cases (has_all types u)) [
  | inl a ↦ rw a refl
  | inr a ↦ rw a refl
]
keep-passes types (id ∷ ids) u t s p =
    let ih = keep-passes types ids u t s p.1 in
    let one = one_list types id u t s p.0 in
    elim (Bool-cases (has_all types u)) [
      | inl a ↦ rw (one, a) (ap (λ l. id ∷ l) (rw a at ih))
      | inr a ↦ elim (Bool-cases (passes types (u.list_permissions_map id))) [
        | inl k ↦ rw (one, a, k, filter_ids) (ap (λ l. id ∷ l) (rw a at ih))
        | inr k ↦ rw (one, a, k, filter_ids) (rw a at ih)
      ]
    ]

-- For each of the two permission types, and a user who is not the super admin: FilterListsByPerm
-- keeps exactly those of the IDs, all positive, for which HasListPerm has no error, in their order.
pub filter_lists_by_perm_iff :
    (types : ℕ) (ids : List ℤ) (u : User)
    → (types ≡ 1) ⊎ (types ≡ 2)
    → int_eq u.user_role_id super_admin_role_id ≡ false
    → All (λ id. is_positive id ≡ true) ids
    → filter_lists_by_perm types ids u ≡ keep (λ id. has_list_perm types (id ∷ []) u) ids
unfolding filter_lists_by_perm
filter_lists_by_perm_iff types ids u (inl t) s p = rw t (keep-passes 1 ids u (inl refl) s p)
filter_lists_by_perm_iff types ids u (inr t) s p = rw t (keep-passes 2 ids u (inr refl) s p)
