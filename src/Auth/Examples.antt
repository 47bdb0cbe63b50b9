-- ===== src/Auth/Examples.antt =====
-- A user whose list role has two lists.
use listnun.Prelude.{◌≡◌, inr, refl, List, [], ◌∷◌, Text, text_eq, codes, contains}
use listnun.Auth.{
  pos, list_get, list_manage, ListPermission, has_list_perm, has_all, filter_lists_by_perm,
  filter_ids, passes, add_lists, add_perms, add_perm, open_list, setup_user_fields,
}
use listnun.Auth.Lists.{keep, filter_lists_by_perm_iff}

abbrev perms : List Text
perms = codes "subscribers:get" ∷ []

abbrev lists : List ListPermission
lists =
    record { id = pos 3; permissions = list_get ∷ [] }
    ∷ record { id = pos 4; permissions = list_manage ∷ [] }
    ∷ []

filter_lists_by_perm_iff_example :
    filter_lists_by_perm 2 (pos 3 ∷ pos 4 ∷ []) (setup_user_fields perms lists)
    ≡ keep (λ id. has_list_perm 2 (id ∷ []) (setup_user_fields perms lists)) (pos 3 ∷ pos 4 ∷ [])
unfolding setup_user_fields add_lists add_perms add_perm open_list text_eq
filter_lists_by_perm_iff_example =
    filter_lists_by_perm_iff 2 (pos 3 ∷ pos 4 ∷ []) (setup_user_fields perms lists) (inr refl) refl
      (refl, (refl, tt))

-- A list that the user may only manage is dropped when either permission is asked for.
manage_only :
    (filter_lists_by_perm 3 (pos 4 ∷ []) (setup_user_fields perms lists) ≡ [])
    × (filter_lists_by_perm 2 (pos 4 ∷ []) (setup_user_fields perms lists) ≡ pos 4 ∷ [])
unfolding setup_user_fields add_lists add_perms add_perm open_list has_all contains text_eq
    filter_lists_by_perm filter_ids passes
manage_only = (refl, refl)
