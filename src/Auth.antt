-- ===== src/Auth.antt =====
-- A user's permissions (internal/auth/models.go) and how they are read from the user's roles
-- (setupUserFields in internal/core/users.go).
pub mod Lists
pub mod Roles
pub mod Permitted
mod Examples
use listnun.Prelude.{
  ℕ, ◌+◌, ◌*◌, ◌%◌, ◌/◌, Bool, true, false, not, ◌&&◌, ◌||◌, Option, none, some, List, [], ◌∷◌,
  ◌++◌, Text, codes, contains, text_eq, ltb, ◌==◌, if◌then◌else◌,
}

-- Go ints as IDs.
pub data ℤ : Type 0 where
  pos negsuc : ℕ → ℤ

abbrev pub int_eq : ℤ → ℤ → Bool
int_eq (pos a) (pos b) = a == b
int_eq (negsuc a) (negsuc b) = a == b
int_eq _ _ = false

abbrev pub is_positive : ℤ → Bool
is_positive (pos n) = ltb 0 n
is_positive (negsuc n) = false

abbrev pub super_admin_role_id : ℤ
super_admin_role_id = pos 1

abbrev pub list_get_all : Text
list_get_all = codes "lists:get_all"

abbrev pub list_manage_all : Text
list_manage_all = codes "lists:manage_all"

abbrev pub list_get : Text
list_get = codes "list:get"

abbrev pub list_manage : Text
list_manage = codes "list:manage"

abbrev pub subscribers_get_all : Text
subscribers_get_all = codes "subscribers:get_all"

-- The bits PermTypeGet and PermTypeManage of a PermType.
abbrev pub has_get : ℕ → Bool
has_get types = types % 2 == 1

abbrev pub has_manage : ℕ → Bool
has_manage types = types / 2 % 2 == 1

pub record ListPermission : Type 0 where
  pub id : ℤ
  pub permissions : List Text

-- The fields of User that decide. A map of sets is a function.
pub record User : Type 0 where
  pub user_role_id : ℤ
  pub permissions_map : List Text
  pub list_permissions_map : ℤ → Option (List Text)
  pub get_list_ids : List ℤ
  pub manage_list_ids : List ℤ

-- HasPerm
unfoldable pub has_perm : Text → User → Bool
has_perm perm u = int_eq u.user_role_id super_admin_role_id || contains u.permissions_map perm

abbrev pub holds : Option (List Text) → Text → Bool
holds none perm = false
holds (some perms) perm = contains perms perm

-- hasListPerm
unfoldable pub has_this_list_perm : Text → ℤ → User → Bool
has_this_list_perm perm id u =
    int_eq u.user_role_id super_admin_role_id || holds (u.list_permissions_map id) perm

-- The loop of HasListPerm.
unfoldable pub has_each : Text → List ℤ → User → Bool
has_each perm [] u = true
has_each perm (id ∷ ids) u =
    (not (is_positive id) || has_this_list_perm perm id u) && has_each perm ids u

-- The two names that HasListPerm looks for; both are empty for other types.
unfoldable pub perms_of : ℕ → Text × Text
perms_of types =
    if has_get types
    then (list_get_all, list_get)
    else (if has_manage types then (list_manage_all, list_manage) else ([], []))

-- HasListPerm: whether it returns no error.
unfoldable pub has_list_perm : ℕ → List ℤ → User → Bool
has_list_perm types ids u =
    not (types == 0) && (has_perm (perms_of types).0 u || has_each (perms_of types).1 ids u)

-- The first returns of GetPermittedLists and FilterListsByPerm.
unfoldable pub has_all : ℕ → User → Bool
has_all types u =
    has_get types && contains u.permissions_map list_get_all
    || has_manage types && contains u.permissions_map list_manage_all

abbrev pub is_empty : List ℤ → Bool
is_empty [] = true
is_empty (id ∷ ids) = false

-- The returns of GetPermittedLists after those that say that all lists are permitted.
unfoldable pub permitted_ids : ℕ → User → List ℤ
permitted_ids types u =
    if has_get types && not (is_empty u.get_list_ids)
    then u.get_list_ids
    else (if has_manage types then u.manage_list_ids else [])

-- GetPermittedLists; the Boolean says that all lists are permitted.
unfoldable pub get_permitted_lists : ℕ → User → Bool × List ℤ
get_permitted_lists types u =
    if types == 0
    then (false, [])
    else (if int_eq u.user_role_id super_admin_role_id || has_all types u
        then (true, [])
        else (false, permitted_ids types u))

-- The test in the loop of FilterListsByPerm.
unfoldable pub passes : ℕ → Option (List Text) → Bool
passes types l =
    if has_get types then holds l list_get else (has_manage types && holds l list_manage)

unfoldable pub filter_ids : ℕ → List ℤ → User → List ℤ
filter_ids types [] u = []
filter_ids types (id ∷ ids) u =
    if passes types (u.list_permissions_map id)
    then id ∷ filter_ids types ids u
    else filter_ids types ids u

-- FilterListsByPerm
unfoldable pub filter_lists_by_perm : ℕ → List ℤ → User → List ℤ
filter_lists_by_perm types ids u =
    if types == 0 then [] else (if has_all types u then ids else filter_ids types ids u)

-- The user's own lists, or the ID -1.
abbrev pub own_ids : List ℤ → List ℤ
own_ids [] = negsuc 0 ∷ []
own_ids (id ∷ ids) = id ∷ ids

-- GetPermittedListIDs
unfoldable pub fall_back : List ℤ → User → List ℤ
fall_back [] u =
    if contains u.permissions_map subscribers_get_all then [] else own_ids u.get_list_ids
fall_back (id ∷ ids) u = id ∷ ids

unfoldable pub get_permitted_list_ids : List ℤ → User → List ℤ
get_permitted_list_ids ids u = fall_back (filter_lists_by_perm 3 ids u) u

abbrev pub perms_at : Option (List Text) → List Text
perms_at none = []
perms_at (some perms) = perms

-- setupUserFields: the loop over the permissions of one list.
unfoldable pub add_perm : ℤ → Text → User → User
add_perm id perm u = record u {
  list_permissions_map = λ k.
      if int_eq k id
      then some (perm ∷ perms_at (u.list_permissions_map k))
      else (u.list_permissions_map k);
  get_list_ids = if text_eq perm list_get then u.get_list_ids ++ (id ∷ []) else u.get_list_ids;
  manage_list_ids =
      if text_eq perm list_manage then u.manage_list_ids ++ (id ∷ []) else u.manage_list_ids;
}

unfoldable pub add_perms : ℤ → List Text → User → User
add_perms id [] u = u
add_perms id (perm ∷ perms) u = add_perms id perms (add_perm id perm u)

unfoldable pub open_list : ℤ → User → User
open_list id u = record u {
  list_permissions_map = λ k. if int_eq k id then some [] else u.list_permissions_map k;
}

unfoldable pub add_lists : List ListPermission → User → User
add_lists [] u = u
add_lists (l ∷ ls) u = add_lists ls (add_perms l.id l.permissions (open_list l.id u))

-- A user with the permissions of the user role, before the lists of the list role are added. The
-- role's ID has been cleared.
abbrev pub role_user : List Text → User
role_user perms = record {
  user_role_id = pos 0;
  permissions_map = perms;
  list_permissions_map = λ k. none;
  get_list_ids = [];
  manage_list_ids = [];
}

-- setupUserFields for the permissions of a user's role and the lists of the list role, which are
-- none without such a role.
unfoldable pub setup_user_fields : List Text → List ListPermission → User
setup_user_fields perms lists = add_lists lists (role_user perms)
