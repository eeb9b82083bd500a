-- ===== src/Accounts/Permissions.antt =====
-- The permission classes of apps/authentication/permissions.py.
use text.Mathlib.Text.{◌==◌ as str_eq}
use smart_stock_ai.Prelude.{
  ℕ, Bool, true, false, ◌&&◌, Option, none, some, List, [], ◌∷◌, String, if◌then◌else◌, leb, ◌≡◌,
  ◌≤◌, ◌↔◌, any, arith, ◌⊎◌,
}

-- CustomUser.Role
pub data Role : Type 0 where
  viewer manager admin : Role

-- The user of a request: whether it is logged in, and its role, none for one outside of the choices.
pub record User : Type 0 where
  pub is_authenticated : Bool
  pub role : Option Role

pub record Request : Type 0 where
  pub user : Option User
  pub method : String

abbrev pub role_hierarchy : Option Role → ℕ
role_hierarchy none = 0
role_hierarchy (some Role.viewer) = 1
role_hierarchy (some Role.manager) = 2
role_hierarchy (some Role.admin) = 3

unfoldable pub user_role_level : Option User → ℕ
user_role_level none = 0
user_role_level (some u) = if u.is_authenticated then role_hierarchy u.role else 0

-- SAFE_METHODS of the package rest_framework
abbrev pub safe_methods : List String
safe_methods = "GET" ∷ "HEAD" ∷ "OPTIONS" ∷ []

pub data Permission : Type 0 where
  is_viewer_or_above is_manager_or_above is_admin_only read_only : Permission
  is_viewer is_manager is_admin : Permission

abbrev pub same_role : Role → Option Role → Bool
same_role Role.viewer (some Role.viewer) = true
same_role Role.manager (some Role.manager) = true
same_role Role.admin (some Role.admin) = true
same_role _ _ = false

abbrev pub has_role : Role → Option User → Bool
has_role r none = false
has_role r (some u) = u.is_authenticated && same_role r u.role

-- `has_permission`
unfoldable pub has_permission : Permission → Request → Bool
has_permission is_viewer_or_above q = leb 1 (user_role_level q.user)
has_permission is_manager_or_above q = leb 2 (user_role_level q.user)
has_permission is_admin_only q = leb 3 (user_role_level q.user)
has_permission read_only q =
    if any (str_eq q.method) safe_methods
    then leb 1 (user_role_level q.user)
    else leb 2 (user_role_level q.user)
has_permission is_viewer q = has_role Role.viewer q.user
has_permission is_manager q = has_role Role.manager q.user
has_permission is_admin q = has_role Role.admin q.user

-- The least role that a permission asks for, and whether a higher one does as well.
abbrev pub least_level : Permission → String → ℕ
least_level is_viewer_or_above m = 1
least_level is_manager_or_above m = 2
least_level is_admin_only m = 3
least_level read_only m = if any (str_eq m) safe_methods then 1 else 2
least_level is_viewer m = 1
least_level is_manager m = 2
least_level is_admin m = 3

abbrev pub is_exact : Permission → Bool
is_exact is_viewer = true
is_exact is_manager = true
is_exact is_admin = true
is_exact _ = false

-- A permission is granted exactly if the level of the user is the one that it asks for or, if it is not
-- for one role alone, a higher one; nobody without a login has it.
pub has_permission_lem :
    (p : Permission) (q : Request)
    → (has_permission p q ≡ true) ↔ (
        (least_level p q.method ≤ user_role_level q.user)
        × ((is_exact p ≡ false) ⊎ (user_role_level q.user ≡ least_level p q.method)))
unfolding has_permission user_role_level
has_permission_lem p q = ground arith
