-- ===== src/Roles.antt =====
-- Rights and roles: internal/domain/model/permission_model.go and role_model.go, and the in-memory
-- repository of roles in internal/infrastructure/persistence/memory/memory.go.
mod Tests
pub mod Service
use go_time_recording.Base.{
  ℕ, zero, Bool, true, false, List, [], ◌∷◌, ◌++◌, String, ◌==◌, str_eq, if◌then◌else◌, count,
}
use go_time_recording.Errors.{Error, Result, ok, err}
use go_time_recording.Store
use go_time_recording.Store.{Store}
use go_time_recording.Text.{contains}
use go_time_recording.User.{User}

pub record Role : Type 0 where
  pub id : ℕ
  pub name : String
  pub description : String
  pub is_system : Bool
  pub permissions : List String

abbrev pub perm_role_write : String
perm_role_write = "roles:write"

abbrev pub system_admin_permissions : List String
system_admin_permissions =
    "users:read" ∷ "users:write" ∷ "users:delete" ∷ "roles:read" ∷ perm_role_write
    ∷ "settings:manage" ∷ []

abbrev pub user_permissions : List String
user_permissions =
    "projects:read" ∷ "projects:write" ∷ "projects:archive" ∷ "projects:delete"
    ∷ "timesheets:read:own" ∷ "timesheets:write:own" ∷ "timesheets:transfer" ∷ "reports:read:own"
    ∷ "settings:write:own" ∷ []

abbrev pub team_permissions : List String
team_permissions = "timesheets:read:team" ∷ "timesheets:write:team" ∷ "projects:write:team" ∷ []

abbrev pub user_admin_permissions : List String
user_admin_permissions = user_permissions ++ system_admin_permissions

abbrev pub manager_permissions : List String
manager_permissions = user_permissions ++ team_permissions

abbrev pub all_permissions : List String
all_permissions =
    "users:read" ∷ "users:write" ∷ "users:delete" ∷ "roles:read" ∷ perm_role_write
    ∷ "settings:manage" ∷ "projects:read" ∷ "projects:write" ∷ "projects:delete"
    ∷ "projects:archive" ∷ "timesheets:read:own" ∷ "timesheets:write:own" ∷ "timesheets:transfer"
    ∷ "reports:read:own" ∷ "settings:write:own" ∷ "timesheets:read:team" ∷ "timesheets:write:team"
    ∷ "projects:write:team" ∷ []

unfoldable pub is_permission : String → Bool
is_permission name = contains all_permissions name

unfoldable pub has : Role → String → Bool
has r permission = contains r.permissions permission

-- The shipped roles, before they are stored.
abbrev pub default_roles : List Role
default_roles =
    record {
      id = 0;
      name = "admin";
      description = "Administers the installation, its users and their roles";
      is_system = true;
      permissions = system_admin_permissions;
    }
    ∷ record {
      id = 0;
      name = "user";
      description = "Keeps their own time, projects and calendar";
      is_system = false;
      permissions = user_permissions;
    }
    ∷ record {
      id = 0;
      name = "user-admin";
      description = "Keeps their own time and projects, and administers the installation";
      is_system = false;
      permissions = user_admin_permissions;
    }
    ∷ record {
      id = 0;
      name = "manager";
      description =
          "Keeps their own time, and the time and projects of the accounts assigned to them";
      is_system = false;
      permissions = manager_permissions;
    }
    ∷ []

abbrev pub ships : List Role → String → Bool
ships [] name = false
ships (r ∷ rest) name = let later = ships rest name in if str_eq r.name name then true else later

unfoldable pub is_default : Role → Bool
is_default r = ships default_roles r.name

-- The accounts and the roles that they hold.
pub record Accounts (H : Type 0) : Type 0 where
  pub users : Store (User H)
  pub roles : Store Role

abbrev pub set_id : Role → ℕ → Role
set_id r id = record r { id = id }

-- The roles of a new installation.
abbrev pub seed : List Role → Store Role → Store Role
seed [] store = store
seed (r ∷ rest) store = seed rest (Store.add r set_id store).1

unfoldable pub new_roles : Store Role
new_roles = seed default_roles (Store.new_store "role")

-- The first role of a name, its case folded. A role missing by its name has the id 0.
abbrev pub first_named : (String → String → Bool) → String → List Role → Result Role
first_named equal_fold name [] = err (Error.not_found "role" 0)
first_named equal_fold name (r ∷ rest) =
    let later = first_named equal_fold name rest in if equal_fold r.name name then ok r else later

unfoldable pub get_by_name : (String → String → Bool) → String → Store Role → Result Role
get_by_name equal_fold name roles = first_named equal_fold name (Store.all roles)

unfoldable pub count_users : {H : Type 0} → ℕ → Store (User H) → ℕ
count_users role users = count (λ u. u.role_id == role) (Store.all users)
