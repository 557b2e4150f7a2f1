-- ===== src/Roles/Service.antt =====
-- Keeping the roles: internal/application/v1/service/role_application_service.go, and moving an
-- account to a role in internal/domain/service/user_service.go. What differs only in letter case is
-- told by `equal_fold`, Go's `strings.EqualFold`.
pub mod Laws
pub mod Rights
pub mod Shipped
use go_time_recording.Base.{
  ℕ, Bool, true, false, not, ◌&&◌, ◌||◌, Option, none, some, List, [], ◌∷◌, ◌++◌, String, ltb, ◌==◌,
  str_eq, if◌then◌else◌, length,
}
use go_time_recording.Errors.{Error, Result, ok, err, ◌>>=◌, ◌>>◌, refuse_if}
use go_time_recording.Store
use go_time_recording.Store.{Store}
use go_time_recording.Text.{contains, trim_space, too_long}
use go_time_recording.User.{User}
use go_time_recording.Roles.{
  Role, Accounts, perm_role_write, is_permission, has, is_default, get_by_name, count_users, set_id,
}

abbrev pub max_role_name_length : ℕ
max_role_name_length = 64

-- The loop over the rights asked for: those known, each once, and whether one is unknown.
unfoldable pub clean_loop : List String → List String → Bool → List String × Bool
clean_loop [] clean unknown = (clean, unknown)
clean_loop (p ∷ rest) clean unknown =
    let permission = trim_space p in
    let ignored = str_eq permission "" in
    let known = is_permission permission in
    clean_loop rest
      (if ignored || (not known || contains clean permission)
        then clean
        else clean ++ permission ∷ [])
      (if ignored then unknown else unknown || not known)

abbrev pub nonempty_list : List String → Bool
nonempty_list [] = false
nonempty_list (p ∷ rest) = true

unfoldable pub validate_role : String → List String → Result (List String)
validate_role name permissions = do
  refuse_if (str_eq (trim_space name) "" || too_long name max_role_name_length)
      (Error.invalid_fields ("name" ∷ []))
  let (clean, unknown) = clean_loop permissions [] false
  refuse_if unknown (Error.invalid "unknownPermissions")
  refuse_if (not (nonempty_list clean)) (Error.invalid "roleGrantsNothing")
  ok clean

abbrev pub grants_at_least : List String → List String → Bool
grants_at_least granted [] = true
grants_at_least granted (p ∷ rest) =
    let later = grants_at_least granted rest in if not (contains granted p) then false else later

unfoldable pub same_rights : List String → List String → Bool
same_rights a b =
    if not (length a == length b) then false else grants_at_least a b && grants_at_least b a

abbrev pub changes_text : Option String → String → Bool
changes_text none current = false
changes_text (some text) current = not (str_eq text current)

abbrev pub changes_description : Option String → String → Bool
changes_description none current = false
changes_description (some text) current = not (str_eq (trim_space text) current)

abbrev pub changes_rights : Option (List String) → List String → Bool
changes_rights none current = false
changes_rights (some permissions) current = not (same_rights permissions current)

-- What a shipped role refuses.
unfoldable pub guard_default :
    Role → Option String → Option String → Option (List String) → Result (Unit {0})
guard_default r name description permissions =
    if not (is_default r)
    then ok tt
    else if changes_text name r.name
    then err (Error.conflict "systemRoleUnrenamable")
    else if changes_rights permissions r.permissions
    then err (Error.conflict "systemRoleRightsFixed")
    else if changes_description description r.description
    then err (Error.conflict "systemRoleDescriptionFixed")
    else ok tt

abbrev pub text_or : Option String → String → String
text_or none current = current
text_or (some text) current = trim_space text

abbrev pub rights_or : Option (List String) → String → List String → Result (List String)
rights_or none name current = ok current
rights_or (some permissions) name current = validate_role name permissions

unfoldable pub create_role : String → String → List String → Store Role → Result (Role × Store Role)
create_role name description permissions roles = do
  clean ← validate_role name permissions
  ok (
      Store.add
        (record {
          id = 0;
          name = trim_space name;
          description = trim_space description;
          is_system = false;
          permissions = clean;
        })
        set_id roles)

unfoldable pub update_role :
    ℕ
    → Option String
    → Option String
    → Option (List String)
    → Store Role
    → Result (Role × Store Role)
update_role id name description permissions roles = do
  refuse_if (id == 0) (Error.invalid_fields ("id" ∷ []))
  r ← Store.get id roles
  guard_default r name description permissions
  let name' = text_or name r.name
  rights ← rights_or permissions name' r.permissions
  refuse_if (str_eq name' "") (Error.invalid_fields ("name" ∷ []))
  Store.update r.id
      (record r {
        name = name';
        description = text_or description r.description;
        permissions = rights;
      })
      roles

unfoldable pub delete_role : {H : Type 0} → ℕ → Accounts H → Result (Accounts H)
delete_role id accounts = do
  refuse_if (id == 0) (Error.invalid_fields ("id" ∷ []))
  r ← Store.get id accounts.roles
  refuse_if r.is_system (Error.conflict "systemRoleUndeletable")
  refuse_if (is_default r) (Error.conflict "defaultRoleUndeletable")
  refuse_if (ltb 0 (count_users id accounts.users)) (Error.conflict "roleStillAssigned")
  roles ← Store.delete id accounts.roles
  ok (record accounts { roles = roles })

-- Moving an account to a role.
unfoldable pub assign_role_to_user :
    {H : Type 0} → (String → String → Bool) → ℕ → String → Accounts H → Result (User H × Accounts H)
assign_role_to_user equal_fold user name accounts = do
  u ← Store.get user accounts.users
  r ← get_by_name equal_fold name accounts.roles
  refuse_if (u.is_system && not (has r perm_role_write)) (Error.conflict "adminRoleMustAdminister")
  (updated, users) ← Store.update u.id (record u { role_id = r.id }) accounts.users
  ok (updated, record accounts { users = users })
