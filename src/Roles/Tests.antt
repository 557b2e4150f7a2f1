-- ===== src/Roles/Tests.antt =====
-- An installation with its built-in administrator and a role of its own.
use go_time_recording.Text.{trim_space, too_long}
use mathlib.Core.Path.{subst}
use go_time_recording.Base.{
  Bool-cases, inl, inr, ℕ, ◌≡◌, ◌≢◌, refl, arith, true, false, none, some, [], ◌∷◌, ◌==◌, str_eq,
  if◌then◌else◌,
}
use go_time_recording.Errors.{ok, ok_injective}
use go_time_recording.Store
use go_time_recording.Store.{Store}
use go_time_recording.Store.Laws.{IsValid}
use go_time_recording.User.{User}
use go_time_recording.Booking.Tests.{ada}
use go_time_recording.Roles.{
  Role, Accounts, system_admin_permissions, perm_role_write, is_default, has, get_by_name,
  count_users, is_permission,
}
use go_time_recording.Roles.Service.{
  update_role, delete_role, assign_role_to_user, guard_default, same_rights, validate_role,
  clean_loop,
}
use go_time_recording.Roles.Service.Rights.{AllKnown}
use go_time_recording.Roles.Service.Shipped.{IsKept, update_role-shipped}
use go_time_recording.Roles.Service.Laws.{
  OwnIds, OwnUserIds, EveryoneHasRole, IsAssigned, HasRole, assign_role_to_user-EveryoneHasRole,
  delete_role-EveryoneHasRole,
}

abbrev admin_role : Role
admin_role = record {
  id = 1;
  name = "admin";
  description = "Administers the installation, its users and their roles";
  is_system = true;
  permissions = system_admin_permissions;
}

abbrev keeper_role : Role
keeper_role = record {
  id = 2;
  name = "keeper";
  description = "";
  is_system = false;
  permissions = "users:read" ∷ perm_role_write ∷ [];
}

abbrev spare_role : Role
spare_role = record keeper_role { id = 3; name = "spare" }

abbrev roles : Store Role
roles = record {
  items = λ n.
      if n == 1
      then some admin_role
      else if n == 2
      then some keeper_role
      else if n == 3
      then some spare_role
      else none;
  next_id = 4;
  entity = "role";
}

abbrev root_user : User ℕ
root_user = record ada { role_id = 1; is_system = true }

abbrev installation : Accounts ℕ
installation = record {
  users = record {
    items = λ n. if n == 1 then some root_user else none;
    next_id = 2;
    entity = "user";
  };
  roles = roles;
}

own_ids : OwnIds roles
unfolding Store.get
own_ids id r got = ground arith

own_user_ids : OwnUserIds installation.users
unfolding Store.get
own_user_ids id u got = ground arith

everyone : EveryoneHasRole installation
unfolding Store.get
everyone id u got = elim (Bool-cases (id == 1)) [
  | inl one ↦ subst (HasRole roles) (ok_injective (rw one at got)) (admin_role, refl)
  | inr other ↦ let nobody = rw other at got in cc
]

users-IsValid : IsValid installation.users
users-IsValid = record {
  ids_from_one = omega arith;
  ids_fit = omega arith;
  none_at_zero = refl;
  fresh = λ id le. ground arith;
}

abbrev kept_user : User ℕ
kept_user = record root_user { role_id = 2 }

abbrev kept_installation : Accounts ℕ
kept_installation = record installation {
  users = record installation.users {
    items = Store.write 1 (some kept_user) installation.users.items;
  };
}

kept : assign_role_to_user str_eq 1 "keeper" installation ≡ ok (kept_user, kept_installation)
unfolding assign_role_to_user Store.get get_by_name Store.all has Store.update
kept = refl

assign_role_to_user-EveryoneHasRole_example :
    IsAssigned str_eq 1 "keeper" installation kept_user kept_installation
    × EveryoneHasRole kept_installation
assign_role_to_user-EveryoneHasRole_example =
    assign_role_to_user-EveryoneHasRole str_eq 1 "keeper" installation kept_installation kept_user
      own_ids own_user_ids everyone kept

abbrev fewer_roles : Accounts ℕ
fewer_roles = record installation {
  roles = record roles { items = Store.write 3 none roles.items };
}

deleted : delete_role 3 installation ≡ ok fewer_roles
unfolding delete_role Store.get is_default count_users Store.all Store.delete
deleted = refl

delete_role-EveryoneHasRole_example :
    (r : Role) × (Store.get 3 installation.roles ≡ ok r)
    × (r.is_system ≡ false)
    × (is_default r ≡ false)
    × (fewer_roles.users ≡ installation.users)
    × ((n : ℕ) → n ≢ 3 → Store.get n fewer_roles.roles ≡ Store.get n installation.roles)
    × EveryoneHasRole fewer_roles
delete_role-EveryoneHasRole_example =
    delete_role-EveryoneHasRole 3 installation fewer_roles users-IsValid everyone deleted

abbrev same_roles : Store Role
same_roles = record roles { items = Store.write 1 (some admin_role) roles.items }

unchanged :
    update_role 1 none none (some (system_admin_permissions)) roles ≡ ok (admin_role, same_roles)
unfolding update_role Store.get guard_default is_default same_rights validate_role trim_space
    too_long clean_loop is_permission Store.update
unchanged = refl

admin_known : AllKnown system_admin_permissions
unfolding is_permission
admin_known p here = ground arith

update_role-shipped_example : IsKept admin_role admin_role same_roles
unfolding Store.get is_default
update_role-shipped_example =
    update_role-shipped 1 none none (some system_admin_permissions) roles same_roles admin_role
      admin_role refl refl admin_known unchanged

-- The role that the administrator was moved to may be stripped of the right to write roles.
abbrev stripped_role : Role
stripped_role = record keeper_role { permissions = "users:read" ∷ [] }

stripped :
    update_role 2 none none (some ("users:read" ∷ [])) kept_installation.roles
    ≡ ok (stripped_role, record roles { items = Store.write 2 (some stripped_role) roles.items })
unfolding update_role Store.get go_time_recording.Roles.Service.guard_default is_default
    go_time_recording.Roles.Service.validate_role go_time_recording.Text.trim_space
    go_time_recording.Text.too_long go_time_recording.Roles.Service.clean_loop
    go_time_recording.Roles.is_permission Store.update
stripped = refl

locked_out : (kept_user.is_system ≡ true) × (has stripped_role perm_role_write ≡ false)
unfolding has
locked_out = (refl, refl)
