-- ===== src/Roles/Service/Laws.antt =====
-- That every account keeps a role that is there.
use mathlib.Core.Path.{subst, sym}
use go_time_recording.Base.{
  ℕ, ◌≡◌, ◌≢◌, ◌∙◌, ap, refl, arith, inl, inr, Bool, true, false, not, ◌&&◌, List, [], ◌∷◌, String,
  ltb, ◌==◌, if◌then◌else◌, All, Bool-cases,
}
use go_time_recording.Errors.{Error, ok, bind-ok, refuse_if-ok, ok_injective}
use go_time_recording.Store
use go_time_recording.Store.{Store, uint_mod}
use go_time_recording.Store.Laws.{IsValid, update-ok, delete-get}
use go_time_recording.Store.Members.{count-none, all-All}
use go_time_recording.User.{User}
use go_time_recording.Roles.{
  Role, Accounts, perm_role_write, has, is_default, first_named, get_by_name, count_users,
}
use go_time_recording.Roles.Service.{delete_role, assign_role_to_user}

-- A role reads as stored under its own id.
abbrev pub OwnIds : Store Role → Type 0
OwnIds roles = (id : ℕ) (r : Role) → Store.get id roles ≡ ok r → r.id ≡ id

module _ {H : Type 0} where
  -- An account's role is one of the roles.
  abbrev pub HasRole : Store Role → User H → Type 0
  HasRole roles u = (r : Role) × (Store.get u.role_id roles ≡ ok r)

  abbrev pub EveryoneHasRole : Accounts H → Type 0
  EveryoneHasRole a = (id : ℕ) (u : User H) → Store.get id a.users ≡ ok u → HasRole a.roles u

first_named-stored :
    (equal_fold : String → String → Bool) (P : Role → Type 0) (name : String) (rs : List Role)
    (r : Role)
    → All P rs
    → first_named equal_fold name rs ≡ ok r
    → P r
first_named-stored equal_fold P name [] r all h = cc
first_named-stored equal_fold P name (x ∷ rs) r all h = elim (Bool-cases (equal_fold x.name name)) [
  | inl same ↦ subst P (ok_injective (rw same at h)) all.0
  | inr other ↦ first_named-stored equal_fold P name rs r all.1 (rw other at h)
]

-- A role found by its name is stored under its id.
get_by_name-stored :
    (equal_fold : String → String → Bool) (name : String) (roles : Store Role) (r : Role)
    → OwnIds roles
    → get_by_name equal_fold name roles ≡ ok r
    → Store.get r.id roles ≡ ok r
unfolding get_by_name
get_by_name-stored equal_fold name roles r own h =
    first_named-stored equal_fold (λ x. Store.get x.id roles ≡ ok x) name (Store.all roles) r
      (all-All (λ x. Store.get x.id roles ≡ ok x) roles
        (λ id x got. subst (λ n. Store.get n roles ≡ ok x) (sym (own id x got)) got))
      h

first_named-named :
    (equal_fold : String → String → Bool) (name : String) (rs : List Role) (r : Role)
    → first_named equal_fold name rs ≡ ok r
    → equal_fold r.name name ≡ true
first_named-named equal_fold name [] r h = cc
first_named-named equal_fold name (x ∷ rs) r h = elim (Bool-cases (equal_fold x.name name)) [
  | inl same ↦ subst (λ q. equal_fold q.name name ≡ true) (ok_injective (rw same at h)) same
  | inr other ↦ first_named-named equal_fold name rs r (rw other at h)
]

get_by_name-named :
    (equal_fold : String → String → Bool) (name : String) (roles : Store Role) (r : Role)
    → get_by_name equal_fold name roles ≡ ok r
    → equal_fold r.name name ≡ true
unfolding get_by_name
get_by_name-named equal_fold name roles r h =
    first_named-named equal_fold name (Store.all roles) r h

delete-kept :
    (id : ℕ) (roles after : Store Role)
    → Store.delete id roles ≡ ok after
    → (n : ℕ) → n ≢ id
    → Store.get n after ≡ Store.get n roles
delete-kept id roles after deleted n other = elim (delete-get id roles n) [
  | inl (refused, missing) ↦ cc
  | inr (left, e, there, reads) ↦
      let same : left ≡ after = cc in
      subst (λ s. Store.get n s ≡ Store.get n roles) same (reads ∙ ground arith)
]

module _ {H : Type 0} where
  abbrev pub OwnUserIds : Store (User H) → Type 0
  OwnUserIds users = (id : ℕ) (u : User H) → Store.get id users ≡ ok u → u.id ≡ id

  -- The account asked for, moved to a role that bears the name asked for; every other account is as
  -- it was.
  pub record IsAssigned (equal_fold : String → String → Bool) (user : ℕ) (name : String)
      (a : Accounts H) (u : User H) (after : Accounts H) : Type 0 where
    pub old : User H
    pub known : Store.get user a.users ≡ ok old
    pub r : Role
    pub role_there : Store.get r.id a.roles ≡ ok r
    pub named : equal_fold r.name name ≡ true
    pub moved : u ≡ record old { role_id = r.id }
    pub administers : old.is_system ≡ true → has r perm_role_write ≡ true
    pub roles_kept : after.roles ≡ a.roles
    pub users_after :
        (n : ℕ) → Store.get n after.users ≡ (if n == user then ok u else Store.get n a.users)

  moved_HasRole :
      (user : ℕ) (a : Accounts H) (old : User H) (r : Role) (users : Store (User H))
      → Store.get r.id a.roles ≡ ok r
      → EveryoneHasRole a
      → ((n : ℕ)
          → Store.get n users
            ≡ (if n == user then ok (record old { role_id = r.id }) else Store.get n a.users))
      → (id : ℕ) (u : User H) → Store.get id users ≡ ok u
      → HasRole a.roles u
  moved_HasRole user a old r users there all reads id u got = elim (Bool-cases (id == user)) [
    | inl moved ↦
        let same : record old { role_id = r.id } ≡ u =
          ok_injective (sym (reads id ∙ rw moved refl) ∙ got) in
        (r, subst (λ x. Store.get x.role_id a.roles ≡ ok r) same there)
    | inr other ↦ all id u (sym (reads id ∙ rw other refl) ∙ got)
  ]

  -- Moving an account gives the account asked for, and no other, a role that is there and bears the
  -- name asked for, its case folded; the built-in administrator gets only one that may write roles.
  -- No role is changed, nor anything else of any account, so that everybody still has a role that is
  -- there. Roles and accounts must be stored under their own ids.
  pub assign_role_to_user-EveryoneHasRole :
      (equal_fold : String → String → Bool) (user : ℕ) (name : String) (a after : Accounts H)
      (u : User H)
      → OwnIds a.roles
      → OwnUserIds a.users
      → EveryoneHasRole a
      → assign_role_to_user equal_fold user name a ≡ ok (u, after)
      → IsAssigned equal_fold user name a u after × EveryoneHasRole after
  unfolding assign_role_to_user
  assign_role_to_user-EveryoneHasRole equal_fold user name a after u own own_users all done =
      let (old, known, rest) = bind-ok (Store.get user a.users) _ done in
      let (r, named, rest1) = bind-ok (get_by_name equal_fold name a.roles) _ rest in
      let (allowed, rest2) =
        refuse_if-ok (old.is_system && not (has r perm_role_write))
          (Error.conflict "adminRoleMustAdminister") _ rest1 in
      let ((updated, users), written, end) =
        bind-ok (Store.update old.id (record old { role_id = r.id }) a.users) _ rest2 in
      let (is, reads) =
        update-ok old.id (record old { role_id = r.id }) a.users updated users written in
      let there = get_by_name-stored equal_fold name a.roles r own named in
      let reads_user = λ (n : ℕ).
        reads n
        ∙ ap (λ i. if n == i then ok (record old { role_id = r.id }) else Store.get n a.users)
            (own_users user old known) in
      subst (λ x. IsAssigned equal_fold user name a x.0 x.1 × EveryoneHasRole x.1)
        (ap (λ x. (x, record a { users = users })) (sym is) ∙ ok_injective end)
        (
          record {
            old = old;
            known = known;
            r = r;
            role_there = there;
            named = get_by_name-named equal_fold name a.roles r named;
            moved = refl;
            administers = λ system. ground arith;
            roles_kept = refl;
            users_after = reads_user;
          },
          moved_HasRole user a old r users there all reads_user,
        )

  deleted_HasRole :
      (id : ℕ) (a : Accounts H) (roles : Store Role) (r : Role)
      → IsValid a.users
      → EveryoneHasRole a
      → ltb 0 (count_users id a.users) ≡ false
      → ((n : ℕ) → n ≢ id → Store.get n roles ≡ Store.get n a.roles)
      → EveryoneHasRole (record a { roles = roles })
  unfolding count_users
  deleted_HasRole id a roles r valid all unused kept n u got =
      let (own, has_it) = all n u got in
      let other : (u.role_id == id) ≡ false =
        count-none (λ x. x.role_id == id) a.users n u valid (ground arith) got in
      (own, kept u.role_id (λ e. ground arith) ∙ has_it)

  -- A role is deleted only if nobody has it, and it is neither the system's nor one that ships: so
  -- everybody still has a role that is there, and no other role is touched.
  pub delete_role-EveryoneHasRole :
      (id : ℕ) (a after : Accounts H)
      → IsValid a.users
      → EveryoneHasRole a
      → delete_role id a ≡ ok after
      → (r : Role) × (Store.get id a.roles ≡ ok r)
        × (r.is_system ≡ false)
        × (is_default r ≡ false)
        × (after.users ≡ a.users)
        × ((n : ℕ) → n ≢ id → Store.get n after.roles ≡ Store.get n a.roles)
        × EveryoneHasRole after
  unfolding delete_role
  delete_role-EveryoneHasRole id a after valid all done =
      let (named, rest) = refuse_if-ok (id == 0) (Error.invalid_fields ("id" ∷ [])) _ done in
      let (r, known, rest1) = bind-ok (Store.get id a.roles) _ rest in
      let (other, rest2) =
        refuse_if-ok r.is_system (Error.conflict "systemRoleUndeletable") _ rest1 in
      let (custom, rest3) =
        refuse_if-ok (is_default r) (Error.conflict "defaultRoleUndeletable") _ rest2 in
      let (unused, rest4) =
        refuse_if-ok (ltb 0 (count_users id a.users)) (Error.conflict "roleStillAssigned") _
          rest3 in
      let (roles, deleted, end) = bind-ok (Store.delete id a.roles) _ rest4 in
      let kept = delete-kept id a.roles roles deleted in
      let same : record a { roles = roles } ≡ after = ok_injective end in
      (
        r,
        known,
        other,
        custom,
        sym (ap (λ x. x.users) same),
        subst (λ x. (n : ℕ) → n ≢ id → Store.get n x.roles ≡ Store.get n a.roles) same kept,
        subst EveryoneHasRole same (deleted_HasRole id a roles r valid all unused kept),
      )
