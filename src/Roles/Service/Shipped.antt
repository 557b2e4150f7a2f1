-- ===== src/Roles/Service/Shipped.antt =====
-- The roles that ship cannot be changed.
use mathlib.Core.Path.{subst, sym}
use text.Mathlib.TextEquality.{eq_iff}
use go_time_recording.Base.{
  ℕ, ◌≡◌, ◌∙◌, ap, refl, arith, true, false, Option, none, some, List, [], ◌∷◌, String, ◌==◌,
  str_eq, All, Bool-cases, inl, inr,
}
use go_time_recording.Errors.{Error, ok, bind-ok, check-ok, refuse_if-ok, ok_injective}
use go_time_recording.Store
use go_time_recording.Store.{Store}
use go_time_recording.Store.Laws.{update-ok}
use go_time_recording.Text.{contains, trim_space, trim_left, trim_right, is_space}
use go_time_recording.Roles.{Role, default_roles, ships, is_default}
use go_time_recording.Roles.Service.{
  guard_default, text_or, rights_or, changes_text, changes_rights, changes_description, update_role,
}
use go_time_recording.Roles.Service.Rights.{AllKnown, validate_role-same}

-- The name of a role that ships has no space around it.
ships-trim :
    (rs : List Role) (name : String)
    → All (λ r. trim_space r.name ≡ r.name) rs
    → ships rs name ≡ true
    → trim_space name ≡ name
ships-trim [] name all h = cc
ships-trim (r ∷ rest) name all h = elim (Bool-cases (str_eq r.name name)) [
  | inl same ↦ subst (λ n. trim_space n ≡ n) ((eq_iff r.name name).0 same) all.0
  | inr other ↦ ships-trim rest name all.1 (ground arith)
]

default_names-trim : All (λ r. trim_space r.name ≡ r.name) default_roles
unfolding trim_space trim_left trim_right is_space
default_names-trim = (refl, (refl, (refl, (refl, tt))))

-- What a shipped role lets through.
record IsAllowed (r : Role) (name description : Option String) (permissions : Option (List String))
    : Type 0 where
  same_name : changes_text name r.name ≡ false
  same_permissions : changes_rights permissions r.permissions ≡ false
  same_description : changes_description description r.description ≡ false

guard_default-ok :
    (r : Role) (name description : Option String) (permissions : Option (List String))
    → is_default r ≡ true
    → guard_default r name description permissions ≡ ok tt
    → IsAllowed r name description permissions
unfolding guard_default
guard_default-ok r name description permissions shipped done = record {
  same_name = ground arith;
  same_permissions = ground arith;
  same_description = ground arith;
}

text_or-name :
    (r : Role) (name : Option String)
    → is_default r ≡ true
    → changes_text name r.name ≡ false
    → text_or name r.name ≡ r.name
unfolding is_default
text_or-name r none shipped same = refl
text_or-name r (some text) shipped same =
    let is : text ≡ r.name = (eq_iff text r.name).0 (ground arith) in
    ap trim_space is ∙ ships-trim default_roles r.name default_names-trim shipped

text_or-description :
    (current : String) (description : Option String)
    → changes_description description current ≡ false
    → text_or description current ≡ current
text_or-description current none same = refl
text_or-description current (some text) same = (eq_iff (trim_space text) current).0 (ground arith)

rights_or-same :
    (current rights : List String) (permissions : Option (List String)) (name : String)
    → AllKnown current
    → changes_rights permissions current ≡ false
    → rights_or permissions name current ≡ ok rights
    → (p : String) → contains rights p ≡ contains current p
rights_or-same current rights none name known same done p =
    ap (λ ps. contains ps p) (sym (ok_injective done))
rights_or-same current rights (some asked) name known same done p =
    validate_role-same name asked rights current known (ground arith) done p

-- What a role is after a change that was accepted.
pub record IsKept (r r' : Role) (after : Store Role) : Type 0 where
  pub stored : Store.get r.id after ≡ ok r'
  pub same_name : r'.name ≡ r.name
  pub same_description : r'.description ≡ r.description
  pub same_rights_as : (p : String) → contains r'.permissions p ≡ contains r.permissions p

IsKept-as :
    (r : Role) (name description : Option String) (permissions : Option (List String))
    (rights : List String) (roles after : Store Role) (r' : Role)
    → is_default r ≡ true
    → AllKnown r.permissions
    → IsAllowed r name description permissions
    → rights_or permissions (text_or name r.name) r.permissions ≡ ok rights
    → Store.update r.id
        (record r {
          name = text_or name r.name;
          description = text_or description r.description;
          permissions = rights;
        })
        roles
      ≡ ok (r', after)
    → IsKept r r' after
IsKept-as r name description permissions rights roles after r' shipped known allowed given written =
    let (is, reads) = update-ok r.id _ roles r' after written in
    record {
      stored = reads r.id ∙ ground (arith, is);
      same_name = ap (λ x. x.name) is ∙ text_or-name r name shipped allowed.same_name;
      same_description =
          ap (λ x. x.description) is
          ∙ text_or-description r.description description allowed.same_description;
      same_rights_as = λ p.
          ap (λ x. contains x.permissions p) is
          ∙ rights_or-same r.permissions rights permissions (text_or name r.name) known
              allowed.same_permissions given p;
    }

-- A role that ships keeps its name, its description and every right through whatever change of it
-- is accepted, and gets no right more. The rights it holds must be known to the application.
pub update_role-shipped :
    (id : ℕ) (name description : Option String) (permissions : Option (List String))
    (roles after : Store Role) (r r' : Role)
    → Store.get id roles ≡ ok r
    → is_default r ≡ true
    → AllKnown r.permissions
    → update_role id name description permissions roles ≡ ok (r', after)
    → IsKept r r' after
unfolding update_role
update_role-shipped id name description permissions roles after r r' got shipped known done =
    let (named, rest) = refuse_if-ok (id == 0) (Error.invalid_fields ("id" ∷ [])) _ done in
    let (x, found, rest1) = bind-ok (Store.get id roles) _ rest in
    let is : r ≡ x = ok_injective (sym got ∙ found) in
    let shipped' = subst (λ y. is_default y ≡ true) is shipped in
    let (allowed, rest2) = check-ok (guard_default x name description permissions) _ rest1 in
    let (rights, given, rest3) =
      bind-ok (rights_or permissions (text_or name x.name) x.permissions) _ rest2 in
    let (titled, written) =
      refuse_if-ok (str_eq (text_or name x.name) "") (Error.invalid_fields ("name" ∷ [])) _ rest3 in
    subst (λ y. IsKept y r' after) (sym is)
      (IsKept-as x name description permissions rights roles after r' shipped'
        (subst (λ y. AllKnown y.permissions) is known)
        (guard_default-ok x name description permissions shipped' allowed) given written)
