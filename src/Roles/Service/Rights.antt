-- ===== src/Roles/Service/Rights.antt =====
-- Which rights a role is given: those asked for, each known to the application.
use mathlib.Core.Path.{subst, sym}
use text.Mathlib.TextEquality.{eq_iff}
use go_time_recording.Base.{
  ◌≡◌, ◌≢◌, ◌∙◌, refl, arith, Bool, true, false, not, ◌&&◌, ◌||◌, List, [], ◌∷◌, ◌++◌, String,
  str_eq, if◌then◌else◌, Bool-cases, inl, inr,
}
use go_time_recording.Errors.{Error, ok, refuse_if-ok, ok_injective}
use go_time_recording.Text.{contains, trim_space, trim_left, trim_right, is_space, too_long}
use go_time_recording.Roles.{all_permissions, is_permission}
use go_time_recording.Roles.Service.{
  clean_loop, validate_role, nonempty_list, grants_at_least, same_rights, max_role_name_length,
}

contains-append :
    (xs : List String) (q p : String) → contains (xs ++ q ∷ []) p ≡ (contains xs p || str_eq q p)
contains-append [] q p = ground arith
contains-append (x ∷ xs) q p = ground (arith, contains-append xs q p)

-- A right that can be granted.
abbrev pub grantable : String → Bool
grantable p = not (str_eq p "") && is_permission p

-- Whether one of the rights asked for reads as `p`, without the space around it.
abbrev pub asked : List String → String → Bool
asked [] p = false
asked (x ∷ xs) p = (str_eq (trim_space x) p && grantable p) || asked xs p

abbrev one_more : List String → String → List String
one_more clean q =
    if str_eq q "" || (not (is_permission q) || contains clean q) then clean else clean ++ q ∷ []

one_more-own :
    (clean : List String) (p : String)
    → contains (one_more clean p) p ≡ (contains clean p || grantable p)
one_more-own clean p = ground (arith, contains-append clean p p, (eq_iff p p).1 refl)

one_more-other :
    (clean : List String) (q p : String)
    → str_eq q p ≡ false
    → contains (one_more clean q) p ≡ contains clean p
one_more-other clean q p other = ground (arith, contains-append clean q p)

one_more-contains :
    (clean : List String) (q p : String)
    → contains (one_more clean q) p ≡ (contains clean p || (str_eq q p && grantable p))
one_more-contains clean q p = elim (Bool-cases (str_eq q p)) [
  | inl same ↦
      let is : q ≡ p = (eq_iff q p).0 same in
      rw same (
        subst (λ x. contains (one_more clean x) p ≡ (contains clean p || grantable p)) (sym is)
          (one_more-own clean p))
  | inr other ↦ rw other (one_more-other clean q p other ∙ ground arith)
]

clean_loop-asked :
    (permissions clean : List String) (unknown : Bool) (p : String)
    → contains (clean_loop permissions clean unknown).0 p
      ≡ (contains clean p || asked permissions p)
unfolding clean_loop
clean_loop-asked [] clean unknown p = ground arith
clean_loop-asked (x ∷ rest) clean unknown p =
    clean_loop-asked rest (one_more clean (trim_space x)) _ p
    ∙ ground (arith, one_more-contains clean (trim_space x) p)

nonempty_lem : (xs : List String) → nonempty_list xs ≡ true → xs ≢ []
nonempty_lem [] h = cc
nonempty_lem (x ∷ xs) h = λ e. cc

false-true : false ≢ true
false-true e = cc

-- Rights that are accepted are exactly those asked for that the application knows, and there is at
-- least one.
pub validate_role-asked :
    (name : String) (permissions rights : List String)
    → validate_role name permissions ≡ ok rights
    → ((p : String) → contains rights p ≡ asked permissions p)
      × (rights ≢ [])
      × (str_eq (trim_space name) "" ≡ false)
      × (too_long name max_role_name_length ≡ false)
unfolding validate_role
validate_role-asked name permissions rights done =
    let (named, rest) =
      refuse_if-ok (str_eq (trim_space name) "" || too_long name max_role_name_length)
        (Error.invalid_fields ("name" ∷ [])) _ done in
    let (known, rest1) =
      refuse_if-ok (clean_loop permissions [] false).1 (Error.invalid "unknownPermissions") _
        rest in
    let (some_left, end) =
      refuse_if-ok (not (nonempty_list (clean_loop permissions [] false).0))
        (Error.invalid "roleGrantsNothing") _ rest1 in
    let same = ok_injective end in
    (
      λ p.
          subst (λ r. contains r p ≡ asked permissions p) same
            (clean_loop-asked permissions [] false p ∙ ground arith),
      subst (λ r. r ≢ []) same (nonempty_lem _ (ground arith)),
      ground arith,
      ground arith,
    )

grants-contains :
    (granted required : List String) (p : String)
    → grants_at_least granted required ≡ true
    → contains required p ≡ true
    → contains granted p ≡ true
grants-contains granted [] p h c = cc
grants-contains granted (x ∷ rest) p h c = elim (Bool-cases (str_eq x p)) [
  | inl same ↦ subst (λ q. contains granted q ≡ true) ((eq_iff x p).0 same) (ground arith)
  | inr other ↦ grants-contains granted rest p (ground arith) (ground arith)
]

pub same_rights-contains :
    (a b : List String) (p : String) → same_rights a b ≡ true → contains a p ≡ contains b p
unfolding same_rights
same_rights-contains a b p h = ground (arith, grants-contains a b p, grants-contains b a p)

-- A right that the application knows is written without space, and not empty.
abbrev IsWritten : String → Type 0
IsWritten p = (trim_space p ≡ p) × (str_eq p "" ≡ false)

abbrev all_written : List String → Bool
all_written [] = true
all_written (x ∷ xs) = str_eq (trim_space x) x && (not (str_eq x "") && all_written xs)

contains-IsWritten :
    (xs : List String) (p : String) → all_written xs ≡ true → contains xs p ≡ true → IsWritten p
contains-IsWritten [] p all c = absurd (false-true c)
contains-IsWritten (x ∷ xs) p all c = elim (Bool-cases (str_eq x p)) [
  | inl same ↦
      subst IsWritten ((eq_iff x p).0 same)
        ((eq_iff (trim_space x) x).0 (ground arith), ground arith)
  | inr other ↦ contains-IsWritten xs p (ground arith) (ground arith)
]

permissions_written : all_written all_permissions ≡ true
unfolding trim_space trim_left trim_right is_space
permissions_written = refl

known-IsWritten : (p : String) → is_permission p ≡ true → IsWritten p
unfolding is_permission
known-IsWritten p known = contains-IsWritten all_permissions p permissions_written known

-- Every right of a list is one that the application knows.
abbrev pub AllKnown : List String → Type 0
AllKnown ps = (p : String) → contains ps p ≡ true → is_permission p ≡ true

asked-contains :
    (ps qs : List String) (p : String)
    → AllKnown qs
    → grants_at_least qs ps ≡ true
    → asked ps p ≡ contains ps p
asked-contains [] qs p known grants = refl
asked-contains (x ∷ rest) qs p known grants =
    let x_known = known x (ground arith) in
    let (trimmed, nonempty) = known-IsWritten x x_known in
    elim (Bool-cases (str_eq x p)) [
      | inl same ↦
          let is = (eq_iff x p).0 same in
          let p_known = subst (λ q. is_permission q ≡ true) is x_known in
          let p_nonempty = subst (λ q. str_eq q "" ≡ false) is nonempty in rw trimmed (ground arith)
      | inr other ↦ rw trimmed (ground (arith, asked-contains rest qs p known (ground arith)))
    ]

-- Asking a role for the rights it has gives it those.
pub validate_role-same :
    (name : String) (permissions rights current : List String)
    → AllKnown current
    → same_rights permissions current ≡ true
    → validate_role name permissions ≡ ok rights
    → (p : String) → contains rights p ≡ contains current p
unfolding same_rights
validate_role-same name permissions rights current known same done p =
    (validate_role-asked name permissions rights done).0 p
    ∙ asked-contains permissions current p known (ground arith)
    ∙ same_rights-contains permissions current p same
