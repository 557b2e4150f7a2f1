-- ===== src/Vacation.antt =====
-- The leave that a year gives: internal/domain/model/vacation_model.go, and the in-memory repository of
-- internal/infrastructure/persistence/memory/vacation.go, a list of entitlements.

mod Tests
pub mod Service
pub mod Laws
use go_time_recording.Base.{
  ℕ, Bool, true, false, not, ◌&&◌, ◌||◌, List, [], ◌∷◌, ltb, leb, str_eq, if◌then◌else◌,
}
use go_time_recording.Base.Keyed.{put, take_out, own}
use go_time_recording.Float.{Float64}
use go_time_recording.Absence.{Absence, absence_vacation, absence_half_vacation}

pub record VacationEntitlement (H : Type 0) : Type 0 where
  pub user_id : ℕ
  pub from_year : ℕ
  pub days : H

pub record VacationYear (H : Type 0) : Type 0 where
  pub year : ℕ
  pub entitlement : H
  pub carried_over : H
  pub taken : H
  pub planned : H

abbrev pub max_entitlement_days : ℕ
max_entitlement_days = 366

module _ {H : Type 0} where
  abbrev pub user_of : VacationEntitlement H → ℕ
  user_of e = e.user_id

  abbrev pub from_of : VacationEntitlement H → ℕ
  from_of e = e.from_year

  unfoldable pub for_user : ℕ → List (VacationEntitlement H) → List (VacationEntitlement H)
  for_user user entitlements = own user_of from_of user entitlements

  unfoldable pub save :
      VacationEntitlement H → List (VacationEntitlement H) → List (VacationEntitlement H)
  save entitlement entitlements = put user_of from_of entitlement entitlements

  unfoldable pub delete : ℕ → ℕ → List (VacationEntitlement H) → Bool × List (VacationEntitlement H)
  delete user from_year entitlements = take_out user_of from_of user from_year entitlements

  -- The loop of `EntitlementIn`: what it has found so far, and from which year.
  unfoldable pub entitlement_loop : ℕ → List (VacationEntitlement H) → H → Bool → ℕ → H × Bool
  entitlement_loop year [] days found from = (days, found)
  entitlement_loop year (e ∷ rest) days found from =
      let newer = leb e.from_year year && (not found || ltb from e.from_year) in
      entitlement_loop year rest (if newer then e.days else days) (if newer then true else found)
        (if newer then e.from_year else from)

module _ (F : Float64) where
  open F use {Number, zero_hours, literal, add, sub}

  unfoldable pub vacation_days : Absence → Number
  vacation_days a =
      if str_eq a.kind absence_vacation
      then literal 1 0
      else if str_eq a.kind absence_half_vacation
      then literal 5 1
      else zero_hours

  unfoldable pub entitlement_in : ℕ → List (VacationEntitlement Number) → Number × Bool
  entitlement_in year entitlements = entitlement_loop year entitlements zero_hours false 0

  unfoldable pub remaining : VacationYear Number → Number
  remaining y = sub (sub (add y.entitlement y.carried_over) y.taken) y.planned
