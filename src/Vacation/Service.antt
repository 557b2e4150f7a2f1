-- ===== src/Vacation/Service.antt =====
-- A year of leave: internal/application/v1/service/vacation_application_service.go. Today is an
-- argument, the calendar day that `todayOf` gives. A missing entitlement is told by its year.

pub mod Laws
use go_time_recording.Base.{
  ℕ, zero, suc, ◌+◌, ◌-◌, Bool, true, false, not, ◌&&◌, ◌||◌, List, [], ◌∷◌, ◌++◌, ltb, leb, ◌==◌,
  if◌then◌else◌,
}
use go_time_recording.Calendar.{Day}
use go_time_recording.Calendar
use go_time_recording.Errors.{Error, Result, ok, err, ◌>>=◌, ◌>>◌, refuse_if}
use go_time_recording.Float.{Float64}
use go_time_recording.Float.Totals.{Totals, add_at, no_totals}
use go_time_recording.Base.{String}
use go_time_recording.Store
use go_time_recording.Store.{Store}
use go_time_recording.User.{User, effective_daily_target}
use go_time_recording.Schedule.{WorkSchedule, default_week}
use go_time_recording.Schedule
use go_time_recording.Schedule.Service.{refuse_fields, field_unless}
use go_time_recording.Absence.{Absence, between}
use go_time_recording.Absence.Service.{is_worked, holidays_of}
use go_time_recording.Vacation.{
  VacationEntitlement, VacationYear, max_entitlement_days, for_user, save, delete, entitlement_in,
  vacation_days,
}

pub record VacationAccount (H : Type 0) : Type 0 where
  pub of_year : VacationYear H
  pub entitlements : List (VacationEntitlement H)

abbrev pub is_year : ℕ → Bool
is_year y = not (ltb y 1900 || ltb 9999 y)

unfoldable pub withdraw :
    {H : Type 0} → ℕ → ℕ → List (VacationEntitlement H) → Result (List (VacationEntitlement H))
withdraw user from_year entitlements =
    let (found, left) = delete user from_year entitlements in
    if not found then err (Error.not_found "entitlement" from_year) else ok left

module _ (F : Float64) where
  open F use {Number, zero_hours, literal, add, sub, le, eq, settled}

  unfoldable pub entitle :
      ℕ
      → ℕ
      → Number
      → Store (User Number)
      → List (VacationEntitlement Number)
      → Result (List (VacationEntitlement Number))
  entitle user from_year days users entitlements = do
    refuse_fields (
        field_unless (is_year from_year) "fromYear"
        ++ field_unless (le zero_hours days && le days (literal max_entitlement_days 0)) "days")
    u ← Store.get user users
    ok (save (record { user_id = user; from_year = from_year; days = days }) entitlements)

  -- What one absence adds to the leave taken and to the leave planned of its year.
  unfoldable pub tally_one :
      Day → (Day → Bool) → Absence → Totals F × Totals F → Totals F × Totals F
  tally_one today worked a totals =
      let days = vacation_days F a in
      let year = Calendar.year a.day in
      if eq days zero_hours || not (worked a.day)
      then totals
      else if ltb today a.day
      then (totals.0, add_at F year days totals.1)
      else (add_at F year days totals.0, totals.1)

  unfoldable pub tally :
      Day → (Day → Bool) → List Absence → Totals F × Totals F → Totals F × Totals F
  unfolding tally_one
  tally today worked [] totals = totals
  tally today worked (a ∷ rest) totals = tally today worked rest (tally_one today worked a totals)

  -- The loop over the years before the one asked about, `rounds` of them from `y` on.
  unfoldable pub carry :
      List (VacationEntitlement Number) → (ℕ → Number) → (ℕ → Number) → ℕ → ℕ → Number → Number
  carry entitlements taken planned zero y carried = carried
  carry entitlements taken planned (suc rounds) y carried =
      carry entitlements taken planned rounds (y + 1)
        (sub (sub (add (entitlement_in F y entitlements).0 carried) (taken y)) (planned y))

  abbrev pub no_leave : ℕ → List (VacationEntitlement Number) → VacationAccount Number
  no_leave year entitlements = record {
    of_year = record {
      year = year;
      entitlement = zero_hours;
      carried_over = zero_hours;
      taken = zero_hours;
      planned = zero_hours;
    };
    entitlements = entitlements;
  }

  -- An account from the first year that an entitlement is from.
  unfoldable pub account_from :
      Result String
      → Day
      → ℕ
      → User Number
      → ℕ
      → ℕ
      → List (VacationEntitlement Number)
      → List Absence
      → List (WorkSchedule Number)
      → Result (VacationAccount Number)
  account_from place today user u first year entitlements absences schedules = do
    let from = Calendar.date first 1 1
    let to = Calendar.date year 12 31
    holidays ← holidays_of place u from to
    let before = default_week F (effective_daily_target F u)
    let worked = is_worked F holidays (Schedule.for_user user schedules) before
    let (taken, planned) =
        tally today worked (between user from to absences) (no_totals F, no_totals F)
    ok (record {
      of_year = record {
        year = year;
        entitlement = (entitlement_in F year entitlements).0;
        carried_over = settled (carry entitlements taken planned (year - first) first zero_hours);
        taken = settled (taken year);
        planned = settled (planned year);
      };
      entitlements = entitlements;
    })

  -- No account before the first year anything was given.
  abbrev pub account_or_none :
      Result String
      → Day
      → ℕ
      → User Number
      → ℕ
      → List (VacationEntitlement Number)
      → List Absence
      → List (WorkSchedule Number)
      → Result (VacationAccount Number)
  account_or_none place today user u year [] absences schedules = ok (no_leave year [])
  account_or_none place today user u year (e ∷ rest) absences schedules =
      if ltb year e.from_year
      then ok (no_leave year (e ∷ rest))
      else account_from place today user u e.from_year year (e ∷ rest) absences schedules

  unfoldable pub year_account :
      Result String
      → Day
      → ℕ
      → ℕ
      → Store (User Number)
      → List (VacationEntitlement Number)
      → List Absence
      → List (WorkSchedule Number)
      → Result (VacationAccount Number)
  year_account place today user year users entitlements absences schedules = do
    refuse_if (not (is_year year)) (Error.invalid_fields ("year" ∷ []))
    u ← Store.get user users
    let given = for_user user entitlements
    account_or_none place today user u year given absences schedules
