-- ===== src/Booking/Checks/Laws.antt =====
-- What the checks of a booking let through.
use go_time_recording.Base.{
  ℕ, ◌≡◌, ◌⊎◌, arith, Bool, true, false, not, Option, some, List, String, ◌==◌, str_eq, Bool-cases,
  Option-cases, inl, inr,
}
use go_time_recording.Calendar.{Moment, on_the_calendar}
use go_time_recording.Errors.{Error, ok, bind-ok, refuse_if-ok}
use go_time_recording.Float.{Float64}
use go_time_recording.User.{User}
use go_time_recording.Store
use go_time_recording.Store.{Store}
use go_time_recording.Project.{Project, visible_to, active}
use go_time_recording.Timesheet.{Timesheet}
use go_time_recording.Timesheet.Repository.{get_by_filter}
use go_time_recording.Booking.Checks.{
  Booking, validate_timesheet, require_bookable, require_user_and_project, check_daily_budget,
  within_limit, entries_or_panic, daily_limit_for, day_filter, total_without, min_bookable_hours,
  hours_per_day, rounding_slack, description_too_long,
}

-- A project that the user sees and that is active.
abbrev pub IsOpenFor : {H : Type 0} → ℕ → ℕ → Booking H → Type 0
IsOpenFor user project b =
    (p : Project) × (Store.get project b.projects ≡ ok p)
    × (visible_to p user ≡ true)
    × (str_eq p.status active ≡ true)

require_bookable-ok :
    {H : Type 0} (user project : ℕ) (b : Booking H)
    → require_bookable user project b ≡ ok tt
    → IsOpenFor user project b
unfolding require_bookable
require_bookable-ok user project b h =
    let (p, got, rest) = bind-ok (Store.get project b.projects) _ h in
    let (seen, rest') =
      refuse_if-ok (not (visible_to p user)) (Error.not_found "project" project) _ rest in
    (p, got, ground arith, ground arith)

-- The project, where one is named.
pub require_user_and_project-ok :
    {H : Type 0} (user project : ℕ) (b : Booking H)
    → require_user_and_project user project b ≡ ok tt
    → (project ≡ 0) ⊎ IsOpenFor user project b
unfolding require_user_and_project
require_user_and_project-ok user project b h =
    let (u, got, rest) = bind-ok (Store.get user b.users) _ h in
    elim (Bool-cases (project == 0)) [
      | inl none_named ↦ inl (ground arith)
      | inr named ↦ inr (require_bookable-ok user project b (rw named at rest))
    ]

module _ (F : Float64) where
  open F use {Number, zero_hours, add, lt, le}

  -- A day of the calendar, hours from the smallest bookable to a day's, a description that fits.
  pub record IsBookable (date : Moment) (hours : Number) (description : Option String)
      : Type 0 where
    pub on_calendar : on_the_calendar date ≡ true
    pub least : le (min_bookable_hours F) hours ≡ true
    pub most : le hours (hours_per_day F) ≡ true
    pub described : description_too_long description ≡ false

  pub validate_timesheet-ok :
      (date : Moment) (hours : Number) (description : Option String)
      → validate_timesheet F date hours description ≡ ok tt
      → IsBookable date hours description
  unfolding validate_timesheet
  validate_timesheet-ok date hours description h = ground arith

  module _ (found : String → String → Bool) (daily_cap : Number) where
    -- The user is there and, where a limit holds for them, the hours with those of the day's entries
    -- but the one that is left out stay within the limit and the slack.
    abbrev pub IsWithinLimit : ℕ → Moment → Number → ℕ → Booking Number → Type 0
    IsWithinLimit user day hours exclude_id b =
        (u : User Number) × (Store.get user b.users ≡ ok u)
        × ((le (daily_limit_for F daily_cap u) zero_hours ≡ true)
            ⊎ ((same_day : List (Timesheet Number)) × (get_by_filter found (day_filter F user day)
                    b.entries
                  ≡ some same_day)
                × (lt (add (daily_limit_for F daily_cap u) (rounding_slack F))
                      (total_without F exclude_id hours same_day)
                    ≡ false)))

    within_limit-ok :
        (limit : Number) (user : ℕ) (day : Moment) (hours : Number) (exclude_id : ℕ)
        (b : Booking Number)
        → within_limit F found daily_cap limit user day hours exclude_id b ≡ ok tt
        → (same_day : List (Timesheet Number)) × (get_by_filter found
              (day_filter F user day)
              b.entries
            ≡ some same_day)
          × (lt (add limit (rounding_slack F)) (total_without F exclude_id hours same_day) ≡ false)
    unfolding within_limit
    within_limit-ok limit user day hours exclude_id b h =
        let listed = get_by_filter found (day_filter F user day) b.entries in
        let (same_day, e, rest) = bind-ok (entries_or_panic F listed) _ h in
        elim (Option-cases listed) [
          | inl panics ↦ cc
          | inr (entries, here) ↦ (same_day, cc, ground arith)
        ]

    pub check_daily_budget-ok :
        (user : ℕ) (day : Moment) (hours : Number) (exclude_id : ℕ) (b : Booking Number)
        → check_daily_budget F found daily_cap user day hours exclude_id b ≡ ok tt
        → IsWithinLimit user day hours exclude_id b
    unfolding check_daily_budget
    check_daily_budget-ok user day hours exclude_id b h =
        let (u, got, met) = bind-ok (Store.get user b.users) _ h in
        elim (Bool-cases (le (daily_limit_for F daily_cap u) zero_hours)) [
          | inl free ↦ (u, got, inl free)
          | inr capped ↦ (
            u,
            got,
            inr (
                within_limit-ok (daily_limit_for F daily_cap u) user day hours exclude_id b
                  (rw capped at met)),
          )
        ]
