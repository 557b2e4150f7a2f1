-- ===== src/Booking/Checks.antt =====
-- The rules about hours that every way of booking meets, in
-- internal/application/v1/service/timesheet_application_service.go.
pub mod Laws
use go_time_recording.Base.{
  ℕ, ◌*◌, Bool, true, false, not, ◌&&◌, ◌||◌, Option, none, some, List, [], ◌∷◌, ◌++◌, String, ltb,
  leb, ◌==◌, str_eq, if◌then◌else◌, length,
}
use go_time_recording.Base.Int.{pos, pos_part, ◌-ℤ◌}
use go_time_recording.Calendar.{Moment, calendar_day, on_the_calendar, seconds_per_day}
use go_time_recording.Errors.{Error, Result, ok, err, ◌>>=◌, ◌>>◌, refuse_if}
use go_time_recording.Float.{Float64}
use go_time_recording.Text.{too_long}
use go_time_recording.User.{User}
use go_time_recording.Store
use go_time_recording.Store.{Store}
use go_time_recording.Project.{Project, visible_to, active}
use go_time_recording.Timesheet.{Timesheet}
use go_time_recording.Timesheet.Filter.{TimesheetFilter}
use go_time_recording.Timesheet.Repository.{TimesheetRepository, get_by_filter}

pub record Booking (H : Type 0) : Type 0 where
  pub entries : TimesheetRepository H
  pub users : Store (User H)
  pub projects : Store Project

abbrev pub max_description_length : ℕ
max_description_length = 2000

abbrev pub description_too_long : Option String → Bool
description_too_long none = false
description_too_long (some d) = too_long d max_description_length

-- Midnight of the moment's day on the clock of its own location.
unfoldable pub start_of_day : Moment → Moment
start_of_day t = record t {
  seconds = pos_part (pos (calendar_day t * seconds_per_day) -ℤ t.offset);
}

abbrev pub normalize_project_id : ℕ → Option ℕ
normalize_project_id id = if id == 0 then none else some id

abbrev pub other_than : ℕ → ℕ → Option ℕ
other_than actor owner = if actor == 0 || actor == owner then none else some actor

-- A project that may be booked on by the user now.
unfoldable pub require_bookable : {H : Type 0} → ℕ → ℕ → Booking H → Result (Unit {0})
require_bookable user project b = do
  p ← Store.get project b.projects
  refuse_if (not (visible_to p user)) (Error.not_found "project" project)
  refuse_if (not (str_eq p.status active)) (Error.conflict "projectClosedForBooking")

unfoldable pub require_user_and_project : {H : Type 0} → ℕ → ℕ → Booking H → Result (Unit {0})
unfolding require_bookable
require_user_and_project user project b = do
  u ← Store.get user b.users
  if project == 0 then ok tt else require_bookable user project b

module _ (F : Float64) where
  open F use {Number, zero_hours, literal, add, lt, le}

  abbrev pub min_bookable_hours : Number
  min_bookable_hours = literal 1 2

  abbrev pub hours_per_day : Number
  hours_per_day = literal 24 0

  abbrev pub rounding_slack : Number
  rounding_slack = literal 1 9

  abbrev pub field_if : Bool → String → List String
  field_if true name = name ∷ []
  field_if false name = []

  unfoldable pub validate_timesheet : Moment → Number → Option String → Result (Unit {0})
  validate_timesheet date hours description =
      let invalid =
        field_if (not (on_the_calendar date)) "date"
        ++ (field_if (not (le min_bookable_hours hours && le hours hours_per_day)) "durationHours"
            ++ field_if (description_too_long description) "description") in
      elim invalid [ [] ↦ ok tt | x ∷ xs ↦ err (Error.invalid_fields (x ∷ xs)) ]

  unfoldable pub daily_limit_for : Number → User Number → Number
  daily_limit_for daily_cap user =
      if le user.max_daily_hours zero_hours
      then daily_cap
      else if le daily_cap zero_hours || lt user.max_daily_hours daily_cap
      then user.max_daily_hours
      else daily_cap

  -- The sum of the loop over the day's entries, but for one.
  unfoldable pub total_without : ℕ → Number → List (Timesheet Number) → Number
  total_without exclude_id total [] = total
  total_without exclude_id total (t ∷ rest) =
      total_without exclude_id (if t.id == exclude_id then total else add total t.duration_hours)
        rest

  abbrev pub day_filter : ℕ → Moment → TimesheetFilter
  day_filter user day = record {
    user_id = user;
    project_id = 0;
    start_date = some (start_of_day day);
    end_date = some (start_of_day day);
    without_project = false;
    search = "";
    limit = 0;
    offset = 0;
  }

  abbrev pub entries_or_panic : Option (List (Timesheet Number)) → Result (List (Timesheet Number))
  entries_or_panic none = err Error.internal
  entries_or_panic (some entries) = ok entries

  module _ (found : String → String → Bool) (daily_cap : Number) where
    -- The part of `checkDailyBudget` where a limit holds.
    unfoldable pub within_limit :
        Number → ℕ → Moment → Number → ℕ → Booking Number → Result (Unit {0})
    within_limit limit user day hours exclude_id b = do
      same_day ← entries_or_panic (get_by_filter found (day_filter user day) b.entries)
      refuse_if (lt (add limit rounding_slack) (total_without exclude_id hours same_day))
          (Error.conflict "overDailyLimit")

    unfoldable pub check_daily_budget : ℕ → Moment → Number → ℕ → Booking Number → Result (Unit {0})
    unfolding within_limit
    check_daily_budget user day hours exclude_id b = do
      u ← Store.get user b.users
      let limit = daily_limit_for daily_cap u
      if le limit zero_hours then ok tt else within_limit limit user day hours exclude_id b
