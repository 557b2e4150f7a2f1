-- ===== src/Schedule/Service.antt =====
-- The plans of a person's weeks:
-- internal/application/v1/service/workschedule_application_service.go. A plan that is missing is told
-- by the day it would start on.
pub mod Laws
use go_time_recording.Base.{ℕ, Bool, true, false, not, List, [], ◌∷◌, ◌++◌, String, if◌then◌else◌}
use go_time_recording.Calendar.{Day, Moment, calendar_day, on_the_calendar}
use go_time_recording.Errors.{Error, Result, ok, err, ◌>>=◌, ◌>>◌, refuse_if}
use go_time_recording.Float.{Float64}
use go_time_recording.Store
use go_time_recording.Store.{Store}
use go_time_recording.User.{User, effective_daily_target}
use go_time_recording.Schedule.{
  WeekHours, WorkSchedule, figures, valid, default_week, for_user, save, delete,
}

pub record PlannedWeeks (H : Type 0) : Type 0 where
  pub schedules : List (WorkSchedule H)
  pub before : WeekHours H

-- The refusal that names the fields found invalid, where there are any.
abbrev pub refuse_fields : List String → Result (Unit {0})
refuse_fields [] = ok tt
refuse_fields (x ∷ xs) = err (Error.invalid_fields (x ∷ xs))

abbrev pub field_unless : Bool → String → List String
field_unless true name = []
field_unless false name = name ∷ []

unfoldable pub remove :
    {H : Type 0} → ℕ → Moment → List (WorkSchedule H) → Result (List (WorkSchedule H))
remove user valid_from schedules =
    let (found, left) = delete user (calendar_day valid_from) schedules in
    if not found then err (Error.not_found "schedule" (calendar_day valid_from)) else ok left

module _ (F : Float64) where
  open F use {Number, zero_hours, lt}

  unfoldable pub planned :
      ℕ → Store (User Number) → List (WorkSchedule Number) → Result (PlannedWeeks Number)
  planned user users schedules = do
    u ← Store.get user users
    ok (record {
      schedules = for_user user schedules;
      before = default_week F (effective_daily_target F u);
    })

  -- The loop over a week's figures that refuses one above the most.
  abbrev pub exceeds : Number → List Number → Bool
  exceeds most [] = false
  exceeds most (h ∷ hs) = let rest = exceeds most hs in if lt most h then true else rest

  unfoldable pub plan :
      ℕ
      → Moment
      → WeekHours Number
      → Store (User Number)
      → List (WorkSchedule Number)
      → Result (WorkSchedule Number × List (WorkSchedule Number))
  plan user valid_from hours users schedules = do
    refuse_fields (
        field_unless (on_the_calendar valid_from) "validFrom"
        ++ field_unless (valid F hours) "hours")
    u ← Store.get user users
    refuse_if
        (if lt zero_hours u.max_daily_hours
          then exceeds u.max_daily_hours (figures hours)
          else false)
        (Error.invalid "targetOverMaximum")
    let schedule : WorkSchedule Number = record {
      user_id = user;
      valid_from = calendar_day valid_from;
      hours = hours;
    }
    ok (schedule, save schedule schedules)
