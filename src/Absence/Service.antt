-- ===== src/Absence/Service.antt =====
-- Days recorded as away: internal/application/v1/service/absence_application_service.go, with
-- `holidaysOf` of internal/application/v1/service/holiday.go and `dayRange` of
-- internal/application/v1/service/overtime_application_service.go. The installation's place is what
-- its settings answer. A missing absence is told by its day.

pub mod Laws
use go_time_recording.Base.{
  ℕ, ◌+◌, ◌-◌, Bool, true, false, not, ◌||◌, Option, none, some, List, [], ◌∷◌, ◌++◌, String, ltb,
  if◌then◌else◌, keep, map,
}
use go_time_recording.Calendar.{Day, Moment, calendar_day, on_the_calendar, midnight}
use go_time_recording.Calendar.Range.{days_of}
use go_time_recording.Errors.{Error, Result, ok, err, ◌>>=◌, ◌>>◌, refuse_if}
use go_time_recording.Float.{Float64}
use go_time_recording.Holiday.{Found, holidays_between}
use go_time_recording.Holiday.Rules.{Holiday}
use go_time_recording.Holiday.Place.{holiday_place_of}
use go_time_recording.Store
use go_time_recording.Store.{Store}
use go_time_recording.User.{User, effective_daily_target}
use go_time_recording.Schedule.{WeekHours, WorkSchedule, target_on, default_week, for_user}
use go_time_recording.Schedule.Service.{refuse_fields, field_unless}
use go_time_recording.Absence.{Absence, valid_absence_kind, between, save, delete}

abbrev pub max_days : ℕ
max_days = 371

unfoldable pub day_range : Moment → Moment → Result (Day × Day)
day_range from to = do
  let first = calendar_day from
  let last = calendar_day to
  refuse_if (ltb last first) (Error.invalid "rangeInverted")
  refuse_if (ltb max_days (last - first + 1)) (Error.invalid "rangeTooLong")
  ok (first, last)

unfoldable pub holidays_of : {H : Type 0} → Result String → User H → Day → Day → Result Found
holidays_of place user from to = do
  instance_place ← place
  ok (
      holidays_between (holiday_place_of user.holiday_place instance_place) (midnight from)
        (midnight to))

unfoldable pub absences_in : ℕ → Moment → Moment → List Absence → Result (List Absence)
absences_in user from to absences = do
  (first, last) ← day_range from to
  ok (between user first last absences)

unfoldable pub remove : ℕ → Moment → List Absence → Result (List Absence)
remove user day absences =
    let (found, left) = delete user (calendar_day day) absences in
    if not found then err (Error.not_found "absence" (calendar_day day)) else ok left

abbrev pub is_holiday : Option Holiday → Bool
is_holiday none = false
is_holiday (some h) = true

module _ (F : Float64) where
  open F use {Number, zero_hours, le}

  -- A day that is no holiday and that the week asks something of.
  unfoldable pub is_worked : Found → List (WorkSchedule Number) → WeekHours Number → Day → Bool
  is_worked holidays schedules before day =
      not (is_holiday (holidays day) || le (target_on day schedules before) zero_hours)

  abbrev pub away_on : ℕ → String → List Day → List Absence
  away_on user kind [] = []
  away_on user kind (d ∷ ds) =
      record { user_id = user; day = d; kind = kind } ∷ away_on user kind ds

  abbrev pub some_recorded : List Absence → Result (Unit {0})
  some_recorded [] = err (Error.invalid "noWorkingDays")
  some_recorded (a ∷ rest) = ok tt

  unfoldable pub record_absences :
      Result String
      → ℕ
      → Moment
      → Moment
      → String
      → Store (User Number)
      → List (WorkSchedule Number)
      → List Absence
      → Result (List Absence × List Absence)
  record_absences place user from to kind users schedules absences = do
    refuse_fields (
        field_unless (on_the_calendar from) "from"
        ++ (field_unless (on_the_calendar to) "to"
            ++ field_unless (valid_absence_kind kind) "kind"))
    (first, last) ← day_range from to
    u ← Store.get user users
    holidays ← holidays_of place u first last
    let before = default_week F (effective_daily_target F u)
    let days = keep (is_worked holidays (for_user user schedules) before) (days_of first last)
    let recorded = away_on user kind days
    some_recorded recorded
    ok (recorded, save recorded absences)
