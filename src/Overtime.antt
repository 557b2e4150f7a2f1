-- ===== src/Overtime.antt =====
-- What a day asks of somebody, and whether it counts: the rules of
-- internal/application/v1/service/overtime_application_service.go. Days are midnight UTC, so they are
-- their numbers; today is an argument, the calendar day that `todayOf` gives.

mod Tests
pub mod Booked
pub mod Balance
pub mod Days
pub mod Notices
pub mod Agree
pub mod Reminder
pub mod Discreet
use go_time_recording.Base.{
  ℕ, Bool, true, false, not, ◌&&◌, ◌||◌, Option, none, some, List, [], ◌∷◌, String, ltb, ◌==◌,
  str_eq, if◌then◌else◌,
}
use go_time_recording.Calendar.{Day}
use go_time_recording.Errors.{Result, ok, err, ◌>>=◌}
use go_time_recording.Float.{Float64}
use go_time_recording.Holiday.{Found}
use go_time_recording.User.{User, effective_daily_target}
use go_time_recording.Booking.Checks.{Booking}
use go_time_recording.Schedule.{WeekHours, WorkSchedule, target_on, default_week, for_user}
use go_time_recording.Absence.{Absence, absence_half_vacation, between}
use go_time_recording.Absence
use go_time_recording.Absence.Service.{holidays_of, is_holiday}

-- What the repositories hold, and the installation's choice of holidays.
pub record Times (H : Type 0) : Type 0 where
  pub booking : Booking H
  pub schedules : List (WorkSchedule H)
  pub absences : List Absence
  pub place : Result String

pub record DayRules (H : Type 0) : Type 0 where
  pub from : Option Day
  pub today : Day
  pub schedules : List (WorkSchedule H)
  pub before : WeekHours H
  pub holidays : Found
  pub absent : Day → Option Absence

-- The map of absences by their day: the last one written is found.
abbrev pub absent_on : List Absence → (Day → Option Absence) → Day → Option Absence
absent_on [] absent = absent
absent_on (a ∷ rest) absent = absent_on rest (λ day. if day == a.day then some a else absent day)

-- Before the day from which every day counts, and where there is none.
abbrev pub is_before : Option Day → Day → Bool
is_before none day = true
is_before (some from) day = ltb day from

module _ (F : Float64) where
  open F use {Number, zero_hours, lt, le}

  abbrev pub absence_target : Option Absence → Number → Number
  absence_target none planned = planned
  absence_target (some a) planned = Absence.target F a planned

  unfoldable pub planned_on : DayRules Number → Day → Number
  planned_on r day = target_on day r.schedules r.before

  -- `dayRules.of`: what the day asks, and whether it counts, given what was booked on it.
  unfoldable pub rule_of : DayRules Number → Day → Number → Number × Bool
  unfolding planned_on
  rule_of r day booked =
      let planned = planned_on r day in
      let target =
        if is_holiday (r.holidays day) then zero_hours else absence_target (r.absent day) planned in
      if is_before r.from day
      then (planned, lt zero_hours booked)
      else (target, lt zero_hours booked || (lt zero_hours target && not (ltb r.today day)))

  abbrev pub half_at_most : Option Absence → Bool
  half_at_most none = true
  half_at_most (some a) = str_eq a.kind absence_half_vacation

  unfoldable pub expects_work : DayRules Number → Day → Bool
  unfolding planned_on
  expects_work r day =
      if le (planned_on r day) zero_hours
      then false
      else if is_holiday (r.holidays day)
      then false
      else half_at_most (r.absent day)

  unfoldable pub rules_for : Day → User Number → Day → Day → Times Number → Result (DayRules Number)
  rules_for today u first last times = do
    holidays ← holidays_of times.place u first last
    ok (record {
      from = u.every_day_counts_from;
      today = today;
      schedules = for_user u.id times.schedules;
      before = default_week F (effective_daily_target F u);
      holidays = holidays;
      absent = absent_on (between u.id first last times.absences) (λ day. none);
    })
