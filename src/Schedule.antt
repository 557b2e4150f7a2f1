-- ===== src/Schedule.antt =====
-- Planned weeks: internal/domain/model/workweek_model.go, and the in-memory repository of
-- internal/infrastructure/persistence/memory/workschedule.go, a list of schedules. A day is midnight
-- UTC, so it is its number.
mod Tests
pub mod Target
pub mod Refines
pub mod Service
use go_time_recording.Base.{
  ℕ, ◌+◌, ◌%◌, Bool, true, false, not, ◌&&◌, List, [], ◌∷◌, ltb, ◌==◌, if◌then◌else◌,
}
use go_time_recording.Base.Keyed.{put, take_out, own}
use go_time_recording.Calendar.{Day, weekday}
use go_time_recording.Float.{Float64}

-- Seven figures, Monday first.
pub record WeekHours (H : Type 0) : Type 0 where
  pub mon : H
  pub tue : H
  pub wed : H
  pub thu : H
  pub fri : H
  pub sat : H
  pub sun : H

pub record WorkSchedule (H : Type 0) : Type 0 where
  pub user_id : ℕ
  pub valid_from : Day
  pub hours : WeekHours H

module _ {H : Type 0} where
  -- The figure at an index below 7.
  abbrev pub figure : WeekHours H → ℕ → H
  figure w i =
      if i == 0
      then w.mon
      else if i == 1
      then w.tue
      else if i == 2
      then w.wed
      else if i == 3
      then w.thu
      else if i == 4
      then w.fri
      else if i == 5
      then w.sat
      else w.sun

  unfoldable pub on : WeekHours H → Day → H
  on w day = figure w ((weekday day + 6) % 7)

  abbrev pub figures : WeekHours H → List H
  figures w = w.mon ∷ w.tue ∷ w.wed ∷ w.thu ∷ w.fri ∷ w.sat ∷ w.sun ∷ []

  -- The loop over the schedules in their order, left at the first that is not in force yet.
  unfoldable pub target_on : Day → List (WorkSchedule H) → WeekHours H → H
  target_on day [] week = on week day
  target_on day (s ∷ rest) week =
      let later = target_on day rest s.hours in if ltb day s.valid_from then on week day else later

  abbrev pub user_of : WorkSchedule H → ℕ
  user_of s = s.user_id

  abbrev pub from_of : WorkSchedule H → Day
  from_of s = s.valid_from

  unfoldable pub for_user : ℕ → List (WorkSchedule H) → List (WorkSchedule H)
  for_user user schedules = own user_of from_of user schedules

  unfoldable pub save : WorkSchedule H → List (WorkSchedule H) → List (WorkSchedule H)
  save schedule schedules = put user_of from_of schedule schedules

  unfoldable pub delete : ℕ → Day → List (WorkSchedule H) → Bool × List (WorkSchedule H)
  delete user day schedules = take_out user_of from_of user day schedules

module _ (F : Float64) where
  open F use {Number, zero_hours, literal, le}

  -- Every figure is one that a day can hold.
  abbrev pub fit_a_day : List Number → Bool
  fit_a_day [] = true
  fit_a_day (h ∷ hs) =
      let rest = fit_a_day hs in
      if not (le zero_hours h && le h (literal 24 0)) then false else rest

  unfoldable pub valid : WeekHours Number → Bool
  valid w = fit_a_day (figures w)

  unfoldable pub default_week : Number → WeekHours Number
  default_week daily_target = record {
    mon = daily_target;
    tue = daily_target;
    wed = daily_target;
    thu = daily_target;
    fri = daily_target;
    sat = zero_hours;
    sun = zero_hours;
  }
