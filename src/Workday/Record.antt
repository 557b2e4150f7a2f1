-- ===== src/Workday/Record.antt =====
-- Recording a day: `Record` and `Remove` of internal/application/v1/service/
-- workday_application_service.go, over the store of
-- internal/infrastructure/persistence/memory/workday.go.
pub mod Laws
use go_time_recording.Base.{
  ℕ, ◌+◌, Bool, true, false, not, ◌&&◌, ◌||◌, List, [], ◌∷◌, ◌++◌, leb, ◌==◌, if◌then◌else◌, keep,
}
use go_time_recording.Base.Int.{ℤ, pos, ◌-ℤ◌, ltb_ℤ, leb_ℤ}
use go_time_recording.Base.Sort.{sort_by}
use go_time_recording.Calendar.{Day, Moment, calendar_day, on_the_calendar}
use go_time_recording.Errors.{Result, ok, err, Error, refuse_if, ◌>>=◌, ◌>>◌}
use go_time_recording.Workday.{WorkDay, day_of, minutes_per_day}

-- Whether a stored day is the one of a user and a day.
abbrev pub is_day : ℕ → Day → WorkDay → Bool
is_day user day w = w.user_id == user && w.day == day

abbrev pub in_range : ℕ → Day → Day → WorkDay → Bool
in_range user first last w = w.user_id == user && (leb first w.day && leb w.day last)

unfoldable pub between : ℕ → Day → Day → List WorkDay → List WorkDay
between user first last days = sort_by day_of (keep (in_range user first last) days)

unfoldable pub save : WorkDay → List WorkDay → List WorkDay
save w [] = w ∷ []
save w (existing ∷ days) =
    if is_day w.user_id w.day existing then w ∷ days else existing ∷ save w days

unfoldable pub delete : ℕ → Day → List WorkDay → Bool × List WorkDay
delete user day [] = (false, [])
delete user day (existing ∷ days) =
    let (found, rest) = delete user day days in
    if is_day user day existing then (true, days) else (found, existing ∷ rest)

-- The checks of `Record` on the times of a day.
unfoldable pub check_times : WorkDay → Result (Unit {0})
check_times w = do
  refuse_if (ltb_ℤ w.start_minute (pos 0) || leb_ℤ (pos minutes_per_day) w.start_minute)
      (Error.invalid_fields ("start" ∷ []))
  refuse_if (leb_ℤ w.end_minute w.start_minute || ltb_ℤ (pos minutes_per_day) w.end_minute)
      (Error.invalid_fields ("end" ∷ []))
  refuse_if
      (ltb_ℤ w.break_minutes (pos 0) || leb_ℤ (w.end_minute -ℤ w.start_minute) w.break_minutes)
      (Error.invalid_fields ("breakMinutes" ∷ []))

-- `Record`, of a day whose date is given as a moment.
unfoldable pub record_day : Moment → WorkDay → List WorkDay → Result (List WorkDay)
record_day date w days = do
  refuse_if (date.seconds == 0 || not (on_the_calendar date)) (Error.invalid_fields ("date" ∷ []))
  check_times w
  ok (save (record w { day = calendar_day date }) days)

unfoldable pub remove_day : ℕ → Moment → List WorkDay → Result (List WorkDay)
remove_day user date days =
    let (removed, rest) = delete user (calendar_day date) days in
    if removed then ok rest else err (Error.not_found "workday" (calendar_day date))
