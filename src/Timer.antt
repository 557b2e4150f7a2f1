-- ===== src/Timer.antt =====
-- The running clock: internal/domain/model/timer_model.go,
-- internal/application/v1/service/timer_application_service.go, and `TimerRepository` of
-- internal/infrastructure/persistence/memory/memory.go. `now` is the reading of the clock in
-- nanoseconds, and `saved` the later one of the repository of entries, in seconds.
pub mod Reach
pub mod Laws
pub mod Accepts
mod Tests
use go_time_recording.Base.{
  ℕ, ◌*◌, ◌/◌, Bool, true, false, not, Option, none, some, String, List, [], ◌∷◌, ltb, ◌==◌,
  if◌then◌else◌,
}
use go_time_recording.Base.Int.{ℤ, pos, negsuc, ◌-ℤ◌}
use go_time_recording.Calendar.{Moment, Day, calendar_day, midnight}
use go_time_recording.Errors.{Error, Result, ok, err, ◌>>=◌, ◌>>◌, refuse_if}
use go_time_recording.Float.{Float64}
use go_time_recording.Timesheet.{Timesheet}
use go_time_recording.Booking.Checks.{
  Booking, min_bookable_hours, hours_per_day, description_too_long, require_user_and_project,
}
use go_time_recording.Booking.Create.{CreateTimesheetCommand, create_timesheet}

pub record RunningTimer : Type 0 where
  pub user_id : ℕ
  pub project_id : Option ℕ
  pub description : Option String
  -- In seconds, in UTC.
  pub started_at : ℕ

-- The map of the repository, and what bookings are made in.
pub record Clocks (H : Type 0) : Type 0 where
  pub timers : ℕ → Option RunningTimer
  pub booking : Booking H

abbrev pub nanoseconds : ℕ
nanoseconds = 1000000000

-- `Truncate(time.Second)`.
abbrev pub truncated : ℕ → ℕ
truncated n = n / nanoseconds

-- A `time.Duration` has 64 bits, and `Sub` stops at its bounds.
abbrev pub saturated : ℤ → ℤ
saturated (pos n) = if ltb n 9223372036854775807 then pos n else pos 9223372036854775807
saturated (negsuc n) = if ltb n 9223372036854775807 then negsuc n else negsuc 9223372036854775807

unfoldable pub elapsed : RunningTimer → ℕ → ℤ
elapsed t end = saturated (pos (end * nanoseconds) -ℤ pos (t.started_at * nanoseconds))

-- A zone gives the offset of its clock at a moment; without one the clock is that of UTC.
unfoldable pub booking_day : RunningTimer → Option (ℕ → ℤ) → Moment
booking_day t none = midnight (calendar_day (record { seconds = t.started_at; offset = pos 0 }))
booking_day t (some zone) =
    midnight (calendar_day (record { seconds = t.started_at; offset = zone t.started_at }))

abbrev pub set_timer : ℕ → Option RunningTimer → (ℕ → Option RunningTimer) → ℕ → Option RunningTimer
set_timer user t timers n = if n == user then t else timers n

abbrev pub or_none_running : Option RunningTimer → Result RunningTimer
or_none_running none = err (Error.conflict "noTimerRunning")
or_none_running (some t) = ok t

abbrev pub clock_at : ℕ → Option ℕ → Option String → ℕ → RunningTimer
clock_at user project description started_at = record {
  user_id = user;
  project_id = project;
  description = description;
  started_at = started_at;
}

-- When the work ended: now, or at the time that is given.
unfoldable pub end_of : ℕ → RunningTimer → Option ℕ → Result ℕ
end_of now t none = ok (truncated now)
end_of now t (some ended_at) = do
  refuse_if (ltb (truncated now) (truncated ended_at)) (Error.invalid "timerEndInFuture")
  refuse_if (not (ltb t.started_at (truncated ended_at))) (Error.invalid "timerEndBeforeStart")
  ok (truncated ended_at)

abbrev pub id_or_zero : Option ℕ → ℕ
id_or_zero none = 0
id_or_zero (some id) = id

module _ {H : Type 0} where
  -- `Start` of the repository: the clock of the same user is replaced.
  unfoldable pub put_clock : RunningTimer → Clocks H → Clocks H
  put_clock t s = record s { timers = set_timer t.user_id (some t) s.timers }

  unfoldable pub move_start : ℕ → ℕ → Clocks H → Clocks H
  move_start user started_at s = elim (s.timers user) [
    | none ↦ s
    | some t ↦ record s {
      timers = set_timer user (some (record t { started_at = started_at })) s.timers;
    }
  ]

  -- `Clear` of the repository, and so `Discard` of the service.
  unfoldable pub discard : ℕ → Clocks H → Clocks H
  discard user s = record s { timers = set_timer user none s.timers }

  unfoldable pub running : ℕ → Clocks H → Result RunningTimer
  running user s = or_none_running (s.timers user)

  abbrev pub require_project : ℕ → Option ℕ → Booking H → Result (Unit {0})
  require_project user none b = ok tt
  require_project user (some project) b = require_user_and_project user project b

  unfoldable pub require_startable : ℕ → Option ℕ → Option String → Booking H → Result (Unit {0})
  require_startable user project description b = do
    refuse_if (user == 0) (Error.invalid_fields ("userId" ∷ []))
    refuse_if (description_too_long description) (Error.invalid_fields ("description" ∷ []))
    require_project user project b

  unfoldable pub start :
      ℕ → ℕ → Option ℕ → Option String → Clocks H → Result (RunningTimer × Clocks H)
  start now user project description s = do
    require_startable user project description s.booking
    let t = clock_at user project description (truncated now)
    ok (t, put_clock t s)

  unfoldable pub adjust_start : ℕ → ℕ → ℕ → Clocks H → Result (RunningTimer × Clocks H)
  adjust_start now user started s = do
    t ← running user s
    refuse_if (ltb (truncated now) (truncated started)) (Error.invalid "timerStartInFuture")
    ok (record t { started_at = truncated started }, move_start user (truncated started) s)

  abbrev pub command_of : RunningTimer → Option (ℕ → ℤ) → H → CreateTimesheetCommand H
  command_of t zone hours = record {
    user_id = t.user_id;
    project_id = id_or_zero t.project_id;
    date = booking_day t zone;
    duration_hours = hours;
    description = t.description;
    recorded_by = 0;
  }

module _ (F : Float64) (found : String → String → Bool) (daily_cap : F.Number) where
  open F use {Number, lt, hours_of}

  unfoldable pub book :
      ℕ
      → RunningTimer
      → Option (ℕ → ℤ)
      → ℕ
      → Clocks Number
      → Result (Timesheet Number × Clocks Number)
  book saved t zone end s = do
    let hours = hours_of (elapsed t end)
    refuse_if (lt hours (min_bookable_hours F)) (Error.invalid "timerTooShort")
    refuse_if (lt (hours_per_day F) hours) (Error.invalid "timerTooLong")
    (created, booking) ←
        create_timesheet F found daily_cap saved (command_of t zone hours) s.booking
    ok (created, discard t.user_id (record s { booking = booking }))

  unfoldable pub stop :
      ℕ
      → ℕ
      → ℕ
      → Option (ℕ → ℤ)
      → Option ℕ
      → Clocks Number
      → Result (Timesheet Number × Clocks Number)
  stop now saved user zone ended_at s = do
    t ← running user s
    end ← end_of now t ended_at
    book saved t zone end s

  unfoldable pub switch :
      ℕ
      → ℕ
      → ℕ
      → Option (ℕ → ℤ)
      → Option ℕ
      → Option String
      → Clocks Number
      → Result ((Timesheet Number × RunningTimer) × Clocks Number)
  switch now saved user zone project description s = do
    t ← running user s
    require_startable user project description s.booking
    (booked, s') ← book saved t zone (truncated now) s
    let next = clock_at user project description (truncated now)
    ok ((booked, next), put_clock next s')
