-- ===== src/Timer/Tests.antt =====
-- A clock that runs for an hour, then for a switch.
use go_time_recording.Base.{ℕ, ◌*◌, ◌+◌, ◌-◌, ◌≡◌, refl, arith, none, some}
use go_time_recording.Base.Int.{◌-ℤ◌}
use go_time_recording.Errors.{Error, ok, err}
use go_time_recording.Float.Decimal.{decimal}
use go_time_recording.Store
use go_time_recording.Timesheet.{Timesheet}
use go_time_recording.Booking.Checks.{Booking}
use go_time_recording.Booking.Create.{entry_of}
use go_time_recording.Booking.Tests.{hour, office, nowhere, booking_code}
use go_time_recording.Timer.{
  RunningTimer, Clocks, nanoseconds, start, stop, switch, discard, book, running, end_of, elapsed,
  booking_day, command_of, put_clock, move_start, require_startable, clock_at,
}
use go_time_recording.Timer.Laws.{IsStopped, stop_lem, IsSwitched, switch_lem}
use go_time_recording.Timer.Accepts.{stop_accepts}
use go_time_recording.Base.{inl, inr, []}
use go_time_recording.Booking.Tests.{ada}
use go_time_recording.Timesheet.Repository.{save}
use go_time_recording.Timer.Reach.{Step, Reached, IsTimely, reached-IsTimely, stop-stop}

-- Noon of 29 February 2024, and one o'clock, in seconds.
abbrev noon : ℕ
noon = 738944 * 86400 + 43200

abbrev one : ℕ
one = noon + 3600

abbrev clock : RunningTimer
clock = clock_at 1 none none noon

abbrev idle : Clocks ℕ
idle = record { timers = λ user. none; booking = office }

abbrev ticking : Clocks ℕ
ticking = put_clock clock idle

abbrev hour_entry : Timesheet ℕ
hour_entry = record (entry_of (command_of clock none hour)) {
  id = 1;
  created_at = one;
  updated_at = one;
}

abbrev hour_booked : Booking ℕ
hour_booked = record office {
  entries = record office.entries {
    store = record office.entries.store {
      items = Store.write 1 (some hour_entry) (λ n. none);
      next_id = 2;
    };
  };
}

abbrev stopped : Clocks ℕ
stopped = discard 1 (record ticking { booking = hour_booked })

starts : start (noon * nanoseconds) 1 none none idle ≡ ok (clock, ticking)
unfolding start require_startable
starts = refl

stops :
    stop decimal nowhere (10 * hour) (one * nanoseconds) one 1 none none ticking
    ≡ ok (hour_entry, stopped)
unfolding stop running end_of book elapsed booking_day ◌-ℤ◌ put_clock booking_code
stops = refl

stop_lem_example :
    IsStopped decimal nowhere (10 * hour) (one * nanoseconds) 1 none none ticking hour_entry stopped
stop_lem_example =
    stop_lem decimal nowhere (10 * hour) (one * nanoseconds) one 1 none none ticking hour_entry
      stopped stops

abbrev next_clock : RunningTimer
next_clock = clock_at 1 none none one

abbrev switched : Clocks ℕ
switched = put_clock next_clock stopped

switches :
    switch decimal nowhere (10 * hour) (one * nanoseconds) one 1 none none none ticking
    ≡ ok ((hour_entry, next_clock), switched)
unfolding switch require_startable running end_of book elapsed booking_day ◌-ℤ◌ put_clock
    booking_code
switches = refl

switch_lem_example :
    IsSwitched decimal nowhere
      (10 * hour)
      (one * nanoseconds)
      1
      none
      none
      none
      ticking
      hour_entry
      next_clock
      switched
switch_lem_example =
    switch_lem decimal nowhere (10 * hour) (one * nanoseconds) one 1 none none none ticking
      hour_entry next_clock switched switches

ticking-Reached : Reached decimal nowhere (10 * hour) (one * nanoseconds) ticking
ticking-Reached = Reached.waits (noon * nanoseconds) (one * nanoseconds) ticking (omega arith) (
    Reached.acts (noon * nanoseconds) idle ticking (Reached.empty (noon * nanoseconds) office)
      (Step.started 1 none none clock ticking starts))

reached-IsTimely_example : IsTimely (one * nanoseconds) ticking.timers
reached-IsTimely_example =
    reached-IsTimely decimal nowhere (10 * hour) (one * nanoseconds) ticking ticking-Reached

stop-stop_example :
    stop decimal nowhere (10 * hour) (one * nanoseconds) one 1 none none stopped
    ≡ err (Error.conflict "noTimerRunning")
stop-stop_example =
    stop-stop decimal nowhere (10 * hour) (one * nanoseconds) (one * nanoseconds) one one 1 none
      none none none ticking hour_entry stopped ticking-Reached stops

-- The start moved back by half an hour.
abbrev earlier : RunningTimer
earlier = clock_at 1 none none (noon - 1800)

abbrev adjusted : Clocks ℕ
adjusted = move_start 1 (noon - 1800) ticking

stop_accepts_example :
    stop decimal nowhere (10 * hour) (one * nanoseconds) one 1 none none ticking
    ≡ ok (hour_entry, stopped)
unfolding booking_code save Store.add put_clock end_of elapsed booking_day ◌-ℤ◌
stop_accepts_example =
    stop_accepts decimal nowhere (10 * hour) (one * nanoseconds) one 1 none none ticking clock one
      refl refl refl refl
      (record { on_calendar = refl; least = refl; most = refl; described = refl }) (inl refl)
      (ada, refl, inr ([], refl, refl))
