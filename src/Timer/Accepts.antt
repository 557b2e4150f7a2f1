-- ===== src/Timer/Accepts.antt =====
-- When a clock can be stopped.
use go_time_recording.Base.{ℕ, ◌≡◌, ◌⊎◌, refl, Bool, false, Option, some, String}
use go_time_recording.Base.Int.{ℤ}
use go_time_recording.Errors.{ok}
use go_time_recording.Float.{Float64}
use go_time_recording.Timesheet.Repository.{save}
use go_time_recording.Booking.Checks.{min_bookable_hours, hours_per_day}
use go_time_recording.Booking.Checks.Laws.{IsOpenFor, IsBookable, IsWithinLimit}
use go_time_recording.Booking.Create.{entry_of}
use go_time_recording.Booking.Create.Accepts.{create_timesheet-accepts}
use go_time_recording.Timer.{
  RunningTimer, Clocks, running, book, stop, discard, end_of, elapsed, booking_day, command_of,
  id_or_zero,
}

module _ (F : Float64) (found : String → String → Bool) (daily_cap : F.Number) where
  open F use {Number, lt, hours_of}

  -- A running clock is stopped where the time it ends at is accepted, the measured hours are neither too
  -- short nor too long, and a booking of them is one that would be accepted by hand. The entry of
  -- that booking is the result, and the clock of its owner is cleared.
  pub stop_accepts :
      (now saved user : ℕ) (zone : Option (ℕ → ℤ)) (ended_at : Option ℕ) (s : Clocks Number)
      (t : RunningTimer) (end : ℕ)
      → s.timers user ≡ some t
      → end_of now t ended_at ≡ ok end
      → lt (hours_of (elapsed t end)) (min_bookable_hours F) ≡ false
      → lt (hours_per_day F) (hours_of (elapsed t end)) ≡ false
      → IsBookable F (booking_day t zone) (hours_of (elapsed t end)) t.description
      → (id_or_zero t.project_id ≡ 0) ⊎ IsOpenFor t.user_id (id_or_zero t.project_id) s.booking
      → IsWithinLimit F found daily_cap t.user_id
          (booking_day t zone)
          (hours_of (elapsed t end))
          0
          s.booking
      → stop F found daily_cap now saved user zone ended_at s
        ≡ ok (
          (save saved
              (entry_of (command_of t zone (hours_of (elapsed t end))))
              s.booking.entries).0,
          discard t.user_id (record s {
            booking = record s.booking {
              entries =
                  (save saved
                    (entry_of (command_of t zone (hours_of (elapsed t end))))
                    s.booking.entries).1;
            };
          }),
        )
  unfolding stop running book
  stop_accepts now saved user zone ended_at s t end runs ends long_enough short_enough bookable
        open_project within =
      rw
        (
          runs,
          ends,
          long_enough,
          short_enough,
          create_timesheet-accepts F found daily_cap saved
              (command_of t zone (hours_of (elapsed t end))) s.booking bookable open_project within,
        )
        refl
