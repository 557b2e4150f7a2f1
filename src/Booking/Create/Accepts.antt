-- ===== src/Booking/Create/Accepts.antt =====
-- Which bookings are accepted.
use go_time_recording.Base.{ℕ, ◌≡◌, ◌⊎◌, refl, arith, Bool, String, inl, inr}
use go_time_recording.Errors.{ok}
use go_time_recording.Float.{Float64}
use go_time_recording.User.{User}
use go_time_recording.Store
use go_time_recording.Timesheet.Repository.{save}
use go_time_recording.Booking.Checks.{
  Booking, validate_timesheet, require_bookable, require_user_and_project, check_daily_budget,
  within_limit,
}
use go_time_recording.Booking.Checks.Laws.{IsOpenFor, IsBookable, IsWithinLimit}
use go_time_recording.Booking.Create.{CreateTimesheetCommand, entry_of, create_timesheet}

require_accepts :
    {H : Type 0} (user project : ℕ) (b : Booking H) (u : User H)
    → Store.get user b.users ≡ ok u
    → (project ≡ 0) ⊎ IsOpenFor user project b
    → require_user_and_project user project b ≡ ok tt
unfolding require_user_and_project require_bookable
require_accepts user project b u got (inl none_named) = rw (got, none_named) refl
require_accepts user project b u got (inr (p, there, seen, running)) =
    rw (got, there, seen, running) (ground arith)

module _ (F : Float64) (found : String → String → Bool) (daily_cap : F.Number) where
  open F use {Number}

  validate_accepts :
      (cmd : CreateTimesheetCommand Number)
      → IsBookable F cmd.date cmd.duration_hours cmd.description
      → validate_timesheet F cmd.date cmd.duration_hours cmd.description ≡ ok tt
  unfolding validate_timesheet
  validate_accepts cmd v = ground (arith, v.on_calendar, v.least, v.most, v.described)

  budget_accepts :
      (cmd : CreateTimesheetCommand Number) (b : Booking Number)
      → IsWithinLimit F found daily_cap cmd.user_id cmd.date cmd.duration_hours 0 b
      → check_daily_budget F found daily_cap cmd.user_id cmd.date cmd.duration_hours 0 b ≡ ok tt
  unfolding check_daily_budget within_limit
  budget_accepts cmd b (u, got, inl free) = rw (got, free) refl
  budget_accepts cmd b (u, got, inr (same_day, listed, fits)) =
      rw (got, listed, fits) (ground arith)

  -- A booking is accepted where its user is there, its project, if it names one, is one that its owner
  -- sees and that is active, its day, hours and description are bookable, and the day's hours with it stay
  -- within the limit; the result is the entry that is stored.
  pub create_timesheet-accepts :
      (now : ℕ) (cmd : CreateTimesheetCommand Number) (b : Booking Number)
      → IsBookable F cmd.date cmd.duration_hours cmd.description
      → (cmd.project_id ≡ 0) ⊎ IsOpenFor cmd.user_id cmd.project_id b
      → IsWithinLimit F found daily_cap cmd.user_id cmd.date cmd.duration_hours 0 b
      → create_timesheet F found daily_cap now cmd b
        ≡ ok (
          (save now (entry_of cmd) b.entries).0,
          record b { entries = (save now (entry_of cmd) b.entries).1 },
        )
  unfolding create_timesheet
  create_timesheet-accepts now cmd b bookable open_project within =
      let (u, got, rest) = within in
      rw
        (
          validate_accepts cmd bookable,
          require_accepts cmd.user_id cmd.project_id b u got open_project,
          budget_accepts cmd b within,
        )
        refl
