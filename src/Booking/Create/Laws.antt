-- ===== src/Booking/Create/Laws.antt =====
-- What a booking that is accepted has met, and what it leaves.
use mathlib.Core.Path.{subst}
use go_time_recording.Base.{ℕ, ◌≡◌, ◌⊎◌, refl, arith, Bool, String}
use go_time_recording.Errors.{ok, check-ok, ok_injective}
use go_time_recording.Float.{Float64}
use go_time_recording.Store
use go_time_recording.Timesheet.{Timesheet}
use go_time_recording.Timesheet.Repository.{get_by_id, save}
use go_time_recording.Booking.Checks.{
  Booking, validate_timesheet, require_user_and_project, check_daily_budget,
}
use go_time_recording.Booking.Checks.Laws.{
  IsOpenFor, IsBookable, IsWithinLimit, require_user_and_project-ok, validate_timesheet-ok,
  check_daily_budget-ok,
}
use go_time_recording.Booking.Create.{CreateTimesheetCommand, entry_of, create_timesheet}

saved_entry :
    {H : Type 0} (now : ℕ) (cmd : CreateTimesheetCommand H) (b : Booking H)
    → let (t, entries) = save now (entry_of cmd) b.entries in
      (t ≡ record (entry_of cmd) {
        id = b.entries.store.next_id;
        created_at = now;
        updated_at = now;
      })
      × (get_by_id t.id entries ≡ ok t)
      × (b.users ≡ b.users)
      × (b.projects ≡ b.projects)
unfolding save Store.add get_by_id Store.get
saved_entry now cmd b = (refl, ground arith, refl, refl)

module _ (F : Float64) (found : String → String → Bool) (daily_cap : F.Number) where
  open F use {Number}

  -- What an accepted booking has met and leaves: a user that is there and, with a daily limit, the
  -- day's hours with it within the limit and the slack; a project, where one is named, that its owner
  -- sees and that is active; a day of the calendar; hours from the smallest bookable to a day's; a
  -- description that fits. The entry says what the command says, under the next id, and reads back.
  pub record IsAccepted (now : ℕ) (cmd : CreateTimesheetCommand Number) (b : Booking Number)
      (t : Timesheet Number) (b' : Booking Number) : Type 0 where
    pub within_limit : IsWithinLimit F found daily_cap cmd.user_id cmd.date cmd.duration_hours 0 b
    pub open_project : (cmd.project_id ≡ 0) ⊎ IsOpenFor cmd.user_id cmd.project_id b
    pub bookable : IsBookable F cmd.date cmd.duration_hours cmd.description
    pub is_entry :
        t
        ≡ record (entry_of cmd) { id = b.entries.store.next_id; created_at = now; updated_at = now }
    pub reads_back : get_by_id t.id b'.entries ≡ ok t
    pub users_kept : b'.users ≡ b.users
    pub projects_kept : b'.projects ≡ b.projects

  -- A booking that is accepted is one that `IsAccepted` describes.
  pub create_timesheet-ok :
      (now : ℕ) (cmd : CreateTimesheetCommand Number) (b : Booking Number) (t : Timesheet Number)
      (b' : Booking Number)
      → create_timesheet F found daily_cap now cmd b ≡ ok (t, b')
      → IsAccepted now cmd b t b'
  unfolding create_timesheet
  create_timesheet-ok now cmd b t b' h =
      let (valid, h1) =
        check-ok (validate_timesheet F cmd.date cmd.duration_hours cmd.description) _ h in
      let (booked_for, h2) =
        check-ok (require_user_and_project cmd.user_id cmd.project_id b) _ h1 in
      let (in_budget, h3) =
        check-ok (check_daily_budget F found daily_cap cmd.user_id cmd.date cmd.duration_hours 0 b)
          _ h2 in
      let (is_entry, reads_back, users_kept, projects_kept) =
        subst
          (λ r.
            (r.0 ≡ record (entry_of cmd) {
              id = b.entries.store.next_id;
              created_at = now;
              updated_at = now;
            })
            × (get_by_id r.0.id r.1.entries ≡ ok r.0)
            × (r.1.users ≡ b.users)
            × (r.1.projects ≡ b.projects))
          (ok_injective h3) (saved_entry now cmd b) in
      record {
        within_limit =
            check_daily_budget-ok F found daily_cap cmd.user_id cmd.date cmd.duration_hours 0 b
              in_budget;
        open_project = require_user_and_project-ok cmd.user_id cmd.project_id b booked_for;
        bookable = validate_timesheet-ok F cmd.date cmd.duration_hours cmd.description valid;
        is_entry = is_entry;
        reads_back = reads_back;
        users_kept = users_kept;
        projects_kept = projects_kept;
      }
