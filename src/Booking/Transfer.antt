-- ===== src/Booking/Transfer.antt =====
-- Moving an entry to another project: `TransferTimesheetToProject` of
-- internal/domain/service/timesheet_service.go.
pub mod Laws
mod Tests
use go_time_recording.Base.{
  ℕ, Bool, true, false, not, ◌&&◌, Option, none, some, ◌==◌, str_eq, if◌then◌else◌,
}
use go_time_recording.Errors.{Error, Result, ok, ◌>>=◌, ◌>>◌, refuse_if}
use go_time_recording.Store
use go_time_recording.Project.{require_visible, active}
use go_time_recording.Timesheet.{Timesheet, has_project}
use go_time_recording.Timesheet.Repository
use go_time_recording.Timesheet.Repository.{get_by_id}
use go_time_recording.Booking.Checks.{Booking, other_than}

abbrev pub is_project : Option ℕ → ℕ → Bool
is_project none id = false
is_project (some p) id = p == id

module _ {H : Type 0} where
  unfoldable pub transfer_to_project :
      (H → H → Bool) → ℕ → ℕ → ℕ → ℕ → Booking H → Result (Timesheet H × Booking H)
  transfer_to_project eq now id new_project actor b = do
    t ← get_by_id id b.entries
    p ← Store.get new_project b.projects
    require_visible p (if not (actor == 0) then t.user_id else actor)
    refuse_if (has_project t && is_project t.project_id p.id)
        (Error.conflict "entryAlreadyOnProject")
    refuse_if (not (str_eq p.status active)) (Error.conflict "projectClosedForBooking")
    (updated, entries) ←
        Repository.update eq now
          (record t { project_id = some p.id; updated_by = other_than actor t.user_id }) b.entries
    ok (updated, record b { entries = entries })
