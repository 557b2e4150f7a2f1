-- ===== src/Booking/Correct.antt =====
-- `UpdateTimesheet` and `DeleteTimesheet` of
-- internal/application/v1/service/timesheet_application_service.go.
pub mod Laws
use go_time_recording.Base.{
  ℕ, Bool, true, false, not, ◌&&◌, ◌||◌, Option, none, some, List, [], ◌∷◌, String, ◌==◌,
  if◌then◌else◌,
}
use go_time_recording.Calendar.{Moment}
use go_time_recording.Errors.{Error, Result, ok, ◌>>=◌, ◌>>◌, refuse_if}
use go_time_recording.Float.{Float64}
use go_time_recording.Store
use go_time_recording.Timesheet.{Timesheet, has_project, same_option}
use go_time_recording.Timesheet.Repository
use go_time_recording.Timesheet.Repository.{get_by_id}
use go_time_recording.Booking.Checks.{
  Booking, validate_timesheet, require_user_and_project, check_daily_budget, normalize_project_id,
  other_than,
}

-- `none` leaves a field of the entry as it is; a project of 0 takes the entry off its project.
pub record UpdateTimesheetCommand (H : Type 0) : Type 0 where
  pub id : ℕ
  pub user_id : Option ℕ
  pub project_id : Option ℕ
  pub date : Option Moment
  pub duration_hours : Option H
  pub description : Option String
  pub updated_by : ℕ

abbrev pub or_else {ℓ} : {A : Type ℓ} → Option A → A → A
or_else none old = old
or_else (some new) old = new

abbrev new_project : Option ℕ → Option ℕ → Option ℕ
new_project none before = before
new_project (some project) before = normalize_project_id project

abbrev pub project_or_zero : Option ℕ → ℕ
project_or_zero none = 0
project_or_zero (some project) = project

abbrev new_description : Option String → Option String → Option String
new_description none before = before
new_description (some d) before = some d

-- Whether the edit moves the entry to another owner, or another project.
abbrev pub moved_owner : Option ℕ → ℕ → Bool
moved_owner none owner = false
moved_owner (some user) owner = not (user == owner)

abbrev pub moved_project : Option ℕ → Option ℕ → Bool
moved_project none before = false
moved_project (some project) before = not (same_option ◌==◌ (normalize_project_id project) before)

module _ {H : Type 0} where
  abbrev pub require_owner : Option ℕ → Booking H → Result (Unit {0})
  require_owner none b = ok tt
  require_owner (some user) b = do u ← Store.get user b.users; ok tt

  -- The entry with the owner and the project that the command asks for.
  abbrev pub reassigned : UpdateTimesheetCommand H → Timesheet H → Timesheet H
  reassigned cmd t = record t {
    user_id = or_else cmd.user_id t.user_id;
    project_id = new_project cmd.project_id t.project_id;
  }

  -- The check of a project that the entry is moved onto.
  unfoldable pub require_move :
      UpdateTimesheetCommand H → Timesheet H → Timesheet H → Booking H → Result (Unit {0})
  require_move cmd before t b =
      if (moved_owner cmd.user_id before.user_id || moved_project cmd.project_id before.project_id)
        && has_project t
      then require_user_and_project t.user_id (project_or_zero t.project_id) b
      else ok tt

  -- The entry as the command asks for it.
  abbrev pub corrected_entry : UpdateTimesheetCommand H → Timesheet H → Timesheet H
  corrected_entry cmd before =
      let t = reassigned cmd before in
      record t {
        date = or_else cmd.date t.date;
        duration_hours = or_else cmd.duration_hours t.duration_hours;
        description = new_description cmd.description t.description;
        updated_by = other_than cmd.updated_by t.user_id;
      }

  unfoldable pub delete_timesheet : ℕ → Booking H → Result (Booking H)
  delete_timesheet id b = do
    refuse_if (id == 0) (Error.invalid_fields ("id" ∷ []))
    t ← get_by_id id b.entries
    entries ← Repository.delete id b.entries
    ok (record b { entries = entries })

module _ (F : Float64) (found : String → String → Bool) (daily_cap : F.Number) where
  open F use {Number, eq}

  unfoldable pub update_timesheet :
      ℕ
      → UpdateTimesheetCommand Number
      → Booking Number
      → Result (Timesheet Number × Booking Number)
  update_timesheet now cmd b = do
    refuse_if (cmd.id == 0) (Error.invalid_fields ("id" ∷ []))
    before ← get_by_id cmd.id b.entries
    require_owner cmd.user_id b
    require_move cmd before (reassigned cmd before) b
    let t = corrected_entry cmd before
    validate_timesheet F t.date t.duration_hours t.description
    check_daily_budget F found daily_cap t.user_id t.date t.duration_hours t.id b
    (updated, entries) ← Repository.update eq now t b.entries
    ok (updated, record b { entries = entries })
