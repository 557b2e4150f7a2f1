-- ===== src/Booking/Create.antt =====
-- `CreateTimesheet` of internal/application/v1/service/timesheet_application_service.go.
pub mod Laws
pub mod Accepts
use go_time_recording.Base.{ℕ, Bool, Option, String, ◌==◌}
use go_time_recording.Calendar.{Moment}
use go_time_recording.Errors.{Result, ok, ◌>>=◌, ◌>>◌}
use go_time_recording.Float.{Float64}
use go_time_recording.Timesheet.{Timesheet}
use go_time_recording.Timesheet.Repository.{save}
use go_time_recording.Booking.Checks.{
  Booking, validate_timesheet, require_user_and_project, check_daily_budget, normalize_project_id,
  other_than,
}

pub record CreateTimesheetCommand (H : Type 0) : Type 0 where
  pub user_id : ℕ
  pub project_id : ℕ
  pub date : Moment
  pub duration_hours : H
  pub description : Option String
  pub recorded_by : ℕ

-- The entry that a command asks for; the repository gives the id and the two moments.
abbrev pub entry_of : {H : Type 0} → CreateTimesheetCommand H → Timesheet H
entry_of cmd = record {
  id = 0;
  user_id = cmd.user_id;
  project_id = normalize_project_id cmd.project_id;
  date = cmd.date;
  duration_hours = cmd.duration_hours;
  description = cmd.description;
  created_at = 0;
  updated_at = 0;
  recorded_by = other_than cmd.recorded_by cmd.user_id;
  updated_by = Option.none;
}

module _ (F : Float64) (found : String → String → Bool) (daily_cap : F.Number) where
  open F use {Number}

  unfoldable pub create_timesheet :
      ℕ
      → CreateTimesheetCommand Number
      → Booking Number
      → Result (Timesheet Number × Booking Number)
  create_timesheet now cmd b = do
    validate_timesheet F cmd.date cmd.duration_hours cmd.description
    require_user_and_project cmd.user_id cmd.project_id b
    check_daily_budget F found daily_cap cmd.user_id cmd.date cmd.duration_hours 0 b
    let (created, entries) = save now (entry_of cmd) b.entries
    ok (created, record b { entries = entries })
