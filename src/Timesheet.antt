-- ===== src/Timesheet.antt =====
-- A time entry, its revisions, and the filter that selects entries:
-- internal/domain/model/timesheet_model.go, revision_model.go and
-- internal/domain/repository/timesheet_repository.go. `H` is the type of hours.
pub mod Filter
pub mod Repository
pub mod Summary
mod Tests
use go_time_recording.Base.{
  ℕ, ◌+◌, ◌-◌, ◌*◌, Bool, true, false, not, ◌&&◌, ◌||◌, Option, none, some, String, ltb, ◌==◌,
  str_eq, if◌then◌else◌,
}
use go_time_recording.Calendar.{Day, Moment, calendar_day}

pub record Timesheet (H : Type 0) : Type 0 where
  pub id : ℕ
  pub user_id : ℕ
  pub project_id : Option ℕ
  pub date : Moment
  pub duration_hours : H
  pub description : Option String
  -- In seconds, as the repository truncates them.
  pub created_at : ℕ
  pub updated_at : ℕ
  pub recorded_by : Option ℕ
  pub updated_by : Option ℕ

pub record TimesheetRevision (H : Type 0) : Type 0 where
  pub id : ℕ
  pub timesheet_id : ℕ
  pub user_id : ℕ
  pub date : Moment
  pub duration_hours : H
  pub project_id : Option ℕ
  pub description : Option String
  pub replaced_at : ℕ
  pub replaced_by : Option ℕ

-- A project id that is there and is not 0.
unfoldable pub has_project : {H : Type 0} → Timesheet H → Bool
has_project t = elim t.project_id [ none ↦ false | some id ↦ not (id == 0) ]

abbrev pub same_option : {A : Type 0} → (A → A → Bool) → Option A → Option A → Bool
same_option eq none none = true
same_option eq (some a) (some b) = eq a b
same_option eq _ _ = false

-- Two versions of an entry say the same, with the comparison of hours given.
unfoldable pub says : {H : Type 0} → (H → H → Bool) → Timesheet H → Timesheet H → Bool
says eq t other =
    calendar_day t.date == calendar_day other.date
    && (eq t.duration_hours other.duration_hours
        && (t.user_id == other.user_id
            && (same_option ◌==◌ t.project_id other.project_id
                && same_option str_eq t.description other.description)))

unfoldable pub revision_of : {H : Type 0} → Timesheet H → ℕ → TimesheetRevision H
revision_of entry replaced_at = record {
  id = 0;
  timesheet_id = entry.id;
  user_id = entry.user_id;
  date = entry.date;
  duration_hours = entry.duration_hours;
  project_id = entry.project_id;
  description = entry.description;
  replaced_at = replaced_at;
  replaced_by = none;
}
