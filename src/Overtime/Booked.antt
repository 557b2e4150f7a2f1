-- ===== src/Overtime/Booked.antt =====
-- The hours of a range of days by their day, in
-- internal/application/v1/service/overtime_application_service.go.
pub mod Laws
use go_time_recording.Base.{ℕ, zero, Bool, false, some, List, [], ◌∷◌, ◌++◌, String, if◌then◌else◌}
use go_time_recording.Calendar.{Day, Moment, calendar_day}
use go_time_recording.Calendar.Range.{among}
use go_time_recording.Errors.{Result}
use go_time_recording.Float.{Float64}
use go_time_recording.Float.Totals.{Totals, add_at}
use go_time_recording.Timesheet.{Timesheet}
use go_time_recording.Timesheet.Filter.{TimesheetFilter}
use go_time_recording.Timesheet.Repository.{TimesheetRepository, get_by_filter}
use go_time_recording.Booking.Checks.{entries_or_panic}

-- A day is put among the keys of a map that does not have it yet.
abbrev pub add_day : Day → List Day → List Day
add_day day days = if among day days then days else days ++ day ∷ []

abbrev pub range_filter : ℕ → Moment → Moment → TimesheetFilter
range_filter user start end = record {
  user_id = user;
  project_id = 0;
  start_date = some start;
  end_date = some end;
  without_project = false;
  search = "";
  limit = 0;
  offset = 0;
}

-- The keys of the map of booked hours.
abbrev pub booked_days : {H : Type 0} → List (Timesheet H) → List Day → List Day
booked_days [] days = days
booked_days (t ∷ rest) days = booked_days rest (add_day (calendar_day t.date) days)

module _ (F : Float64) where
  open F use {Number}

  -- Its values.
  abbrev pub booked_hours : List (Timesheet Number) → Totals F → Totals F
  booked_hours [] totals = totals
  booked_hours (t ∷ rest) totals =
      booked_hours rest (add_at F (calendar_day t.date) t.duration_hours totals)

  abbrev pub entries_in :
      (String → String → Bool)
      → ℕ
      → Moment
      → Moment
      → TimesheetRepository Number
      → Result (List (Timesheet Number))
  entries_in found user start end entries =
      entries_or_panic F (get_by_filter found (range_filter user start end) entries)
