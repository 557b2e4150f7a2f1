-- ===== src/Booking/Report.antt =====
-- The two reports on time: `GenerateOwnTimeReport` and `GenerateProjectTimeReport` of
-- internal/domain/service/timesheet_service.go, with `ProjectScope` of the same file and of
-- internal/domain/service/visibility.go.
pub mod Laws
use go_time_recording.Base.{
  ℕ, Bool, true, false, not, ◌&&◌, Option, none, some, List, [], ◌∷◌, String, ◌==◌, if◌then◌else◌,
}
use go_time_recording.Calendar.{Moment}
use go_time_recording.Errors.{Error, Result, ok, ◌>>=◌, ◌>>◌}
use go_time_recording.Float.{Float64}
use go_time_recording.Float.Totals.{Totals, no_totals, add_at}
use go_time_recording.Store
use go_time_recording.Store.{Store}
use go_time_recording.Project.{Project, require_visible}
use go_time_recording.Timesheet.{Timesheet}
use go_time_recording.Timesheet.Filter.{TimesheetFilter}
use go_time_recording.Timesheet.Repository.{get_by_filter}
use go_time_recording.Booking.Checks.{Booking, entries_or_panic}

pub record ProjectScope : Type 0 where
  pub project_id : ℕ
  pub unassigned : Bool

unfoldable pub require_scope : ProjectScope → ℕ → Store Project → Result (Unit {0})
require_scope scope viewer projects =
    if scope.project_id == 0
    then ok tt
    else do p ← Store.get scope.project_id projects; require_visible p viewer

abbrev pub report_filter : ℕ → ℕ → Bool → Moment → Moment → TimesheetFilter
report_filter user project without start end = record {
  user_id = user;
  project_id = project;
  start_date = some start;
  end_date = some end;
  without_project = without;
  search = "";
  limit = 0;
  offset = 0;
}

module _ (F : Float64) where
  open F use {Number, zero_hours, add}

  abbrev pub sum_hours : List (Timesheet Number) → Number → Number
  sum_hours [] total = total
  sum_hours (t ∷ rest) total = sum_hours rest (add total t.duration_hours)

  -- The loop over the entries, by their owner.
  abbrev pub sum_by_user : List (Timesheet Number) → Totals F → Totals F
  sum_by_user [] report = report
  sum_by_user (t ∷ rest) report = sum_by_user rest (add_at F t.user_id t.duration_hours report)

  module _ (found : String → String → Bool) where
    unfoldable pub own_time_report :
        ProjectScope → Moment → Moment → ℕ → Booking Number → Result Number
    own_time_report scope start end user b = do
      require_scope scope user b.projects
      entries ← entries_or_panic F (
          get_by_filter found
            (report_filter user scope.project_id (scope.project_id == 0 && scope.unassigned) start
              end)
            b.entries)
      ok (sum_hours entries zero_hours)

    unfoldable pub project_time_report :
        ℕ → Moment → Moment → ℕ → ℕ → Booking Number → Result (Totals F)
    project_time_report project start end viewer only_user b = do
      p ← Store.get project b.projects
      require_visible p viewer
      entries ←
          entries_or_panic F
            (get_by_filter found (report_filter only_user project false start end) b.entries)
      ok (sum_by_user entries (no_totals F))
