-- ===== src/Timesheet/Summary.antt =====
-- What the in-memory repository of entries sums up for a person: `FirstDay` and `HoursByProject` of
-- internal/infrastructure/persistence/memory/timesheet.go.

use go_time_recording.Base.{
  ℕ, Bool, not, ◌&&◌, ◌||◌, Option, none, some, List, [], ◌∷◌, ltb, ◌==◌, if◌then◌else◌,
}
use go_time_recording.Calendar.{Day, Moment, midnight, calendar_day}
use go_time_recording.Float.{Float64}
use go_time_recording.Float.Totals.{Totals, no_totals, add_at}
use go_time_recording.Store
use go_time_recording.Timesheet.{Timesheet}
use go_time_recording.Timesheet.Repository.{TimesheetRepository}

-- Go's zero time.
abbrev pub is_zero : Moment → Bool
is_zero t = t.seconds == 0

module _ {H : Type 0} where
  -- The loop over the entries, from the earliest found so far.
  unfoldable pub earliest_of : ℕ → List (Timesheet H) → Moment → Moment
  earliest_of user [] first = first
  earliest_of user (t ∷ rest) first = earliest_of user rest (
      if t.user_id == user && (is_zero first || ltb t.date.seconds first.seconds)
      then t.date
      else first)

  unfoldable pub first_day : ℕ → TimesheetRepository H → Day × Bool
  first_day user r =
      let first = earliest_of user (Store.all r.store) (midnight 0) in
      (calendar_day first, not (is_zero first))

module _ (F : Float64) where
  open F use {Number}

  abbrev pub add_hours : Option ℕ → Number → Totals F → Totals F
  add_hours none hours totals = totals
  add_hours (some project) hours totals = add_at F project hours totals

  unfoldable pub sum_projects : ℕ → List (Timesheet Number) → Totals F → Totals F
  sum_projects user [] totals = totals
  sum_projects user (t ∷ rest) totals = sum_projects user rest (
      if user == 0 || t.user_id == user
      then add_hours t.project_id t.duration_hours totals
      else totals)

  unfoldable pub hours_by_project : ℕ → TimesheetRepository Number → Totals F
  hours_by_project user r = sum_projects user (Store.all r.store) (no_totals F)
