-- ===== src/Booking/CopyWeek.antt =====
-- Copying a week: internal/application/v1/service/timesheet_week_copy.go. Its entries are written one
-- after the other, as the in-memory repository's `SaveMany` does. A day moves by the days between the
-- two Mondays.
pub mod Rounds
pub mod Laws
use go_time_recording.Base.{
  ℕ, ◌+◌, Bool, true, false, not, ◌&&◌, ◌||◌, Option, none, some, List, [], ◌∷◌, ◌++◌, String, ltb,
  ◌==◌, str_eq, if◌then◌else◌, length,
}
use go_time_recording.Base.Int.{pos, pos_part, ◌+ℤ◌, ◌-ℤ◌}
use go_time_recording.Base.Order.{sort_less}
use go_time_recording.Calendar.{
  Day, Moment, calendar_day, midnight, on_the_calendar, weekday, monday,
}
use go_time_recording.Calendar.Range.{among}
use go_time_recording.Errors.{Error, Result, ok, err, ◌>>=◌, ◌>>◌, refuse_if}
use go_time_recording.Float.{Float64}
use go_time_recording.Float.Totals.{Totals, no_totals, add_at}
use go_time_recording.Store
use go_time_recording.Store.{Store}
use go_time_recording.Project.{Project, visible_to, active, require_visible}
use go_time_recording.Timesheet.{Timesheet}
use go_time_recording.Timesheet.Filter.{TimesheetFilter}
use go_time_recording.Timesheet.Repository.{TimesheetRepository, get_by_filter, save}
use go_time_recording.Booking.Checks.{
  Booking, entries_or_panic, validate_timesheet, check_daily_budget,
}

pub record WeekCopy (H : Type 0) : Type 0 where
  pub copied : ℕ
  pub hours : H
  pub kept : ℕ
  pub closed : ℕ

abbrev pub week_filter : ℕ → Day → TimesheetFilter
week_filter user start = record {
  user_id = user;
  project_id = 0;
  start_date = some (midnight start);
  end_date = some (midnight (start + 6));
  without_project = false;
  search = "";
  limit = 0;
  offset = 0;
}

abbrev pub is_monday : Moment → Bool
is_monday t = weekday (calendar_day t) == monday

abbrev pub field_if_not : Bool → String → List String
field_if_not true name = []
field_if_not false name = name ∷ []

abbrev pub none_invalid : List String → Result (Unit {0})
none_invalid [] = ok tt
none_invalid (x ∷ xs) = err (Error.invalid_fields (x ∷ xs))

-- `day.Add(to.Sub(from))`.
unfoldable pub shift_day : Day → Day → Day → Day
shift_day from to day = pos_part ((pos day +ℤ pos to) -ℤ pos from)

-- A project that is there, theirs to see and takes bookings; `Store.get` fails in no other way.
abbrev takes_bookings : ℕ → Result Project → Bool
takes_bookings user (err e) = false
takes_bookings user (ok p) = (user == 0 || visible_to p user) && str_eq p.status active

unfoldable pub still_open : ℕ → Option ℕ → Store Project → Bool
still_open user none projects = true
still_open user (some project) projects = takes_bookings user (Store.get project projects)

module _ {H : Type 0} where
  abbrev pub earlier : Timesheet H → Timesheet H → Bool
  earlier a b =
      if not (a.date.seconds == b.date.seconds)
      then ltb a.date.seconds b.date.seconds
      else ltb a.id b.id

  abbrev pub days_booked : List (Timesheet H) → List Day
  days_booked [] = []
  days_booked (t ∷ rest) = calendar_day t.date ∷ days_booked rest

  abbrev pub copy_of : ℕ → Day → Timesheet H → Timesheet H
  copy_of user day t = record {
    id = 0;
    user_id = user;
    project_id = t.project_id;
    date = midnight day;
    duration_hours = t.duration_hours;
    description = t.description;
    created_at = 0;
    updated_at = 0;
    recorded_by = none;
    updated_by = none;
  }

  -- `SaveMany` of the in-memory repository.
  unfoldable pub save_many : ℕ → List (Timesheet H) → TimesheetRepository H → TimesheetRepository H
  save_many now [] r = r
  save_many now (t ∷ rest) r = save_many now rest (save now t r).1

-- What the loop has so far: the copies in their order, the days kept as they stood, how many entries
-- were left out, and the hours that the copies put on each day.
pub record Progress (F : Float64) : Type 0 where
  pub copies : List (Timesheet F.Number)
  pub kept : List Day
  pub closed : ℕ
  pub planned : Totals F

module _ (F : Float64) where
  open F use {Number, zero_hours, add, settled}

  abbrev pub nothing_copied : Progress F
  nothing_copied = record { copies = []; kept = []; closed = 0; planned = no_totals F }

  abbrev pub keep_day : Day → Progress F → Progress F
  keep_day day p = record p { kept = if among day p.kept then p.kept else p.kept ++ day ∷ [] }

  abbrev pub leave_out : Progress F → Progress F
  leave_out p = record p { closed = p.closed + 1 }

  abbrev pub put_copy : ℕ → Day → Timesheet Number → Progress F → Progress F
  put_copy user day t p = record p {
    copies = p.copies ++ copy_of user day t ∷ [];
    planned = add_at F day t.duration_hours p.planned;
  }

  abbrev pub sum_copies : List (Timesheet Number) → Number → Number
  sum_copies [] total = total
  sum_copies (t ∷ rest) total = sum_copies rest (add total t.duration_hours)

  module _ (found : String → String → Bool) (daily_cap : Number) (user : ℕ) (from to : Day)
      (booked : List Day) (b : Booking Number) where
    -- One round of the loop.
    unfoldable pub copy_one : Timesheet Number → Progress F → Result (Progress F)
    copy_one t p =
        let day = shift_day from to (calendar_day t.date) in
        if among day booked
        then ok (keep_day day p)
        else if not (still_open user t.project_id b.projects)
        then ok (leave_out p)
        else do
          validate_timesheet F (midnight day) t.duration_hours t.description
          check_daily_budget F found daily_cap user (midnight day)
              (add t.duration_hours (p.planned day)) 0 b
          ok (put_copy user day t p)

    unfoldable pub copy_all : List (Timesheet Number) → Progress F → Result (Progress F)
    copy_all [] p = ok p
    copy_all (t ∷ rest) p = do p' ← copy_one t p; copy_all rest p'

  abbrev pub some_booked : List (Timesheet Number) → Result (Unit {0})
  some_booked [] = err (Error.invalid "nothingToCopy")
  some_booked (t ∷ rest) = ok tt

  unfoldable pub copy_week :
      (String → String → Bool)
      → Number
      → ℕ
      → ℕ
      → Moment
      → Moment
      → Booking Number
      → Result (WeekCopy Number × Booking Number)
  copy_week found daily_cap now user from to b = do
    none_invalid (
        field_if_not (on_the_calendar from && is_monday from) "from"
        ++ field_if_not
            (on_the_calendar to && (is_monday to && not (calendar_day to == calendar_day from)))
            "to")
    u ← Store.get user b.users
    let first = calendar_day from
    let first' = calendar_day to
    source ← entries_or_panic F (get_by_filter found (week_filter user first) b.entries)
    some_booked source
    target ← entries_or_panic F (get_by_filter found (week_filter user first') b.entries)
    p ←
        copy_all found daily_cap user first first' (days_booked target) b (sort_less earlier source)
          nothing_copied
    ok (
      record {
        copied = length p.copies;
        hours = settled (sum_copies p.copies zero_hours);
        kept = length p.kept;
        closed = p.closed;
      },
      record b { entries = save_many now p.copies b.entries },
    )
