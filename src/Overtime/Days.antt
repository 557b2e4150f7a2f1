-- ===== src/Overtime/Days.antt =====
-- Every day of a range: `OvertimeService.Days` of
-- internal/application/v1/service/overtime_application_service.go.
use go_time_recording.Base.{ℕ, Bool, List, [], ◌∷◌, String, ◌==◌, map}
use go_time_recording.Calendar.{Day, Moment, midnight}
use go_time_recording.Calendar.Range.{days_of}
use go_time_recording.Errors.{Error, Result, ok, ◌>>=◌, ◌>>◌, refuse_if}
use go_time_recording.Float.{Float64}
use go_time_recording.Float.Totals.{Totals, no_totals}
use go_time_recording.Store
use go_time_recording.Absence.Service.{day_range}
use go_time_recording.Overtime.{Times, DayRules, rule_of, rules_for}
use go_time_recording.Overtime.Booked.{booked_hours, entries_in}
use go_time_recording.Overtime.Balance.{kind_of, name_of, substitute_of}

-- `Day` of the source.
pub record RangeDay (H : Type 0) : Type 0 where
  pub date : Day
  pub booked : H
  pub target : H
  pub absence : String
  pub holiday : String
  pub holiday_substitute : Bool
  pub counts : Bool

module _ (F : Float64) where
  open F use {Number, settled}

  abbrev pub range_day : DayRules Number → Totals F → Day → RangeDay Number
  range_day rules booked day =
      let (target, counts) = rule_of F rules day (booked day) in
      record {
        date = day;
        booked = settled (booked day);
        target = target;
        absence = kind_of (rules.absent day);
        holiday = name_of (rules.holidays day);
        holiday_substitute = substitute_of (rules.holidays day);
        counts = counts;
      }

  unfoldable pub days :
      (String → String → Bool)
      → Day
      → ℕ
      → Moment
      → Moment
      → Times Number
      → Result (List (RangeDay Number))
  days found today user from to times = do
    refuse_if (user == 0) (Error.invalid_fields ("userId" ∷ []))
    (first, last) ← day_range from to
    u ← Store.get user times.booking.users
    entries ← entries_in F found user (midnight first) (midnight last) times.booking.entries
    rules ← rules_for F today u first last times
    ok (map (range_day rules (booked_hours F entries (no_totals F))) (days_of first last))
