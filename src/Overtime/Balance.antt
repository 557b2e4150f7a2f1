-- ===== src/Overtime/Balance.antt =====
-- The balance of a range: `OvertimeService.Balance` of
-- internal/application/v1/service/overtime_application_service.go. The order in which Go's map gives
-- its keys is an argument.
pub mod Laws
use go_time_recording.Base.{
  ℕ, Bool, true, false, Option, none, some, List, [], ◌∷◌, String, ltb, ◌==◌, if◌then◌else◌,
}
use go_time_recording.Base.Sort.{sort_by}
use go_time_recording.Calendar.{Day, Moment, calendar_day}
use go_time_recording.Calendar.Range.{days_of}
use go_time_recording.Errors.{Error, Result, ok, err, ◌>>=◌, ◌>>◌, refuse_if}
use go_time_recording.Float.{Float64}
use go_time_recording.Float.Totals.{Totals, no_totals}
use go_time_recording.Holiday.Rules.{Holiday}
use go_time_recording.Store
use go_time_recording.User.{User, effective_daily_target}
use go_time_recording.Booking.Checks.{start_of_day}
use go_time_recording.Absence.{Absence}
use go_time_recording.Overtime.{Times, DayRules, rule_of, rules_for}
use go_time_recording.Overtime.Booked.{add_day, booked_days, booked_hours, entries_in}

pub record OvertimeDay (H : Type 0) : Type 0 where
  pub date : Day
  pub booked : H
  pub target : H
  pub balance : H
  pub absence : String
  pub holiday : String
  pub holiday_substitute : Bool

pub record OvertimeBalance (H : Type 0) : Type 0 where
  pub user_id : ℕ
  pub user_name : String
  pub from : Moment
  pub to : Moment
  pub daily_target : H
  pub days : List (OvertimeDay H)
  pub every_day_counts_from : Option Day
  pub total_booked : H
  pub total_target : H
  pub total_balance : H

-- A map without the day gives the empty text.
abbrev pub kind_of : Option Absence → String
kind_of none = ""
kind_of (some a) = a.kind

abbrev pub name_of : Option Holiday → String
name_of none = ""
name_of (some h) = h.name

abbrev pub substitute_of : Option Holiday → Bool
substitute_of none = false
substitute_of (some h) = h.substitute

abbrev pub date_of : {H : Type 0} → OvertimeDay H → Day
date_of d = d.date

unfoldable pub latest : Day → Day → Day
latest a b = if ltb b a then a else b

unfoldable pub earliest : Day → Day → Day
earliest a b = if ltb a b then a else b

abbrev pub add_days : List Day → List Day → List Day
add_days [] days = days
add_days (d ∷ rest) days = add_days rest (add_day d days)

-- Every day booked on, and every day from the one that all count from up to today.
abbrev pub candidates : Option Day → Day → Day → Day → List Day → List Day
candidates none today first last booked = booked
candidates (some from) today first last booked =
    add_days (days_of (latest first from) (earliest last today)) booked

module _ (F : Float64) where
  open F use {Number, zero_hours, add, sub, settled}

  abbrev pub overtime_day : DayRules Number → Totals F → Day → OvertimeDay Number
  overtime_day rules booked day =
      let target = (rule_of F rules day (booked day)).0 in
      record {
        date = day;
        booked = settled (booked day);
        target = target;
        balance = settled (sub (booked day) target);
        absence = kind_of (rules.absent day);
        holiday = name_of (rules.holidays day);
        holiday_substitute = substitute_of (rules.holidays day);
      }

  -- The loop over the candidates.
  unfoldable pub counted_days : DayRules Number → Totals F → List Day → List (OvertimeDay Number)
  counted_days rules booked [] = []
  counted_days rules booked (day ∷ rest) =
      let later = counted_days rules booked rest in
      if (rule_of F rules day (booked day)).1 then overtime_day rules booked day ∷ later else later

  abbrev pub sum_of : (OvertimeDay Number → Number) → List (OvertimeDay Number) → Number → Number
  sum_of figure [] total = total
  sum_of figure (d ∷ rest) total = sum_of figure rest (add total (figure d))

  abbrev pub total_of : (OvertimeDay Number → Number) → List (OvertimeDay Number) → Number
  total_of figure days = settled (sum_of figure days zero_hours)

  module _ (found : String → String → Bool) (order : List Day → List Day) where
    unfoldable pub balance :
        Day → ℕ → Moment → Moment → Times Number → Result (OvertimeBalance Number)
    balance today user from to times = do
      refuse_if (user == 0) (Error.invalid_fields ("userId" ∷ []))
      refuse_if (ltb to.seconds from.seconds) (Error.invalid "rangeInverted")
      u ← Store.get user times.booking.users
      entries ← entries_in F found user (start_of_day from) (start_of_day to) times.booking.entries
      let booked = booked_hours F entries (no_totals F)
      let first = calendar_day from
      let last = calendar_day to
      rules ← rules_for F today u first last times
      let asked = candidates rules.from rules.today first last (booked_days entries [])
      let days = sort_by date_of (counted_days rules booked (order asked))
      ok (record {
        user_id = u.id;
        user_name = u.name;
        from = start_of_day from;
        to = start_of_day to;
        daily_target = effective_daily_target F u;
        days = days;
        every_day_counts_from = u.every_day_counts_from;
        total_booked = total_of (λ d. d.booked) days;
        total_target = total_of (λ d. d.target) days;
        total_balance = total_of (λ d. d.balance) days;
      })
