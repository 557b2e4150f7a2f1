-- ===== src/Overtime/Notices.antt =====
-- What about somebody's own time deserves a banner: `Notices` and what it calls in
-- internal/application/v1/service/overtime_application_service.go. A day before another is one number
-- less, which the days of the calendar are far enough from zero for.
use go_time_recording.Base.{
  ℕ, zero, suc, ◌-◌, Bool, true, false, not, ◌||◌, Option, none, some, List, String, ltb,
  if◌then◌else◌,
}
use go_time_recording.Calendar.{Day, midnight}
use go_time_recording.Errors.{Result, ok, ◌>>=◌}
use go_time_recording.Float.{Float64}
use go_time_recording.Store
use go_time_recording.User.{User, balance_outside}
use go_time_recording.Timesheet.Repository.{TimesheetRepository, count_by_filter}
use go_time_recording.Timesheet.Summary.{first_day}
use go_time_recording.Overtime.{Times, DayRules, rules_for, expects_work}
use go_time_recording.Overtime.Booked.{range_filter}
use go_time_recording.Overtime.Balance.{balance}

pub record RunningBalance (H : Type 0) : Type 0 where
  pub hours : H
  pub since : Option Day
  pub upper : Option H
  pub lower : Option H
  pub outside : String

pub record Notices (H : Type 0) : Type 0 where
  pub balance : RunningBalance H
  pub unbooked_day : Option Day

abbrev pub reminder_look_back : ℕ
reminder_look_back = 14

-- The first day somebody booked on, or the day that every day counts from where that is earlier.
abbrev pub earlier_from : Option Day → Day × Bool → Day × Bool
earlier_from none (first, found) = (first, found)
earlier_from (some from) (first, found) =
    if not found || ltb from first then (from, true) else (first, found)

unfoldable pub beginning : {H : Type 0} → User H → TimesheetRepository H → Day × Bool
beginning u entries = earlier_from u.every_day_counts_from (first_day u.id entries)

module _ (F : Float64) where
  open F use {Number, zero_hours, literal, sub, lt}

  module _ (found : String → String → Bool) where
    abbrev pub booked_on : ℕ → Day → TimesheetRepository Number → ℕ
    booked_on user day entries =
        count_by_filter found (range_filter user (midnight day) (midnight day)) entries

    -- The loop back from a day, through as many days.
    unfoldable pub seek_unbooked :
        DayRules Number → ℕ → TimesheetRepository Number → Day → ℕ → Day → Option Day
    seek_unbooked rules user entries begins zero day = none
    seek_unbooked rules user entries begins (suc rounds) day =
        let earlier = seek_unbooked rules user entries begins rounds (day - 1) in
        if ltb day begins
        then none
        else if not (expects_work F rules day)
        then earlier
        else if ltb 0 (booked_on user day entries)
        then none
        else some day

    unfoldable pub unbooked_day : Day → User Number → Times Number → Result (Option Day)
    unbooked_day today u times =
        let (begins, known) = beginning u times.booking.entries in
        if u.skip_unbooked_reminder || not known then ok none else do
          rules ← rules_for F today u (today - reminder_look_back) (today - 1) times
          ok (seek_unbooked rules u.id times.booking.entries begins reminder_look_back (today - 1))

    unfoldable pub running :
        (List Day → List Day) → Day → User Number → Times Number → Result (RunningBalance Number)
    running order today u times =
        let (first, known) = beginning u times.booking.entries in
        if not known || ltb today first
        then ok (record {
          hours = zero_hours;
          since = none;
          upper = u.balance_upper_limit;
          lower = u.balance_lower_limit;
          outside = "";
        })
        else do
          b ← balance F found order today u.id (midnight first) (midnight today) times
          ok (record {
            hours = b.total_balance;
            since = some first;
            upper = u.balance_upper_limit;
            lower = u.balance_lower_limit;
            outside = balance_outside F u b.total_balance;
          })

    unfoldable pub notices :
        (List Day → List Day) → Day → ℕ → Times Number → Result (Notices Number)
    notices order today user times = do
      u ← Store.get user times.booking.users
      b ← running order today u times
      unbooked ← unbooked_day today u times
      ok (record { balance = b; unbooked_day = unbooked })

  abbrev pub max_balance_bound : Number
  max_balance_bound = literal 10000 0

  -- An upper bound lies from zero to the most, a lower one from the least to zero.
  abbrev pub upper_invalid : Option Number → Bool
  upper_invalid none = false
  upper_invalid (some upper) = lt upper zero_hours || lt max_balance_bound upper

  abbrev pub lower_invalid : Option Number → Bool
  lower_invalid none = false
  lower_invalid (some lower) = lt zero_hours lower || lt lower (sub zero_hours max_balance_bound)
