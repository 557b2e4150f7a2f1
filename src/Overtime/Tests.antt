-- ===== src/Overtime/Tests.antt =====
-- The week of the entry of eight hours, in balance and in picture.
use go_time_recording.Timesheet.Repository.{count_by_filter}
use go_time_recording.Timesheet.Summary.{first_day, earliest_of}
use go_time_recording.Timesheet.Filter.{matches_filter}
use go_time_recording.Base.Int.{◌-ℤ◌}
use go_time_recording.Base.{
  ℕ, ◌-◌, ◌*◌, ◌≡◌, ◌⊎◌, refl, arith, true, false, Option, none, some, List, [], ◌∷◌, ◌==◌,
  if◌then◌else◌, map, keep, All,
}
use go_time_recording.Calendar.{Day, midnight}
use go_time_recording.Errors.{ok}
use go_time_recording.Float.Decimal.{decimal}
use go_time_recording.User.{User}
use go_time_recording.Booking.Checks.{start_of_day}
use go_time_recording.Booking.Tests.{hour, ada, booked_office, nowhere}
use go_time_recording.Absence.{Absence, between, target}
use go_time_recording.Absence.Tests.{absence_code}
use go_time_recording.Overtime.{Times, DayRules, rules_for, rule_of, expects_work}
use go_time_recording.Overtime.Balance.{
  OvertimeBalance, OvertimeDay, balance, counted_days, earliest, latest,
}
use go_time_recording.Overtime.Days.{RangeDay, days}
use go_time_recording.Overtime.Agree.{IsReordering, as_day, is_counted}
use go_time_recording.Overtime.Agree.Ranges.{balance-days}
use go_time_recording.Overtime.Notices.{beginning, unbooked_day, reminder_look_back, seek_unbooked}
use go_time_recording.Overtime.Reminder.{Reminds, unbooked_day-Reminds}
use go_time_recording.Overtime.Discreet.{
  ReadsReasons, IsStranger, away_days, seen_by, TellsNoReason, figures_of, seen_by_lem,
}

-- Every day counts for her from the Wednesday on, and she is ill on the Friday.
abbrev counting_ada : User ℕ
counting_ada = record ada { every_day_counts_from = some 738943 }

abbrev times : Times ℕ
times = record {
  booking = record booked_office {
    users = record booked_office.users { items = λ n. if n == 1 then some counting_ada else none };
  };
  schedules = [];
  absences = record { user_id = 1; day = 738945; kind = "sick" } ∷ [];
  place = ok "";
}

abbrev as_is : List Day → List Day
as_is ds = ds

abbrev wednesday_short : OvertimeDay ℕ
wednesday_short = record {
  date = 738943;
  booked = 0;
  target = 8 * hour;
  balance = decimal.sub 0 (8 * hour);
  absence = "";
  holiday = "";
  holiday_substitute = false;
}

abbrev thursday_booked : OvertimeDay ℕ
thursday_booked = record wednesday_short { date = 738944; booked = 8 * hour; balance = 0 }

abbrev week_balance : OvertimeBalance ℕ
week_balance = record {
  user_id = 1;
  user_name = "Ada";
  from = midnight 738941;
  to = midnight 738947;
  daily_target = 8 * hour;
  days = wednesday_short ∷ thursday_booked ∷ [];
  every_day_counts_from = some 738943;
  total_booked = 8 * hour;
  total_target = 16 * hour;
  total_balance = decimal.sub 0 (8 * hour);
}

abbrev free_day : Day → RangeDay ℕ
free_day d = record {
  date = d;
  booked = 0;
  target = 0;
  absence = "";
  holiday = "";
  holiday_substitute = false;
  counts = false;
}

abbrev week_days : List (RangeDay ℕ)
week_days =
    record (free_day 738941) { target = 8 * hour }
    ∷ record (free_day 738942) { target = 8 * hour }
    ∷ as_day wednesday_short
    ∷ as_day thursday_booked
    ∷ record (free_day 738945) { absence = "sick" }
    ∷ free_day 738946
    ∷ free_day 738947
    ∷ []

balanced :
    balance decimal nowhere as_is 738950 1 (midnight 738941) (midnight 738947) times
    ≡ ok week_balance
unfolding balance absence_code rules_for start_of_day counted_days ◌-ℤ◌ earliest latest
    matches_filter rule_of between target
balanced = refl

drawn : days decimal nowhere 738950 1 (midnight 738941) (midnight 738947) times ≡ ok week_days
unfolding days absence_code rules_for go_time_recording.Timesheet.Filter.matches_filter
    go_time_recording.Overtime.rule_of go_time_recording.Absence.between
    go_time_recording.Absence.target
drawn = refl

as_is-IsReordering : IsReordering as_is
as_is-IsReordering = record { same_days = λ ds d. refl; distinct = λ ds d. d }

balance-days_example : map as_day week_balance.days ≡ keep is_counted week_days
unfolding absence_code
balance-days_example =
    balance-days decimal nowhere as_is 738950 1 (midnight 738941) (midnight 738947) times
      week_balance week_days as_is-IsReordering refl (omega arith) (omega arith)
      ((738944, refl), tt) balanced drawn

seen_by_lem_example :
    (ReadsReasons (some 2) week_balance.user_id × (seen_by (some 2) week_balance ≡ week_balance))
    ⊎ (IsStranger (some 2) week_balance.user_id
        × All (λ d. TellsNoReason d.absence) (seen_by (some 2) week_balance).days
        × (away_days (seen_by (some 2) week_balance).days ≡ away_days week_balance.days)
        × (map figures_of (seen_by (some 2) week_balance).days ≡ map figures_of week_balance.days)
        × (record (seen_by (some 2) week_balance) { days = week_balance.days } ≡ week_balance))
seen_by_lem_example = seen_by_lem (some 2) week_balance

-- On the Saturday the Friday of her illness is passed over, and the Thursday is booked.
reminded : unbooked_day decimal nowhere 738946 counting_ada times ≡ ok none
unfolding unbooked_day absence_code beginning first_day earliest_of rules_for seek_unbooked
    expects_work go_time_recording.Absence.between count_by_filter
    go_time_recording.Timesheet.Filter.matches_filter
reminded = refl

-- On the Thursday itself the Wednesday was not booked.
reminded_of_wednesday : unbooked_day decimal nowhere 738944 counting_ada times ≡ ok (some 738943)
unfolding unbooked_day absence_code beginning go_time_recording.Timesheet.Summary.first_day
    go_time_recording.Timesheet.Summary.earliest_of rules_for
    go_time_recording.Overtime.Notices.seek_unbooked go_time_recording.Overtime.expects_work
    go_time_recording.Absence.between go_time_recording.Timesheet.Repository.count_by_filter
    go_time_recording.Timesheet.Filter.matches_filter
reminded_of_wednesday = refl

unbooked_day-Reminds_example :
    ((◌≡◌ {A = Option Day} (some 738943) none)
      × ((counting_ada.skip_unbooked_reminder ≡ true)
          ⊎ ((beginning counting_ada times.booking.entries).1 ≡ false)))
    ⊎ ((rules : DayRules ℕ) × (counting_ada.skip_unbooked_reminder ≡ false)
        × ((beginning counting_ada times.booking.entries).1 ≡ true)
        × (rules_for decimal 738944 counting_ada (738944 - reminder_look_back) (738944 - 1) times
            ≡ ok rules)
        × Reminds decimal nowhere rules counting_ada.id times.booking.entries
            (beginning counting_ada times.booking.entries).0
            reminder_look_back
            (738944 - 1)
            (some 738943))
unbooked_day-Reminds_example =
    unbooked_day-Reminds decimal nowhere 738944 counting_ada times (some 738943) (omega arith)
      reminded_of_wednesday
