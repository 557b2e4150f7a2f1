-- ===== src/Absence/Tests.antt =====
-- A week of leave recorded.
use go_time_recording.Base.{◌≡◌, refl, List, [], ◌∷◌}
use go_time_recording.Base.Keyed.{own, put}
use go_time_recording.Calendar.{midnight, year, weekday}
use go_time_recording.Calendar.Range.{days_of, days_up}
use go_time_recording.Holiday.{holidays_between, put_years, holidays_in, holidays_of_country}
use go_time_recording.Holiday.Place.{place_code}
use go_time_recording.Holiday.Countries.{find_country}
use go_time_recording.Schedule.{target_on, on, for_user, default_week}
use go_time_recording.User.{effective_daily_target}
use go_time_recording.Errors.{ok}
use go_time_recording.Float.Decimal.{decimal}
use go_time_recording.Booking.Tests.{office, booking_code}
use go_time_recording.Absence.{Absence, absence_vacation, save, valid_absence_kind}
use go_time_recording.Absence.Service.{away_on, record_absences, day_range, holidays_of, is_worked}
use go_time_recording.Absence.Service.Laws.{IsRecorded, record_absences-ok}

-- All that recording computes with.
unfoldable pub absence_code : Unit {0}
unfolding record_absences save day_range holidays_of is_worked valid_absence_kind booking_code
    place_code days_of days_up holidays_between put_years holidays_in holidays_of_country
    find_country year target_on on for_user own put default_week effective_daily_target weekday
absence_code = tt

abbrev pub week_away : List Absence
week_away = away_on decimal 1 absence_vacation (738941 ∷ 738942 ∷ 738943 ∷ 738944 ∷ 738945 ∷ [])

-- From Monday to Sunday, which are five days of leave.
recorded :
    record_absences decimal
      (ok "")
      1
      (midnight 738941)
      (midnight 738947)
      absence_vacation
      office.users
      []
      []
    ≡ ok (week_away, week_away)
unfolding absence_code
recorded = refl

record_absences-ok_example :
    IsRecorded decimal
      (ok "")
      1
      (midnight 738941)
      (midnight 738947)
      absence_vacation
      office.users
      []
      []
      week_away
      week_away
record_absences-ok_example =
    record_absences-ok decimal (ok "") 1 (midnight 738941) (midnight 738947) absence_vacation
      office.users [] [] week_away week_away recorded
