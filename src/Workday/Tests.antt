-- ===== src/Workday/Tests.antt =====
-- Concrete days for the theorems on recorded days: a night of work over
-- midnight, and a day of work after it.
use go_time_recording.Base.{
  ◌≡◌, ◌≢◌, ◌↔◌, refl, arith, true, ◌&&◌, some, List, [], ◌∷◌, ◌==◌, if◌then◌else◌,
}
use go_time_recording.Base.Int.{pos, ◌+ℤ◌, ◌-ℤ◌}
use go_time_recording.Base.Distinct.{IsDistinct}
use go_time_recording.Calendar.{calendar_day, on_the_calendar, midnight}
use go_time_recording.Errors.{ok}
use go_time_recording.Workday.{
  WorkDay, Shift, worked_minutes, day_of, shift_of, continues, extend, join_day, shifts_of,
  working_time_notices,
}
use go_time_recording.Workday.Shifts.{total, shifts_of-minutes}
use go_time_recording.Workday.Notices.{IsLawful, working_time_notices-IsLawful}
use go_time_recording.Workday.Record.{save, record_day, check_times}
use go_time_recording.Workday.Record.Laws.{
  HasTimes, IsValid, find_day, record_day-HasTimes, record_day-find_day,
}

-- From six in the evening to midnight, and on until four.
abbrev evening : WorkDay
evening = record {
  user_id = 1;
  day = 738944;
  start_minute = pos 1080;
  end_minute = pos 1440;
  break_minutes = pos 0;
}

abbrev night : WorkDay
night = record {
  user_id = 1;
  day = 738945;
  start_minute = pos 0;
  end_minute = pos 240;
  break_minutes = pos 45;
}

-- From eight in the morning, more than a day after the night ended.
abbrev next_day : WorkDay
next_day = record {
  user_id = 1;
  day = 738946;
  start_minute = pos 480;
  end_minute = pos 840;
  break_minutes = pos 0;
}

abbrev days : List WorkDay
days = next_day ∷ night ∷ evening ∷ []

days-IsDistinct : IsDistinct day_of days
days-IsDistinct = ground arith

abbrev long_night : Shift
long_night = record {
  start_day = 738944;
  end_day = 738945;
  start_minute = pos 1080;
  end_minute = pos 240;
  worked = pos 555;
  breaks = pos 45;
}

abbrev short_day : Shift
short_day = record {
  start_day = 738946;
  end_day = 738946;
  start_minute = pos 480;
  end_minute = pos 840;
  worked = pos 360;
  breaks = pos 0;
}

shifts_of-days : shifts_of days ≡ long_night ∷ short_day ∷ []
unfolding shifts_of join_day continues extend shift_of worked_minutes ◌+ℤ◌ ◌-ℤ◌
shifts_of-days = refl

shifts_of-minutes_example :
    (total Shift.worked (shifts_of days) ≡ total worked_minutes days)
    × (total Shift.breaks (shifts_of days) ≡ total WorkDay.break_minutes days)
shifts_of-minutes_example = shifts_of-minutes days

working_time_notices-IsLawful_example :
    (working_time_notices days 738946 ≡ []) ↔ IsLawful (some long_night) short_day
working_time_notices-IsLawful_example =
    working_time_notices-IsLawful days (long_night ∷ []) short_day [] days-IsDistinct shifts_of-days

evening-HasTimes : HasTimes evening
evening-HasTimes = record {
  begins = omega arith;
  ends_later = omega arith;
  ends = omega arith;
  pauses = omega arith;
  works = unfold worked_minutes ◌-ℤ◌ in omega arith;
}

stored-IsValid : IsValid (evening ∷ [])
stored-IsValid = (evening-HasTimes, tt, tt)

record_day-HasTimes_example :
    ((after : List WorkDay) × (record_day (midnight 738944) evening [] ≡ ok after)) ↔ (
      ((midnight 738944).seconds ≢ 0)
      × (on_the_calendar (midnight 738944) ≡ true)
      × HasTimes evening)
record_day-HasTimes_example = record_day-HasTimes (midnight 738944) evening []

record_day-find_day_example :
    IsValid (evening ∷ night ∷ [])
    × (find_day 1 738945 (evening ∷ night ∷ []) ≡ (
        if 1 == 1 && calendar_day (midnight 738945) == 738945
        then some (record night { day = calendar_day (midnight 738945) })
        else find_day 1 738945 (evening ∷ [])))
unfolding record_day on_the_calendar check_times save calendar_day ◌-ℤ◌ ◌+ℤ◌
record_day-find_day_example =
    record_day-find_day (midnight 738945) night (evening ∷ []) {after = evening ∷ night ∷ []} 1
      738945 stored-IsValid refl
