-- ===== src/Calendar/Tests.antt =====
-- Concrete days for the theorems on the calendar.
use go_time_recording.Base.{◌+◌, ◌≤◌, ◌<◌, ◌≡◌, refl, arith}
use go_time_recording.Calendar.{date, date_code, year, weekday, friday, days_before_year}
use go_time_recording.Calendar.Years.{year_bounds, year-date}

calendar_tests :
    (date 2024 2 29 ≡ 738944) × (year 738944 ≡ 2024) × (weekday (date 1582 10 15) ≡ friday)
unfolding date_code year weekday
calendar_tests = (refl, refl, refl)

year_bounds_example :
    (days_before_year (year 738944) ≤ 738944) × (738944 < days_before_year (year 738944 + 1))
year_bounds_example = year_bounds 738944

year-date_example : year (date 2024 (1 + 1) 29) ≡ 2024
year-date_example = year-date 2024 1 29 (omega arith) (omega arith) (omega arith) (omega arith)
