-- ===== src/Holiday/Tests.antt =====
-- Concrete years, days and places for the theorems on holidays.
use go_time_recording.Base.{
  ◌+◌, ◌≤◌, ◌<◌, ◌≡◌, ◌⊎◌, some, ℕ, inr, refl, arith, true, false, ◌&&◌, none, [], ◌∷◌, leb,
  if◌then◌else◌,
}
use go_time_recording.Base.Sort.{IsSorted}
use go_time_recording.Base.Distinct.{IsDistinct}
use go_time_recording.Calendar.{date, date_code, year, weekday, sunday, midnight, calendar_day}
use go_time_recording.Holiday.{holidays_in, holidays_between}
use go_time_recording.Holiday.Computus.{paschal_full_moon, full_moon_in_march, corrected_epact}
use go_time_recording.Holiday.Easter.{easter_sunday, easter_sunday-full_moon, easter_sunday_bounds}
use go_time_recording.Holiday.Rules
use go_time_recording.Holiday.Rules.{
  by_day, contains, contains_text, weekend, next_free_weekday, nearest_weekday, nth_weekday,
  last_weekday, latest_taken, seek_free,
}
use go_time_recording.Holiday.Rules.Substitute.{IsWeekend, IsNextFree, next_free_weekday-first}
use go_time_recording.Holiday.Rules.Years.{year-IsDistinct}
use go_time_recording.Holiday.Between.{last_on, holidays_between-last_on}
use go_time_recording.Holiday.Countries.West.{holidays_gb}
use go_time_recording.Holiday.Place.{
  valid_holiday_place, legacy_holiday_place, legacy_holiday_region, holiday_choice_fault_of,
  unknown_holiday_country, unknown_holiday_region, place_code,
}
use go_time_recording.Holiday.Place.Laws.{legacy_holiday_region-legacy_holiday_place}

easter_tests :
    (easter_sunday 2024 ≡ date 2024 3 31)
    × (easter_sunday 2025 ≡ date 2025 4 20)
    × (easter_sunday 2038 ≡ date 2038 4 25)
    × (easter_sunday 1818 ≡ date 1818 3 22)
unfolding easter_sunday date_code
easter_tests = (refl, refl, refl, refl)

moon_tests :
    (paschal_full_moon 2024 ≡ date 2024 3 25)
    × (paschal_full_moon 2025 ≡ date 2025 4 13)
    × (paschal_full_moon 1818 ≡ date 1818 3 21)
    × (paschal_full_moon 2038 ≡ date 2038 4 18)
unfolding paschal_full_moon full_moon_in_march corrected_epact date_code
moon_tests = (refl, refl, refl, refl)

place_tests :
    (valid_holiday_place "DE-NI" ≡ true)
    × (valid_holiday_place "DE" ≡ false)
    × (valid_holiday_place "US" ≡ true)
    × (valid_holiday_place "US-" ≡ false)
    × (holiday_choice_fault_of "XX" ≡ unknown_holiday_country)
    × (holiday_choice_fault_of "GB-XX" ≡ unknown_holiday_region)
    × (legacy_holiday_place "NI" ≡ "DE-NI")
unfolding place_code
place_tests = (refl, refl, refl, refl, refl, refl, refl)

easter_sunday-full_moon_example :
    (weekday (easter_sunday 2024) ≡ sunday)
    × (paschal_full_moon 2024 < easter_sunday 2024)
    × (easter_sunday 2024 ≤ paschal_full_moon 2024 + 7)
easter_sunday-full_moon_example = easter_sunday-full_moon 2024 (omega arith)

easter_sunday_bounds_example :
    (weekday (easter_sunday 1818) ≡ sunday)
    × (date 1818 3 22 ≤ easter_sunday 1818)
    × (easter_sunday 1818 ≤ date 1818 4 25)
easter_sunday_bounds_example = easter_sunday_bounds 1818 (omega arith)

holidays_between-last_on_example :
    holidays_between "AT" (midnight 738000) (midnight 738900) 738500 ≡ (
      if leb (calendar_day (midnight 738000)) 738500 && leb 738500 (calendar_day (midnight 738900))
      then last_on 738500 (holidays_in "AT" (year 738500)) none
      else none)
holidays_between-last_on_example =
    holidays_between-last_on "AT" (midnight 738000) (midnight 738900) 738500

year-IsDistinct_example :
    IsSorted by_day (Rules.year holidays_gb "SCT" 2022)
    × IsDistinct by_day (Rules.year holidays_gb "SCT" 2022)
year-IsDistinct_example = year-IsDistinct holidays_gb "SCT" 2022 (inr refl)

-- Day 5 is a Saturday; the Monday after it is taken, and the Tuesday is not.
moved_to_tuesday : next_free_weekday 5 (5 ∷ 7 ∷ []) ≡ some 8
unfolding next_free_weekday weekend weekday seek_free contains latest_taken
moved_to_tuesday = refl

next_free_weekday-first_example :
    ((next_free_weekday 5 (5 ∷ 7 ∷ []) ≡ none) × ¬ IsWeekend 5)
    ⊎ ((instead : ℕ) × (next_free_weekday 5 (5 ∷ 7 ∷ []) ≡ some instead)
        × IsWeekend 5
        × IsNextFree 5 (5 ∷ 7 ∷ []) instead)
next_free_weekday-first_example = next_free_weekday-first 5 (5 ∷ 7 ∷ [])

legacy_holiday_region-legacy_holiday_place_example :
    (legacy_holiday_region (legacy_holiday_place "NI") ≡ "NI")
    × (valid_holiday_place (legacy_holiday_place "NI") ≡ true)
unfolding contains_text
legacy_holiday_region-legacy_holiday_place_example =
    legacy_holiday_region-legacy_holiday_place "NI" refl
