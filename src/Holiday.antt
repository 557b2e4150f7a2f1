-- ===== src/Holiday.antt =====
-- Public holidays of a year and of a range of days: `HolidaysIn` and `HolidaysBetween` of
-- internal/domain/model/holiday_model.go.
pub mod Computus
pub mod Easter
pub mod Rules
pub mod Countries
pub mod Place
pub mod Between
mod Tests
use Rules.{Holiday, CountryRules}
use Rules
use Place.{valid_holiday_place, split_holiday_place}
use Countries.{holidays_by_country, find_country}
use go_time_recording.Base.{
  ℕ, zero, suc, ◌+◌, ◌-◌, Bool, ◌&&◌, Option, none, some, List, [], ◌++◌, String, leb, ◌==◌,
  if◌then◌else◌, keep,
}
use go_time_recording.Calendar.{Day, Moment, year, calendar_day}

abbrev pub in_year : ℕ → Holiday → Bool
in_year y h = year h.day == y

-- The holidays of the year before, one of which may be kept in this year. There is none before the
-- year 1: none of the year 0 is kept after it.
abbrev pub year_before : CountryRules → String → ℕ → List Holiday
year_before c region y = if leb y 1 then [] else Rules.year c region (y - 1)

-- The three years whose holidays may fall in a year, less what falls in another.
unfoldable pub holidays_of_country : Option CountryRules → String → ℕ → List Holiday
holidays_of_country none region y = []
holidays_of_country (some c) region y =
    keep (in_year y)
      (year_before c region y ++ (Rules.year c region y ++ Rules.year c region (y + 1)))

unfoldable pub holidays_in : String → ℕ → List Holiday
unfolding holidays_of_country
holidays_in place y =
    if valid_holiday_place place
    then holidays_of_country (find_country (split_holiday_place place).0 holidays_by_country)
        (split_holiday_place place).1 y
    else []

-- The map that `HolidaysBetween` builds: the last holiday written for a day is the one found.
abbrev pub Found : Type 0
Found = Day → Option Holiday

abbrev pub put : Holiday → Found → Found
put h found day = if day == h.day then some h else found day

unfoldable pub put_all : Day → Day → List Holiday → Found → Found
put_all from to List.[] found = found
put_all from to (List.◌∷◌ h hs) found =
    put_all from to hs (if leb from h.day && leb h.day to then put h found else found)

-- The loop over the years, `rounds` of them from `y` on.
unfoldable pub put_years : String → Day → Day → ℕ → ℕ → Found → Found
unfolding put_all
put_years place from to zero y found = found
put_years place from to (suc rounds) y found =
    put_years place from to rounds (y + 1) (put_all from to (holidays_in place y) found)

abbrev pub nothing_found : Found
nothing_found day = none

unfoldable pub holidays_between : String → Moment → Moment → Found
unfolding put_years
holidays_between place from to =
    let first = calendar_day from in
    let last = calendar_day to in
    put_years place first last (year last + 1 - year first) (year first) nothing_found
