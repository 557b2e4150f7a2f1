-- ===== src/Calendar/Years.antt =====
-- Days, years and weekdays: what the other modules need of the calendar's arithmetic.
use native.Mathlib.Nat.{add-zero}
use go_time_recording.Base.{ℕ, ◌+◌, ◌-◌, ◌/◌, ◌%◌, ◌≤◌, ◌<◌, ◌≡◌, refl, arith}
use go_time_recording.Calendar.{Day, leap_days, days_before_year, days_before_month, date, year}

-- A day lies in the year that its cycles give.
pub year_bounds : (n : Day) → (days_before_year (year n) ≤ n) × (n < days_before_year (year n + 1))
unfolding days_before_year year
year_bounds n = (omega arith, omega arith)

pub days_before_year_mono : (y z : ℕ) → 1 ≤ y → y ≤ z → days_before_year y ≤ days_before_year z
unfolding days_before_year
days_before_year_mono y z h k = omega arith

-- A year has 365 days and its leap day.
pub days_before_year-next :
    (y : ℕ) → 1 ≤ y → days_before_year (y + 1) ≡ days_before_year y + 365 + leap_days y 2
unfolding days_before_year leap_days
days_before_year-next y h = ground arith

pub year_pos : (n : Day) → 1 ≤ year n
unfolding year
year_pos n = omega arith

-- No other year holds the day.
pub year_unique :
    (n : Day) (y : ℕ) → 1 ≤ y → days_before_year y ≤ n → n < days_before_year (y + 1) → year n ≡ y
year_unique n y h lo hi = grind (
  arith,
  year_bounds n,
  year_pos n,
  days_before_year_mono (year n + 1) y,
  days_before_year_mono (y + 1) (year n),
)

pub year_mono : (n m : Day) → n ≤ m → year n ≤ year m
year_mono n m h =
    grind (arith, year_bounds n, year_bounds m, days_before_year_mono (year m + 1) (year n))

pub leap_days-le : (y m : ℕ) → leap_days y m ≤ leap_days y 2
unfolding leap_days
leap_days-le y m = ground arith

-- `date` in a month of the year itself.
pub date-in_year :
    (y m d : ℕ)
    → m < 12
    → date y (m + 1) d ≡ days_before_year y + (days_before_month m + leap_days y m + d) - 1
unfolding date
date-in_year y m d h =
    let q : (m + 1 - 1) / 12 ≡ 0 = omega arith in
    let r : (m + 1 - 1) % 12 ≡ m = omega arith in rw (q, r, add-zero)

days_before_month-le : (m : ℕ) → days_before_month m ≤ 334
unfolding days_before_month
days_before_month-le m = ground arith

-- A day of one of the year's months, up to the 31st, lies in that year.
pub year-date : (y m d : ℕ) → 1 ≤ y → m < 12 → 1 ≤ d → d ≤ 31 → year (date y (m + 1) d) ≡ y
year-date y m d h hm ld hd =
    year_unique (date y (m + 1) d) y h (omega (arith, date-in_year y m d hm)) (
      omega (
        arith,
        date-in_year y m d hm,
        days_before_year-next y h,
        days_before_month-le m,
        leap_days-le y m,
      ))

-- The first of April is 31 days after the first of March.
pub march_april : (y d : ℕ) → 1 ≤ d → date y 4 d ≡ date y 3 d + 31
march_april y d h = omega (arith, date-in_year y 2 d, date-in_year y 3 d, months, leap_march)
  where
    months : (days_before_month 2 ≡ 59) × (days_before_month 3 ≡ 90)
    months = unfold days_before_month in (refl, refl)

    leap_march : leap_days y 3 ≡ leap_days y 2
    leap_march = unfold leap_days in refl
