-- ===== src/Holiday/Easter.antt =====
-- `easterSunday` of internal/domain/model/holiday_model.go, the Gregorian computus in Meeus's form,
-- against the definition of Easter: the Sunday after the paschal full moon.
use go_time_recording.Base.{
  ℕ, ◌+◌, ◌-◌, ◌*◌, ◌/◌, ◌%◌, ◌≤◌, ◌<◌, ◌≡◌, refl, ltb, arith, ◌==◌, if◌then◌else◌, ◌||◌, ◌&&◌,
}
use go_time_recording.Holiday.Computus.{
  epact, corrected_epact, full_moon_in_march, paschal_full_moon,
}
use native.Mathlib.Decide.{dec_lt}
use go_time_recording.Calendar.Years.{date-in_year, march_april, days_before_year-next}
use go_time_recording.Calendar.{Day, sunday, date, weekday, days_before_year, days_before_month}

-- The differences of the source stay at zero or above for every year from 0 on.
unfoldable pub easter_sunday : ℕ → Day
easter_sunday y =
    let a = y % 19 in
    let b = y / 100 in
    let c = y % 100 in
    let d = b / 4 in
    let e = b % 4 in
    let f = (b + 8) / 25 in
    let g = (b - f + 1) / 3 in
    let h = (19 * a + b - d - g + 15) % 30 in
    let i = c / 4 in
    let k = c % 4 in
    let l = (32 + 2 * e + 2 * i - h - k) % 7 in
    let m = (a + 11 * h + 22 * l) / 451 in
    date y ((h + l - 7 * m + 114) / 31) ((h + l - 7 * m + 114) % 31 + 1)

-- The names of the computus, as functions of the year.
module _ (y : ℕ) where
  moon : ℕ
  moon = (19 * (y % 19) + y / 100 - y / 100 / 4 - (y / 100 - (y / 100 + 8) / 25 + 1) / 3 + 15) % 30

  to_sunday : ℕ
  to_sunday = (32 + 2 * (y / 100 % 4) + 2 * (y % 100 / 4) - moon - y % 100 % 4) % 7

  late : ℕ
  late = (y % 19 + 11 * moon + 22 * to_sunday) / 451

march_plus : (y m d n : ℕ) → m < 12 → 1 ≤ d → date y (m + 1) (d + n) ≡ date y (m + 1) d + n
march_plus y m d n hm h = omega (arith, date-in_year y m (d + n) hm, date-in_year y m d hm)

-- The day that lies a number of days after 22 March, in March or April.
march_22 : (y n : ℕ) → n ≤ 39 → date y ((n + 114) / 31) ((n + 114) % 31 + 1) ≡ date y 3 22 + n
march_22 y n h = elim (dec_lt n 10) [
  | yes p ↦
      let month : (n + 114) / 31 ≡ 3 = omega arith in
      let day : (n + 114) % 31 + 1 ≡ 22 + n = omega arith in
      rw (month, day) (march_plus y 2 22 n (omega arith) (omega arith))
  | no p ↦
      let month : (n + 114) / 31 ≡ 4 = omega arith in
      let day : (n + 114) % 31 + 1 ≡ 1 + (n - 10) = omega arith in
      rw (month, day)
        (omega
          (arith, march_april y (1 + (n - 10)), march_plus y 2 1 21, march_plus y 2 1 (n - 10)))
]

easter_range : (y : ℕ) → moon y + to_sunday y - 7 * late y ≤ 34
unfolding moon to_sunday late
easter_range y = omega arith

easter-eq : (y : ℕ) → easter_sunday y ≡ date y 3 22 + (moon y + to_sunday y - 7 * late y)
unfolding easter_sunday moon to_sunday late
easter-eq y = march_22 y _ (omega arith)

-- 22 March by the days of whole years.
march_22-eq : (y : ℕ) → 1 ≤ y → date y 3 22 + 285 ≡ y * 365 + y / 4 - y / 100 + y / 400
march_22-eq y h =
    unfold days_before_year days_before_month in
    omega (arith, date-in_year y 2 22, days_before_year-next y h)

-- Counted modulo 7, `to_sunday` is the way from the day after the uncorrected moon to a Sunday.
sunday_after :
    (y n : ℕ)
    → n ≤ 29
    → n ≡ moon y
    → (y * 365 + y / 4 - y / 100 + y / 400 + n + to_sunday y + 3) % 7 ≡ 0
unfolding to_sunday
sunday_after y n h e = rw (← e) (omega arith)

-- The bounds of the three, and how they hang together.
computus_bounds : (y : ℕ) → (moon y ≤ 29) × (to_sunday y ≤ 6) × (7 * late y ≤ moon y + to_sunday y)
unfolding moon to_sunday late
computus_bounds y = (omega arith, omega arith, omega arith)

-- Easter is a Sunday, from 22 March to 25 April, in every year from 1 on.
pub easter_sunday_bounds :
    (y : ℕ)
    → 1 ≤ y
    → (weekday (easter_sunday y) ≡ sunday)
      × (date y 3 22 ≤ easter_sunday y)
      × (easter_sunday y ≤ date y 4 25)
unfolding weekday
easter_sunday_bounds y h = (
  omega (
    arith,
    easter-eq y,
    march_22-eq y h,
    computus_bounds y,
    sunday_after y (moon y) (computus_bounds y).0 refl,
  ),
  omega (arith, easter-eq y),
  omega (arith, easter-eq y, easter_range y, march_april y 25, march_plus y 2 22 3),
)

moon-epact : (y : ℕ) → (moon y + epact y) % 30 ≡ 23
unfolding moon epact
moon-epact y = omega arith

epact-lt : (y : ℕ) → epact y < 30
unfolding epact
epact-lt y = omega arith

-- The days that the correction of the epact takes off.
correction : ℕ → ℕ
correction y = if (moon y == 29) || ((moon y == 28) && ltb 10 (y % 19)) then 1 else 0

full_moon-eq : (y : ℕ) → full_moon_in_march y + correction y ≡ 21 + moon y
unfolding full_moon_in_march corrected_epact correction
full_moon-eq y = ground (arith, moon-epact y, epact-lt y, (computus_bounds y).0)

late-correction :
    (y : ℕ)
    → (7 * late y ≤ to_sunday y + correction y) × (to_sunday y + correction y ≤ 7 * late y + 6)
unfolding late correction
late-correction y = ground (arith, computus_bounds y)

full_moon_bounds : (y : ℕ) → 21 ≤ full_moon_in_march y
unfolding full_moon_in_march corrected_epact
full_moon_bounds y = ground (arith, epact-lt y)

full_moon_date : (y : ℕ) → date y 3 (full_moon_in_march y) + 1 ≡ date y 3 1 + full_moon_in_march y
full_moon_date y =
    omega (arith, full_moon_bounds y, date-in_year y 2 (full_moon_in_march y), date-in_year y 2 1)

-- Easter is the Sunday after the paschal full moon: past it, and within a week of it.
pub easter_sunday-full_moon :
    (y : ℕ)
    → 1 ≤ y
    → (weekday (easter_sunday y) ≡ sunday)
      × (paschal_full_moon y < easter_sunday y)
      × (easter_sunday y ≤ paschal_full_moon y + 7)
unfolding paschal_full_moon
easter_sunday-full_moon y h = (
  (easter_sunday_bounds y h).0,
  omega (
    arith,
    easter-eq y,
    full_moon-eq y,
    late-correction y,
    computus_bounds y,
    march_plus y 2 1 21,
    full_moon_date y,
  ),
  omega (
    arith,
    easter-eq y,
    full_moon-eq y,
    late-correction y,
    computus_bounds y,
    march_plus y 2 1 21,
    full_moon_date y,
  ),
)
