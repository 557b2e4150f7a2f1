-- ===== src/Calendar.antt =====
-- Calendar days and moments: internal/domain/model/date.go, and what the code uses of Go's `time`.
--
-- A stored day is midnight UTC, so it is a number of days, counted from 0001-01-01, which is Go's
-- zero time and a Monday. Years are those from 1 on. A `time.Time` is a moment in seconds from
-- the same midnight with the offset of its location; the code truncates what it stores to seconds.
pub mod Years
pub mod Range
pub mod Rising
mod Tests
use go_time_recording.Base.{
  ℕ, ◌+◌, ◌-◌, ◌*◌, ◌/◌, ◌%◌, Bool, true, false, not, ◌&&◌, ◌||◌, ltb, leb, ◌==◌, if◌then◌else◌,
}
use go_time_recording.Base.Int.{ℤ, pos, pos_part, ◌+ℤ◌}

abbrev pub Day : Type 0
Day = ℕ

unfoldable pub is_leap : ℕ → Bool
is_leap y = (y % 4 == 0) && (not (y % 100 == 0) || y % 400 == 0)

-- The days from 0001-01-01 to the first of January of a year.
unfoldable pub days_before_year : ℕ → ℕ
days_before_year y = (y - 1) * 365 + (y - 1) / 4 - (y - 1) / 100 + (y - 1) / 400

-- The days of a common year before its month `m`, from 0 for January to 11 for December.
unfoldable pub days_before_month : ℕ → ℕ
days_before_month m =
    if m == 0
    then 0
    else if m == 1
    then 31
    else if m == 2
    then 59
    else if m == 3
    then 90
    else if m == 4
    then 120
    else if m == 5
    then 151
    else if m == 6
    then 181
    else if m == 7
    then 212
    else if m == 8
    then 243
    else if m == 9
    then 273
    else if m == 10
    then 304
    else 334

-- The leap day, where it lies before month `m` of a year.
unfoldable pub leap_days : ℕ → ℕ → ℕ
unfolding is_leap
leap_days y m = if is_leap y && ltb 1 m then 1 else 0

-- `time.Date(y, m, d, 0, 0, 0, 0, time.UTC)`: a month past December is one of the next year, and
-- day 0 is the last of the month before.
unfoldable pub date : ℕ → ℕ → ℕ → Day
date y m d =
    let y' = y + (m - 1) / 12 in
    let m' = (m - 1) % 12 in days_before_year y' + (days_before_month m' + leap_days y' m' + d) - 1

-- All that a date computes with.
unfoldable pub date_code : Unit {0}
unfolding date days_before_year days_before_month leap_days
date_code = tt

-- `t.Year()`: through cycles of 400, 100 and 4 years, as the `time` package reads a day.
unfoldable pub year : Day → ℕ
year n =
    let in400 = n % 146097 in
    let n100 = in400 / 36524 - in400 / 36524 / 4 in
    let in100 = in400 - n100 * 36524 in
    let in4 = in100 % 1461 in
    let n1 = in4 / 365 - in4 / 365 / 4 in n / 146097 * 400 + n100 * 100 + in100 / 1461 * 4 + n1 + 1

-- `t.Weekday()`: Sunday is 0.
unfoldable pub weekday : Day → ℕ
weekday n = (n + 1) % 7

abbrev pub sunday : ℕ
sunday = 0

abbrev pub monday : ℕ
monday = 1

abbrev pub tuesday : ℕ
tuesday = 2

abbrev pub wednesday : ℕ
wednesday = 3

abbrev pub thursday : ℕ
thursday = 4

abbrev pub friday : ℕ
friday = 5

abbrev pub saturday : ℕ
saturday = 6

pub record Moment : Type 0 where
  pub seconds : ℕ
  -- How far the clock of its location is ahead of UTC.
  pub offset : ℤ

abbrev pub seconds_per_day : ℕ
seconds_per_day = 86400

-- Midnight UTC of a day.
abbrev pub midnight : Day → Moment
midnight n = record { seconds = n * seconds_per_day; offset = pos 0 }

-- The seconds on the clock of the moment's own location.
unfoldable pub local_seconds : Moment → ℕ
local_seconds t = pos_part (pos t.seconds +ℤ t.offset)

unfoldable pub calendar_day : Moment → Day
unfolding local_seconds
calendar_day t = local_seconds t / seconds_per_day

-- 1 January 1900 and 1 January 10000, as days.
abbrev pub first_calendar_day : Day
first_calendar_day = 693595

abbrev pub after_last_calendar_day : Day
after_last_calendar_day = 3652059

unfoldable pub on_the_calendar : Moment → Bool
on_the_calendar t =
    not (ltb t.seconds (first_calendar_day * seconds_per_day))
    && ltb t.seconds (after_last_calendar_day * seconds_per_day)
