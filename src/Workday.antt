-- ===== src/Workday.antt =====
-- Recorded days and what the Working Hours Act says of them: internal/domain/model/workday_model.go.
-- Minutes are Go's `int`, so they may be negative here; the service refuses such days
-- (`Workday.Record`). A day is a number of days, as in `Calendar`.
pub mod Shifts
pub mod Notices
pub mod Record
mod Tests
use mathlib.Core.List.{foldl}
use go_time_recording.Base.{
  ℕ, ◌+◌, ◌-◌, ◌*◌, Bool, true, false, ◌&&◌, Option, none, some, List, [], ◌∷◌, ◌++◌, ltb, ◌==◌,
  if◌then◌else◌,
}
use go_time_recording.Base.Int.{ℤ, pos, ◌+ℤ◌, ◌-ℤ◌, ltb_ℤ, leb_ℤ}
use go_time_recording.Base.Sort.{sort_by}
use go_time_recording.Calendar.{Day}

abbrev pub minutes_per_day : ℕ
minutes_per_day = 1440

pub record WorkDay : Type 0 where
  pub user_id : ℕ
  pub day : Day
  pub start_minute : ℤ
  pub end_minute : ℤ
  pub break_minutes : ℤ

unfoldable pub worked_minutes : WorkDay → ℤ
worked_minutes w = w.end_minute -ℤ w.start_minute -ℤ w.break_minutes

pub data NoticeRule : Type 0 where
  long_day short_break short_rest : NoticeRule

pub record WorkingTimeNotice : Type 0 where
  pub rule : NoticeRule
  pub minutes : ℤ

abbrev pub longest_shift_minutes : ℤ
longest_shift_minutes = pos 600

abbrev pub shortest_rest_minutes : ℤ
shortest_rest_minutes = pos 660

pub record Shift : Type 0 where
  pub start_day : Day
  pub end_day : Day
  pub start_minute : ℤ
  pub end_minute : ℤ
  pub worked : ℤ
  pub breaks : ℤ

unfoldable pub break_needed : ℤ → ℤ
break_needed worked =
    if ltb_ℤ (pos 540) worked then pos 45 else if ltb_ℤ (pos 360) worked then pos 30 else pos 0

unfoldable pub shift_of : WorkDay → Shift
unfolding worked_minutes
shift_of d = record {
  start_day = d.day;
  end_day = d.day;
  start_minute = d.start_minute;
  end_minute = d.end_minute;
  worked = worked_minutes d;
  breaks = d.break_minutes;
}

abbrev pub eq_ℤ : ℤ → ℤ → Bool
eq_ℤ a b = leb_ℤ a b && leb_ℤ b a

-- A day that begins at the midnight at which the shift ended.
unfoldable pub continues : Shift → WorkDay → Bool
continues last d =
    eq_ℤ last.end_minute (pos minutes_per_day)
    && (eq_ℤ d.start_minute (pos 0) && d.day == last.end_day + 1)

unfoldable pub extend : Shift → WorkDay → Shift
unfolding worked_minutes
extend last d = record last {
  end_day = d.day;
  end_minute = d.end_minute;
  worked = last.worked +ℤ worked_minutes d;
  breaks = last.breaks +ℤ d.break_minutes;
}

-- The body of the loop of `shiftsOf`: the last shift goes on, or a new one is appended.
unfoldable pub join_day : List Shift → WorkDay → List Shift
unfolding shift_of continues extend
join_day [] d = shift_of d ∷ []
join_day (last ∷ []) d = if continues last d then extend last d ∷ [] else last ∷ shift_of d ∷ []
join_day (s ∷ t ∷ rest) d = s ∷ join_day (t ∷ rest) d

abbrev pub day_of : WorkDay → ℕ
day_of d = d.day

unfoldable pub shifts_of : List WorkDay → List Shift
unfolding join_day
shifts_of days = foldl join_day [] (sort_by day_of days)

-- `a.Sub(b)` in whole days, a not before b. A `time.Duration` ends at 106751 days and some hours.
unfoldable pub days_since : Day → Day → ℕ
days_since a b = if ltb 106751 (a - b) then 106751 else a - b

unfoldable pub rest_between : Shift → Shift → ℤ
unfolding days_since
rest_between before current =
    pos (days_since current.start_day before.end_day * minutes_per_day)
    +ℤ current.start_minute
    -ℤ before.end_minute

abbrev pub say : Bool → NoticeRule → ℤ → List WorkingTimeNotice → List WorkingTimeNotice
say true rule minutes said = said ++ record { rule = rule; minutes = minutes } ∷ []
say false rule minutes said = said

abbrev pub say_rest : Option Shift → Shift → List WorkingTimeNotice → List WorkingTimeNotice
say_rest none current said = said
say_rest (some before) current said =
    let rest = rest_between before current in
    say (ltb_ℤ rest shortest_rest_minutes) short_rest rest said

-- What the loop says of one shift, after the one before it.
unfoldable pub notices_of : Option Shift → Shift → List WorkingTimeNotice
unfolding break_needed rest_between
notices_of before current =
    let long = say (ltb_ℤ longest_shift_minutes current.worked) long_day current.worked [] in
    let needed = break_needed current.worked in
    say_rest before current (say (ltb_ℤ current.breaks needed) short_break needed long)

-- The map of the notices; a day that is not written reads as no notices.
abbrev pub NoticeMap : Type 0
NoticeMap = Day → List WorkingTimeNotice

abbrev pub put_said : Day → List WorkingTimeNotice → NoticeMap → NoticeMap
put_said day [] notices d = notices d
put_said day (n ∷ ns) notices d = if d == day then n ∷ ns else notices d

unfoldable pub notice_loop : Option Shift → List Shift → NoticeMap → NoticeMap
unfolding notices_of
notice_loop before [] notices = notices
notice_loop before (current ∷ rest) notices =
    notice_loop (some current) rest (put_said current.start_day (notices_of before current) notices)

unfoldable pub working_time_notices : List WorkDay → NoticeMap
unfolding shifts_of notice_loop
working_time_notices days = notice_loop none (shifts_of days) (λ d. [])
