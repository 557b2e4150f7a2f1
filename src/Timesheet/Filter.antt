-- ===== src/Timesheet/Filter.antt =====
-- `TimesheetFilter` of internal/domain/repository/timesheet_repository.go, and how the in-memory
-- repository matches and pages by it (internal/infrastructure/persistence/memory/timesheet.go).
pub mod Laws
use go_time_recording.Base.{
  ℕ, zero, suc, ◌+◌, ◌-◌, ◌*◌, ◌%◌, ◌≤◌, ◌<◌, ◌≡◌, ◌≢◌, ◌↔◌, ◌⊎◌, inl, inr, refl, arith, Bool, true,
  false, not, ◌&&◌, ◌||◌, Option, none, some, List, [], ◌∷◌, String, ltb, leb, ◌==◌, str_eq,
  if◌then◌else◌, length, take, drop, keep, count,
}
use go_time_recording.Base.Int.{ℤ, pos}
use go_time_recording.Calendar.{Day, Moment, calendar_day, midnight, seconds_per_day}
use go_time_recording.Store.{uint_mod}
use go_time_recording.Timesheet.{Timesheet, has_project}

pub record TimesheetFilter : Type 0 where
  pub user_id : ℕ
  pub project_id : ℕ
  pub start_date : Option Moment
  pub end_date : Option Moment
  pub without_project : Bool
  pub search : String
  pub limit : ℕ
  pub offset : ℕ

-- The first second of the day a range starts on, and the last second of the day it ends on.
unfoldable pub first_second : Moment → Moment
first_second t = midnight (calendar_day t)

unfoldable pub last_second : Moment → Moment
last_second t = record { seconds = (calendar_day t + 1) * seconds_per_day - 1; offset = pos 0 }

abbrev pub map_option : {A B : Type 0} → (A → B) → Option A → Option B
map_option f none = none
map_option f (some a) = some (f a)

unfoldable pub over_whole_days : TimesheetFilter → TimesheetFilter
unfolding first_second last_second
over_whole_days f = record f {
  start_date = map_option first_second f.start_date;
  end_date = map_option last_second f.end_date;
}

abbrev is_before : Moment → Option Moment → Bool
is_before t none = false
is_before t (some bound) = ltb t.seconds bound.seconds

abbrev is_after : Moment → Option Moment → Bool
is_after t none = false
is_after t (some bound) = ltb bound.seconds t.seconds

abbrev is_other : Option ℕ → ℕ → Bool
is_other none id = true
is_other (some p) id = not (p == id)

-- `found` is `strings.Contains` of the two texts in lower case.
abbrev is_missing : (String → String → Bool) → Option String → String → Bool
is_missing found none text = true
is_missing found (some description) text = not (found description text)

module _ {H : Type 0} (found : String → String → Bool) where
  unfoldable pub matches_filter : Timesheet H → TimesheetFilter → Bool
  unfolding has_project
  matches_filter ts f =
      if not (f.user_id == 0) && not (ts.user_id == f.user_id)
      then false
      else if not (f.project_id == 0)
          && (not (has_project ts) || is_other ts.project_id f.project_id)
      then false
      else if f.without_project && has_project ts
      then false
      else if is_before ts.date f.start_date
      then false
      else if is_after ts.date f.end_date
      then false
      else if not (str_eq f.search "") && is_missing found ts.description f.search
      then false
      else true

-- `none` is the panic of a slice whose end lies before its start, which an offset and a limit whose
-- sum wraps around can reach.
unfoldable pub page : {A : Type 0} → List A → ℕ → ℕ → Option (List A)
page items limit offset =
    if limit == 0
    then some items
    else if leb (length items) offset
    then some []
    else let sum = (offset + limit) % uint_mod in
      let end = if ltb sum (length items) then sum else length items in
      if ltb end offset then none else some (take (end - offset) (drop offset items))
