-- ===== src/Absence.antt =====
-- Days away: internal/domain/model/absence_model.go, and the in-memory repository of
-- internal/infrastructure/persistence/memory/absence.go, a list of absences. A day is midnight UTC, so
-- it is its number, and its calendar day is itself.
pub mod Tests
pub mod Service
pub mod Laws
use go_time_recording.Base.{
  ℕ, Bool, true, false, not, ◌&&◌, List, [], ◌∷◌, String, ltb, ◌==◌, str_eq, if◌then◌else◌, keep,
}
use go_time_recording.Base.Keyed.{put, take_out}
use go_time_recording.Base.Sort.{sort_by}
use go_time_recording.Calendar.{Day}
use go_time_recording.Float.{Float64}
use go_time_recording.Text.{contains}

pub record Absence : Type 0 where
  pub user_id : ℕ
  pub day : Day
  pub kind : String

abbrev pub absence_vacation : String
absence_vacation = "vacation"

abbrev pub absence_half_vacation : String
absence_half_vacation = "halfVacation"

abbrev pub absence_sick : String
absence_sick = "sick"

abbrev pub absence_flex_day : String
absence_flex_day = "flexDay"

abbrev pub absence_local_holiday : String
absence_local_holiday = "localHoliday"

abbrev pub absence_undisclosed : String
absence_undisclosed = "away"

abbrev pub absence_kinds : List String
absence_kinds =
    absence_vacation ∷ absence_half_vacation ∷ absence_sick ∷ absence_flex_day
    ∷ absence_local_holiday ∷ []

unfoldable pub valid_absence_kind : String → Bool
valid_absence_kind kind = contains absence_kinds kind

abbrev pub user_of : Absence → ℕ
user_of a = a.user_id

abbrev pub day_of : Absence → Day
day_of a = a.day

unfoldable pub between : ℕ → Day → Day → List Absence → List Absence
between user from to absences =
    sort_by day_of
      (keep (λ a. a.user_id == user && (not (ltb a.day from) && not (ltb to a.day))) absences)

-- The loop of `Save`, one absence after the other.
unfoldable pub save : List Absence → List Absence → List Absence
save [] absences = absences
save (a ∷ rest) absences = save rest (put user_of day_of a absences)

unfoldable pub delete : ℕ → Day → List Absence → Bool × List Absence
delete user day absences = take_out user_of day_of user day absences

module _ (F : Float64) where
  open F use {Number, zero_hours, half}

  -- What a day planned at some hours asks with the absence on it.
  unfoldable pub target : Absence → Number → Number
  target a planned =
      if str_eq a.kind absence_half_vacation
      then half planned
      else if str_eq a.kind absence_flex_day
      then planned
      else zero_hours
