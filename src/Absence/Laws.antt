-- ===== src/Absence/Laws.antt =====
-- The repository of absences as a finite map, and what a range of it lists.
use go_time_recording.Base.{
  ℕ, ◌≡◌, ◌∙◌, arith, Bool, true, not, ◌&&◌, Option, none, List, [], ◌∷◌, ltb, leb, ◌==◌,
  if◌then◌else◌, keep,
}
use go_time_recording.Base.Sort.{IsSorted, sort_by-IsSorted}
use go_time_recording.Base.Distinct.{IsDistinct}
use go_time_recording.Base.Keyed.{put, find, IsKeyed}
use go_time_recording.Base.Keyed.Laws.{put-IsKeyed}
use go_time_recording.Base.Keyed.Own.{where-find, where-IsDistinct}
use go_time_recording.Calendar.{Day}
use go_time_recording.Absence.{Absence, user_of, day_of, between, save}

-- The absence recorded for a person on a day.
abbrev pub absence_on : ℕ → Day → List Absence → Option Absence
absence_on user day absences = find user_of day_of user day absences

abbrev pub IsValid : List Absence → Type 0
IsValid absences = IsKeyed user_of day_of absences

abbrev in_range : ℕ → Day → Day → ℕ → Day → Bool
in_range user from to v day = v == user && (not (ltb day from) && not (ltb to day))

in_range-owner : (user from to v day : ℕ) → in_range user from to v day ≡ true → v ≡ user
in_range-owner user from to v day h = ground arith

-- A listing of a range has a person's absences of its days, both ends included, in order of the
-- days, and each day once, where the repository holds at most one absence for a person and a day.
pub between-absence_on :
    (user from to day : ℕ) (absences : List Absence)
    → IsValid absences
    → (absence_on user day (between user from to absences)
        ≡ (if leb from day && leb day to then absence_on user day absences else none))
      × IsSorted day_of (between user from to absences)
      × IsDistinct day_of (between user from to absences)
unfolding between
between-absence_on user from to day absences valid = (
  where-find user_of day_of (in_range user from to) user (in_range-owner user from to) day absences
        valid
      ∙ ground arith,
  sort_by-IsSorted day_of (keep (λ a. in_range user from to a.user_id a.day) absences),
  where-IsDistinct user_of day_of (in_range user from to) user (in_range-owner user from to)
      absences valid,
)

pub save-IsValid : (new absences : List Absence) → IsValid absences → IsValid (save new absences)
unfolding save
save-IsValid [] absences valid = valid
save-IsValid (a ∷ rest) absences valid =
    save-IsValid rest (put user_of day_of a absences) (put-IsKeyed user_of day_of a absences valid)
