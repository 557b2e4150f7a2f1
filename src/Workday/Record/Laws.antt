-- ===== src/Workday/Record/Laws.antt =====
-- The store of recorded days: one record for each person and day, each with times that can be.
use go_time_recording.Base.{
  ℕ, ◌≡◌, ◌≢◌, ◌↔◌, ◌⊎◌, refl, arith, Bool, true, false, not, ◌&&◌, Option, none, some, List, [],
  ◌∷◌, All, keep, Bool-cases, inl, inr, ◌==◌, if◌then◌else◌,
}
use go_time_recording.Base.Int.{pos, ◌≤ℤ◌, ◌<ℤ◌, int_laws}
use go_time_recording.Base.Distinct.{IsDistinct, sort_by-IsDistinct}
use go_time_recording.Calendar.{Day, Moment, calendar_day, on_the_calendar}
use go_time_recording.Errors.{Error, ok, err}
use go_time_recording.Workday.{WorkDay, day_of, minutes_per_day, worked_minutes}
use go_time_recording.Workday.Record.{
  is_day, in_range, between, save, delete, check_times, record_day, remove_day,
}

-- A day begins before it ends, inside the day, and its breaks are shorter than the time between.
pub record HasTimes (w : WorkDay) : Type 0 where
  pub begins : pos 0 ≤ℤ w.start_minute
  pub ends_later : w.start_minute <ℤ w.end_minute
  pub ends : w.end_minute ≤ℤ pos minutes_per_day
  pub pauses : pos 0 ≤ℤ w.break_minutes
  pub works : pos 0 <ℤ worked_minutes w

abbrev OtherKey : WorkDay → WorkDay → Type 0
OtherKey w v = is_day w.user_id w.day v ≡ false

-- One record for each person and day, and every record with times that can be.
abbrev pub IsValid : List WorkDay → Type 0
IsValid [] = Unit
IsValid (w ∷ days) = HasTimes w × All (OtherKey w) days × IsValid days

-- The record of a person and a day.
abbrev pub find_day : ℕ → Day → List WorkDay → Option WorkDay
find_day user day [] = none
find_day user day (w ∷ days) = if is_day user day w then some w else find_day user day days

abbrev is_none : Option WorkDay → Bool
is_none none = true
is_none (some w) = false

check_times-HasTimes : (w : WorkDay) → (check_times w ≡ ok tt) ↔ HasTimes w
unfolding check_times worked_minutes
check_times-HasTimes w = (λ h. grind int_laws, λ h. grind int_laws)

save-OtherKey :
    (v w : WorkDay) (days : List WorkDay)
    → OtherKey v w
    → All (OtherKey v) days
    → All (OtherKey v) (save w days)
unfolding save
save-OtherKey v w [] h k = (h, tt)
save-OtherKey v w (x ∷ days) h k = ground (arith, save-OtherKey v w days h k.1)

OtherKey-same :
    (w x : WorkDay) (days : List WorkDay)
    → is_day w.user_id w.day x ≡ true
    → All (OtherKey x) days
    → All (OtherKey w) days
OtherKey-same w x [] e h = tt
OtherKey-same w x (y ∷ days) e h = (ground arith, OtherKey-same w x days e h.1)

save-IsValid :
    (w : WorkDay) (days : List WorkDay) → HasTimes w → IsValid days → IsValid (save w days)
unfolding save
save-IsValid w [] t v = (t, tt, tt)
save-IsValid w (x ∷ days) t v = elim (Bool-cases (is_day w.user_id w.day x)) [
  | inl same ↦ rw same (t, OtherKey-same w x days same v.1, v.2)
  | inr other ↦ rw other (v.0, save-OtherKey x w days (ground arith) v.1, save-IsValid w days t v.2)
]

find_day-save :
    (user : ℕ) (day : Day) (w : WorkDay) (days : List WorkDay)
    → find_day user day (save w days)
      ≡ (if is_day user day w then some w else find_day user day days)
unfolding save
find_day-save user day w [] = refl
find_day-save user day w (x ∷ days) = ground (arith, find_day-save user day w days)

HasTimes-day : (w : WorkDay) (day : Day) → HasTimes w → HasTimes (record w { day = day })
unfolding worked_minutes
HasTimes-day w day t = record {
  begins = t.begins;
  ends_later = t.ends_later;
  ends = t.ends;
  pauses = t.pauses;
  works = t.works;
}

abbrev kept : Moment → WorkDay → WorkDay
kept date w = record w { day = calendar_day date }

record_day-accepts :
    (date : Moment) (w : WorkDay) (days : List WorkDay)
    → date.seconds ≢ 0
    → on_the_calendar date ≡ true
    → check_times w ≡ ok tt
    → record_day date w days ≡ ok (save (kept date w) days)
unfolding record_day
record_day-accepts date w days n c t = rw (c, t) (ground arith)

record_day-eq-ok :
    (date : Moment) (w : WorkDay) (days : List WorkDay) {after : List WorkDay}
    → record_day date w days ≡ ok after
    → (date.seconds ≢ 0)
      × (on_the_calendar date ≡ true)
      × (check_times w ≡ ok tt)
      × (save (kept date w) days ≡ after)
unfolding record_day
record_day-eq-ok date w days e = (ground arith, ground arith, ground arith, ground arith)

-- `Record` takes exactly a date on the calendar, past the zero time, with times that can be.
pub record_day_accepts :
    (date : Moment) (w : WorkDay) (days : List WorkDay)
    → ((after : List WorkDay) × (record_day date w days ≡ ok after))
      ↔ ((date.seconds ≢ 0) × (on_the_calendar date ≡ true) × HasTimes w)
record_day_accepts date w days = (
  λ (after, e).
      let h = record_day-eq-ok date w days e in (h.0, h.1, (check_times-HasTimes w).0 h.2),
  λ h. (
    save (kept date w) days,
    record_day-accepts date w days h.0 h.1 ((check_times-HasTimes w).1 h.2),
  ),
)

-- A day is recorded exactly if its date is given and on the calendar, it begins and ends within the
-- day, in that order, and its breaks leave some work.
pub record_day-HasTimes :
    (date : Moment) (w : WorkDay) (days : List WorkDay)
    → ((after : List WorkDay) × (record_day date w days ≡ ok after))
      ↔ ((date.seconds ≢ 0) × (on_the_calendar date ≡ true) × HasTimes w)
record_day-HasTimes date w days = (
  λ (after, e).
      let (given, shown, timed, saved) = record_day-eq-ok date w days e in
      (given, shown, (check_times-HasTimes w).0 timed),
  λ (given, shown, times). (
    save (kept date w) days,
    record_day-accepts date w days given shown ((check_times-HasTimes w).1 times),
  ),
)

-- Recording a day keeps the store valid. The record then reads back under its person and its
-- calendar day, and under every other person or day the store reads as before.
pub record_day-find_day :
    (date : Moment) (w : WorkDay) (days : List WorkDay) {after : List WorkDay} (user : ℕ)
    (day : Day)
    → IsValid days
    → record_day date w days ≡ ok after
    → IsValid after
      × (find_day user day after ≡ (
          if w.user_id == user && calendar_day date == day
          then some (record w { day = calendar_day date })
          else find_day user day days))
record_day-find_day date w days user day v e =
    let h = record_day-eq-ok date w days e in
    let times = HasTimes-day w (calendar_day date) ((check_times-HasTimes w).0 h.2) in
    rw (← h.3) (save-IsValid (kept date w) days times v, find_day-save user day (kept date w) days)

find_day-none :
    (user : ℕ) (day : Day) (x : WorkDay) (days : List WorkDay)
    → is_day user day x ≡ true
    → All (OtherKey x) days
    → find_day user day days ≡ none
find_day-none user day x [] e h = refl
find_day-none user day x (y ∷ days) e h = ground (arith, find_day-none user day x days e h.1)

find_day-delete :
    (user : ℕ) (day : Day) (u : ℕ) (d : Day) (days : List WorkDay)
    → IsValid days
    → (find_day u d (delete user day days).1
        ≡ (if user == u && day == d then none else find_day u d days))
      × ((delete user day days).0 ≡ not (is_none (find_day user day days)))
unfolding delete
find_day-delete user day u d [] v = ground arith
find_day-delete user day u d (x ∷ days) v =
    let rest = find_day-delete user day u d days v.2 in
    (ground (arith, rest, find_day-none u d x days), ground (arith, rest))

delete-OtherKey :
    (x : WorkDay) (user : ℕ) (day : Day) (days : List WorkDay)
    → All (OtherKey x) days
    → All (OtherKey x) (delete user day days).1
unfolding delete
delete-OtherKey x user day [] h = tt
delete-OtherKey x user day (y ∷ days) h = ground (arith, delete-OtherKey x user day days h.1)

delete-IsValid :
    (user : ℕ) (day : Day) (days : List WorkDay) → IsValid days → IsValid (delete user day days).1
unfolding delete
delete-IsValid user day [] v = tt
delete-IsValid user day (x ∷ days) v = elim (Bool-cases (is_day user day x)) [
  | inl found ↦ rw found v.2
  | inr other ↦
      rw other (v.0, delete-OtherKey x user day days v.1, delete-IsValid user day days v.2)
]

-- Taking a day back keeps the store valid and removes that person's record of that day alone; it is
-- refused exactly where there is none.
pub remove_day-find_day :
    (user : ℕ) (date : Moment) (days : List WorkDay) (u : ℕ) (d : Day)
    → IsValid days
    → ((remove_day user date days ≡ err (Error.not_found "workday" (calendar_day date)))
        × (find_day user (calendar_day date) days ≡ none))
      ⊎ ((after : List WorkDay) × (remove_day user date days ≡ ok after)
          × IsValid after
          × (find_day user (calendar_day date) days ≢ none)
          × (find_day u d after
              ≡ (if user == u && calendar_day date == d then none else find_day u d days)))
unfolding remove_day
remove_day-find_day user date days u d v =
    let day = calendar_day date in
    let laws = find_day-delete user day u d days v in
    elim (Bool-cases (delete user day days).0) [
      | inl found ↦ inr (
        (delete user day days).1,
        rw found,
        delete-IsValid user day days v,
        ground (arith, laws),
        laws.0,
      )
      | inr missing ↦ inl (rw missing, ground (arith, laws))
    ]

keep-days :
    (user : ℕ) (first last : Day) (x : WorkDay) (days : List WorkDay)
    → x.user_id ≡ user
    → All (OtherKey x) days
    → All (λ y. day_of x ≢ day_of y) (keep (in_range user first last) days)
keep-days user first last x [] e h = tt
keep-days user first last x (y ∷ days) e h = ground (arith, keep-days user first last x days e h.1)

keep-IsDistinct :
    (user : ℕ) (first last : Day) (days : List WorkDay)
    → IsValid days
    → IsDistinct day_of (keep (in_range user first last) days)
keep-IsDistinct user first last [] v = tt
keep-IsDistinct user first last (x ∷ days) v =
    ground (arith, keep-IsDistinct user first last days v.2, keep-days user first last x days)

-- A person's days of a range are distinct days.
pub between-IsDistinct :
    (user : ℕ) (first last : Day) (days : List WorkDay)
    → IsValid days
    → IsDistinct day_of (between user first last days)
unfolding between
between-IsDistinct user first last days v =
    sort_by-IsDistinct day_of _ (keep-IsDistinct user first last days v)
