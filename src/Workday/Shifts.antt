-- ===== src/Workday/Shifts.antt =====
-- How days become shifts: what `shifts_of` adds up to, and where it draws the line between shifts.
use mathlib.Core.List.{foldl}
use go_time_recording.Base.{
  ◌+◌, ◌≤◌, ◌<◌, ◌≡◌, ◌≢◌, ◌∙◌, ap, refl, arith, Bool, false, ◌&&◌, List, [], ◌∷◌, All, Bool-cases,
  inl, inr, ◌==◌,
}
use go_time_recording.Base.Int.{ℤ, pos, ◌+ℤ◌, int_laws}
use go_time_recording.Base.Sort.{insert_by, sort_by, IsSorted, sort_by-IsSorted}
use go_time_recording.Base.Distinct.{IsDistinct, sort_by-IsDistinct}
use go_time_recording.Calendar.{Day}
use go_time_recording.Workday.{
  WorkDay, Shift, worked_minutes, minutes_per_day, shift_of, continues, eq_ℤ, extend, join_day,
  day_of, shifts_of,
}

abbrev pub total {ℓ} : {A : Type ℓ} → (A → ℤ) → List A → ℤ
total f [] = pos 0
total f (x ∷ xs) = f x +ℤ total f xs

module _ (f : WorkDay → ℤ) where
  insert_by-total :
      (d : WorkDay) (ds : List WorkDay) → total f (insert_by day_of d ds) ≡ f d +ℤ total f ds
  insert_by-total d [] = refl
  insert_by-total d (e ∷ ds) = grind (int_laws, insert_by-total d ds)

  sort_by-total : (ds : List WorkDay) → total f (sort_by day_of ds) ≡ total f ds
  sort_by-total [] = refl
  sort_by-total (d ∷ ds) =
      insert_by-total d (sort_by day_of ds) ∙ ap (λ t. f d +ℤ t) (sort_by-total ds)

  module _ (g : Shift → ℤ) (starts : (d : WorkDay) → g (shift_of d) ≡ f d)
      (goes_on : (s : Shift) (d : WorkDay) → g (extend s d) ≡ g s +ℤ f d) where
    join_day-total :
        (shifts : List Shift) (d : WorkDay) → total g (join_day shifts d) ≡ total g shifts +ℤ f d
    unfolding join_day
    join_day-total [] d = rw (starts d) (omega int_laws)
    join_day-total (last ∷ []) d = elim (Bool-cases (continues last d)) [
      | inl on ↦ rw (on, goes_on last d) (omega int_laws)
      | inr new ↦ rw (new, starts d) (omega int_laws)
    ]
    join_day-total (s ∷ t ∷ rest) d = rw (join_day-total (t ∷ rest) d) (omega int_laws)

    foldl-total :
        (ds : List WorkDay) (shifts : List Shift)
        → total g (foldl join_day shifts ds) ≡ total g shifts +ℤ total f ds
    foldl-total [] shifts = omega int_laws
    foldl-total (d ∷ ds) shifts =
        foldl-total ds (join_day shifts d) ∙ rw (join_day-total shifts d) (omega int_laws)

    shifts_of-total : (ds : List WorkDay) → total g (shifts_of ds) ≡ total f ds
    unfolding shifts_of
    shifts_of-total ds = foldl-total (sort_by day_of ds) [] ∙ rw (sort_by-total ds) (omega int_laws)

-- Joining days into shifts neither loses nor adds a minute of work or of break.
pub shifts_of-minutes :
    (days : List WorkDay)
    → (total Shift.worked (shifts_of days) ≡ total worked_minutes days)
      × (total Shift.breaks (shifts_of days) ≡ total WorkDay.break_minutes days)
unfolding shift_of extend
shifts_of-minutes days = (
  shifts_of-total worked_minutes Shift.worked (λ d. refl) (λ s d. refl) days,
  shifts_of-total WorkDay.break_minutes Shift.breaks (λ d. refl) (λ s d. refl) days,
)

-- One shift ends at the midnight at which the other begins.
abbrev pub meets : Shift → Shift → Bool
meets s t =
    eq_ℤ s.end_minute (pos minutes_per_day)
    && (eq_ℤ t.start_minute (pos 0) && t.start_day == s.end_day + 1)

abbrev ApartFrom : Shift → List Shift → Type 0
ApartFrom s [] = Unit
ApartFrom s (t ∷ rest) = meets s t ≡ false

-- No shift meets the next.
abbrev pub IsApart : List Shift → Type 0
IsApart [] = Unit
IsApart (s ∷ rest) = ApartFrom s rest × IsApart rest

join_day-ApartFrom :
    (s t : Shift) (rest : List Shift) (d : WorkDay)
    → meets s t ≡ false
    → ApartFrom s (join_day (t ∷ rest) d)
unfolding join_day extend
join_day-ApartFrom s t [] d h = ground (arith, h)
join_day-ApartFrom s t (u ∷ rest) d h = h

join_day-IsApart :
    (shifts : List Shift) (d : WorkDay) → IsApart shifts → IsApart (join_day shifts d)
unfolding join_day continues shift_of
join_day-IsApart [] d h = (tt, tt)
join_day-IsApart (last ∷ []) d h = ground arith
join_day-IsApart (s ∷ t ∷ rest) d h =
    (join_day-ApartFrom s t rest d h.0, join_day-IsApart (t ∷ rest) d h.1)

foldl-IsApart :
    (ds : List WorkDay) (shifts : List Shift) → IsApart shifts → IsApart (foldl join_day shifts ds)
foldl-IsApart [] shifts h = h
foldl-IsApart (d ∷ ds) shifts h = foldl-IsApart ds (join_day shifts d) (join_day-IsApart shifts d h)

-- A night of work is one shift: no shift ends at the midnight at which the next one begins.
pub shifts_of-IsApart : (days : List WorkDay) → IsApart (shifts_of days)
unfolding shifts_of
shifts_of-IsApart days = foldl-IsApart (sort_by day_of days) [] tt

abbrev EndBefore : Day → List Shift → Type 0
EndBefore n shifts = All (λ s. s.end_day < n) shifts

abbrev StartsAfter : Shift → List Shift → Type 0
StartsAfter s [] = Unit
StartsAfter s (t ∷ rest) = s.end_day < t.start_day

-- Each shift ends on its first day or later, and before the next one's first day.
abbrev pub IsOrdered : List Shift → Type 0
IsOrdered [] = Unit
IsOrdered (s ∷ rest) = (s.start_day ≤ s.end_day) × StartsAfter s rest × IsOrdered rest

join_day-EndBefore :
    (n : Day) (shifts : List Shift) (d : WorkDay)
    → EndBefore n shifts
    → d.day < n
    → EndBefore n (join_day shifts d)
unfolding join_day extend shift_of
join_day-EndBefore n [] d h lt = (lt, tt)
join_day-EndBefore n (last ∷ []) d h lt = ground arith
join_day-EndBefore n (s ∷ t ∷ rest) d h lt = (h.0, join_day-EndBefore n (t ∷ rest) d h.1 lt)

join_day-StartsAfter :
    (s t : Shift) (rest : List Shift) (d : WorkDay)
    → s.end_day < t.start_day
    → StartsAfter s (join_day (t ∷ rest) d)
unfolding join_day extend
join_day-StartsAfter s t [] d h = ground (arith, h)
join_day-StartsAfter s t (u ∷ rest) d h = h

join_day-IsOrdered :
    (shifts : List Shift) (d : WorkDay)
    → IsOrdered shifts
    → EndBefore d.day shifts
    → IsOrdered (join_day shifts d)
unfolding join_day extend shift_of
join_day-IsOrdered [] d o h = (omega arith, tt, tt)
join_day-IsOrdered (last ∷ []) d o h = ground arith
join_day-IsOrdered (s ∷ t ∷ rest) d o h =
    (o.0, join_day-StartsAfter s t rest d o.1, join_day-IsOrdered (t ∷ rest) d o.2 h.1)

-- Days in strictly rising order.
abbrev Rises : List WorkDay → Type 0
Rises [] = Unit
Rises (d ∷ ds) = All (λ e. d.day < e.day) ds × Rises ds

All-lt :
    (d : WorkDay) (ds : List WorkDay)
    → All (λ e. d.day ≤ e.day) ds
    → All (λ e. d.day ≢ e.day) ds
    → All (λ e. d.day < e.day) ds
All-lt d [] h k = tt
All-lt d (e ∷ ds) h k = (omega arith, All-lt d ds h.1 k.1)

Rises-of : (ds : List WorkDay) → IsSorted day_of ds → IsDistinct day_of ds → Rises ds
Rises-of [] s k = tt
Rises-of (d ∷ ds) s k = (All-lt d ds s.0 k.0, Rises-of ds s.1 k.1)

All-EndBefore :
    (shifts : List Shift) (d : WorkDay) (ds : List WorkDay)
    → All (λ e. EndBefore e.day shifts) ds
    → All (λ e. d.day < e.day) ds
    → All (λ e. EndBefore e.day (join_day shifts d)) ds
All-EndBefore shifts d [] h k = tt
All-EndBefore shifts d (e ∷ ds) h k =
    (join_day-EndBefore e.day shifts d h.0 k.0, All-EndBefore shifts d ds h.1 k.1)

foldl-IsOrdered :
    (ds : List WorkDay) (shifts : List Shift)
    → Rises ds
    → All (λ e. EndBefore e.day shifts) ds
    → IsOrdered shifts
    → IsOrdered (foldl join_day shifts ds)
foldl-IsOrdered [] shifts r h o = o
foldl-IsOrdered (d ∷ ds) shifts r h o =
    foldl-IsOrdered ds (join_day shifts d) r.1 (All-EndBefore shifts d ds h.1 r.0)
      (join_day-IsOrdered shifts d o h.0)

nothing-EndBefore : (ds : List WorkDay) → All (λ e. EndBefore e.day []) ds
nothing-EndBefore [] = tt
nothing-EndBefore (d ∷ ds) = (tt, nothing-EndBefore ds)

-- Of days that are recorded once each the shifts come in calendar order, and do not overlap.
pub shifts_of-IsOrdered :
    (days : List WorkDay) → IsDistinct day_of days → IsOrdered (shifts_of days)
unfolding shifts_of
shifts_of-IsOrdered days k =
    let sorted = sort_by day_of days in
    foldl-IsOrdered sorted []
      (Rises-of sorted (sort_by-IsSorted day_of days) (sort_by-IsDistinct day_of days k))
      (nothing-EndBefore sorted) tt
