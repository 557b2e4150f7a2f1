-- ===== src/Workday/Notices.antt =====
-- What the Working Hours Act says of the shifts.
use mathlib.Core.Path.{subst}
use native.Mathlib.Nat.{le_refl}
use go_time_recording.Base.{
  ◌≤◌, ◌<◌, ◌≡◌, ◌≢◌, ◌↔◌, ◌⊎◌, ◌∙◌, ap, refl, arith, Option, none, some, List, [], ◌∷◌, ◌++◌, All,
  All-middle,
}
use go_time_recording.Base.Int.{pos, ◌≤ℤ◌}
use go_time_recording.Base.Distinct.{IsDistinct}
use go_time_recording.Calendar.{Day}
use go_time_recording.Workday.{
  WorkDay, Shift, WorkingTimeNotice, NoticeMap, day_of, shifts_of, rest_between, notices_of,
  notice_loop, working_time_notices, put_said, break_needed,
}
use go_time_recording.Workday.Shifts.{IsOrdered, shifts_of-IsOrdered}

-- The shift before one that stands behind `earlier`.
abbrev pub last_of : Option Shift → List Shift → Option Shift
last_of before [] = before
last_of before (s ∷ rest) = last_of (some s) rest

abbrev RestIsLong : Option Shift → Shift → Type 0
RestIsLong none s = Unit
RestIsLong (some before) s = pos 660 ≤ℤ rest_between before s

-- A shift within the act: at most ten hours, half an hour of break past six hours of work and three
-- quarters past nine, and eleven hours of rest after the shift before.
pub record IsLawful (before : Option Shift) (s : Shift) : Type 0 where
  pub not_long : s.worked ≤ℤ pos 600
  pub breaks_real : pos 0 ≤ℤ s.breaks
  pub short_or_break : (s.worked ≤ℤ pos 360) ⊎ (pos 30 ≤ℤ s.breaks)
  pub middling_or_break : (s.worked ≤ℤ pos 540) ⊎ (pos 45 ≤ℤ s.breaks)
  pub rested : RestIsLong before s

notices_of-IsLawful :
    (before : Option Shift) (s : Shift) → (notices_of before s ≡ []) ↔ IsLawful before s
unfolding notices_of break_needed
notices_of-IsLawful none s = (λ h. ground arith, λ h. ground arith)
notices_of-IsLawful (some b) s = (λ h. ground arith, λ h. ground arith)

module _ (day : Day) where
  abbrev OtherDays : List Shift → Type 0
  OtherDays shifts = All (λ t. t.start_day ≢ day) shifts

  put_said_self :
      (said : List WorkingTimeNotice) (notices : NoticeMap)
      → notices day ≡ []
      → put_said day said notices day ≡ said
  put_said_self [] notices h = h
  put_said_self (n ∷ ns) notices h = ground arith

  put_said-other :
      (other : Day) (said : List WorkingTimeNotice) (notices : NoticeMap)
      → other ≢ day
      → put_said other said notices day ≡ notices day
  put_said-other other [] notices n = refl
  put_said-other other (m ∷ ms) notices n = ground arith

  notice_loop-other :
      (before : Option Shift) (shifts : List Shift) (notices : NoticeMap)
      → OtherDays shifts
      → notice_loop before shifts notices day ≡ notices day
  unfolding notice_loop
  notice_loop-other before [] notices n = refl
  notice_loop-other before (t ∷ rest) notices n =
      notice_loop-other (some t) rest _ n.1
      ∙ put_said-other t.start_day (notices_of before t) notices n.0

notice_loop-at :
    (before : Option Shift) (pre : List Shift) (s : Shift) (post : List Shift) (notices : NoticeMap)
    → All (λ t. t.start_day ≢ s.start_day) pre
    → All (λ t. t.start_day ≢ s.start_day) post
    → notices s.start_day ≡ []
    → notice_loop before (pre ++ s ∷ post) notices s.start_day ≡ notices_of (last_of before pre) s
unfolding notice_loop
notice_loop-at before [] s post notices n m h =
    notice_loop-other s.start_day (some s) post _ m
    ∙ put_said_self s.start_day (notices_of before s) notices h
notice_loop-at before (t ∷ pre) s post notices n m h =
    notice_loop-at (some t) pre s post _ n.1 m
      (put_said-other s.start_day t.start_day (notices_of before t) notices n.0 ∙ h)

All-later :
    (n : Day) (shifts : List Shift)
    → All (λ t. n < t.start_day) shifts
    → All (λ t. t.start_day ≢ n) shifts
All-later n [] h = tt
All-later n (t ∷ rest) h = (omega arith, All-later n rest h.1)

IsOrdered-after :
    (n : Day) (s : Shift) (rest : List Shift)
    → n ≤ s.start_day
    → IsOrdered (s ∷ rest)
    → All (λ t. n < t.start_day) rest
IsOrdered-after n s [] h o = tt
IsOrdered-after n s (t ∷ rest) h o = (omega arith, IsOrdered-after n t rest (omega arith) o.2)

-- In a list in order every other shift begins on another day.
IsOrdered-others :
    (pre : List Shift) (s : Shift) (post : List Shift)
    → IsOrdered (pre ++ s ∷ post)
    → All (λ t. t.start_day ≢ s.start_day) pre × All (λ t. t.start_day ≢ s.start_day) post
IsOrdered-others [] s post o =
    (tt, All-later s.start_day post (IsOrdered-after s.start_day s post (le_refl _) o))
IsOrdered-others (t ∷ pre) s post o =
    let later =
      All-middle (λ u. t.start_day < u.start_day) pre s post
        (IsOrdered-after t.start_day t (pre ++ s ∷ post) (le_refl _) o) in
    let rest = IsOrdered-others pre s post o.2 in ((omega arith, rest.0), rest.1)

-- The notices under the day a shift began on are none exactly if that shift is within the act,
-- read beside the shift before it; the days are recorded once each.
pub working_time_notices-IsLawful :
    (days : List WorkDay) (pre : List Shift) (s : Shift) (post : List Shift)
    → IsDistinct day_of days
    → shifts_of days ≡ pre ++ s ∷ post
    → (working_time_notices days s.start_day ≡ []) ↔ IsLawful (last_of none pre) s
working_time_notices-IsLawful days pre s post k e =
    let ordered = subst IsOrdered e (shifts_of-IsOrdered days k) in
    let others = IsOrdered-others pre s post ordered in
    let said : working_time_notices days s.start_day ≡ notices_of (last_of none pre) s =
      unfold working_time_notices in
      ap (λ shifts. notice_loop none shifts (λ d. []) s.start_day) e
      ∙ notice_loop-at none pre s post (λ d. []) others.0 others.1 refl in
    rw said (notices_of-IsLawful (last_of none pre) s)
