-- ===== src/Booking/CopyWeek/Rounds.antt =====
-- The loop over the entries of a week that is copied, round by round.
use mathlib.Core.Path.{subst, sym}
use mathlib.Core.List.{append-nil, append_assoc}
use go_time_recording.Base.{
  ℕ, ◌+◌, ◌≡◌, ◌∙◌, ap, refl, arith, Bool, not, ◌&&◌, List, [], ◌∷◌, ◌++◌, String, ◌==◌,
  if◌then◌else◌, count, keep, map, All, All-append, Bool-cases, inl, inr,
}
use go_time_recording.Calendar.{Day, calendar_day, midnight}
use go_time_recording.Calendar.Range.{among, calendar_day-midnight}
use go_time_recording.Errors.{Result, ok, bind-ok, check-ok, ok_injective}
use go_time_recording.Float.{Float64}
use go_time_recording.Timesheet.{Timesheet}
use go_time_recording.Booking.Checks.{Booking, validate_timesheet, check_daily_budget}
use go_time_recording.Booking.Checks.Laws.{
  IsBookable, IsWithinLimit, validate_timesheet-ok, check_daily_budget-ok,
}
use go_time_recording.Booking.CopyWeek.{
  earlier, Progress, copy_one, copy_all, still_open, shift_day, copy_of, put_copy, sum_copies,
}

module _ (F : Float64) (found : String → String → Bool) (daily_cap : F.Number) (user : ℕ)
    (from to : Day) (booked : List Day) (b : Booking F.Number) where
  open F use {Number, zero_hours, add}

  -- Entries that would land on a day on which something is booked.
  abbrev pub is_taken : Timesheet Number → Bool
  is_taken t = among (shift_day from to (calendar_day t.date)) booked

  -- Entries that go over: their day is free, and their project is theirs to book on, or there is none.
  abbrev pub goes_over : Timesheet Number → Bool
  goes_over t = not (is_taken t) && still_open user t.project_id b.projects

  abbrev pub is_left_out : Timesheet Number → Bool
  is_left_out t = not (is_taken t) && not (still_open user t.project_id b.projects)

  abbrev pub copied : Timesheet Number → Timesheet Number
  copied t = copy_of user (shift_day from to (calendar_day t.date)) t

  abbrev pub copies_of : List (Timesheet Number) → List (Timesheet Number)
  copies_of source = map copied (keep goes_over source)

  abbrev pub IsBookableCopy : Timesheet Number → Type 0
  IsBookableCopy c = IsBookable F c.date c.duration_hours c.description

  -- The hours of the copies on a day.
  abbrev pub hours_on : Day → List (Timesheet Number) → Number
  hours_on day copies = sum_copies F (keep (λ c. calendar_day c.date == day) copies) zero_hours

  -- A copy stays within its owner's daily limit, with what is booked on its day and what the copies
  -- before it put there.
  abbrev pub IsWithinCap : List (Timesheet Number) → Timesheet Number → Type 0
  IsWithinCap earlier c =
      IsWithinLimit F found daily_cap user c.date
        (add c.duration_hours (hours_on (calendar_day c.date) earlier)) 0 b

  abbrev pub AllWithinCap : List (Timesheet Number) → List (Timesheet Number) → Type 0
  AllWithinCap earlier [] = Unit {0}
  AllWithinCap earlier (c ∷ rest) = IsWithinCap earlier c × AllWithinCap (earlier ++ c ∷ []) rest

  AllWithinCap-append :
      (earlier xs ys : List (Timesheet Number))
      → AllWithinCap earlier xs
      → AllWithinCap (earlier ++ xs) ys
      → AllWithinCap earlier (xs ++ ys)
  AllWithinCap-append earlier [] ys before after =
      subst (λ cs. AllWithinCap cs ys) (append-nil earlier) after
  AllWithinCap-append earlier (x ∷ xs) ys before after = (
    before.0,
    AllWithinCap-append (earlier ++ x ∷ []) xs ys before.1
        (subst (λ cs. AllWithinCap cs ys) (sym (append_assoc earlier (x ∷ []) xs)) after),
  )

  -- What the loop has planned for a day is what its copies put there.
  abbrev pub IsTallied : Progress F → Type 0
  IsTallied p = (day : Day) → p.planned day ≡ hours_on day p.copies

  sum_copies-append :
      (day : Day) (copies : List (Timesheet Number)) (c : Timesheet Number) (total : Number)
      → sum_copies F (keep (λ x. calendar_day x.date == day) (copies ++ c ∷ [])) total ≡ (
          let sum = sum_copies F (keep (λ x. calendar_day x.date == day) copies) total in
          if calendar_day c.date == day then add sum c.duration_hours else sum)
  sum_copies-append day [] c total = elim (Bool-cases (calendar_day c.date == day)) [
    | inl same ↦ rw same refl
    | inr other ↦ rw other refl
  ]
  sum_copies-append day (x ∷ xs) c total = elim (Bool-cases (calendar_day x.date == day)) [
    | inl same ↦ rw same (sum_copies-append day xs c (add total x.duration_hours))
    | inr other ↦ rw other (sum_copies-append day xs c total)
  ]

  put_copy-IsTallied :
      (day : Day) (t : Timesheet Number) (p : Progress F)
      → IsTallied p
      → IsTallied (put_copy F user day t p)
  put_copy-IsTallied day t p tallied d = ground (
    arith,
    tallied d,
    calendar_day-midnight day,
    sum_copies-append d p.copies (copy_of user day t) zero_hours,
  )

  abbrev pub round : Timesheet Number → Progress F → Result (Progress F)
  round t p = copy_one F found daily_cap user from to booked b t p

  -- What a run of rounds over some entries adds to what the loop has.
  pub record IsRun (ts : List (Timesheet Number)) (p p' : Progress F) : Type 0 where
    pub adds_copies : p'.copies ≡ p.copies ++ copies_of ts
    pub bookable : All IsBookableCopy p.copies → All IsBookableCopy p'.copies
    pub budgeted : IsTallied p → IsTallied p' × AllWithinCap p.copies (copies_of ts)
    pub leaves_out : p'.closed ≡ p.closed + count is_left_out ts

  within_cap :
      (day : Day) (t : Timesheet Number) (p : Progress F)
      → IsTallied p
      → check_daily_budget F found daily_cap user
          (midnight day)
          (add t.duration_hours (p.planned day))
          0
          b
        ≡ ok tt
      → IsWithinCap p.copies (copy_of user day t)
  within_cap day t p tallied within =
      subst
        (λ hours.
          IsWithinLimit F found daily_cap user (midnight day) (add t.duration_hours hours) 0 b)
        (tallied day ∙ ap (λ d. hours_on d p.copies) (sym (calendar_day-midnight day)))
        (check_daily_budget-ok F found daily_cap user (midnight day)
          (add t.duration_hours (p.planned day)) 0 b within)

  copy_one-IsRun :
      (t : Timesheet Number) (p p' : Progress F) → round t p ≡ ok p' → IsRun (t ∷ []) p p'
  unfolding copy_one
  copy_one-IsRun t p p' done =
      let day = shift_day from to (calendar_day t.date) in
      elim (Bool-cases (among day booked)) [
        | inl taken ↦ subst (IsRun (t ∷ []) p) (ok_injective (rw taken at done)) (record {
          adds_copies = rw taken (sym (append-nil p.copies));
          bookable = λ all. all;
          budgeted = λ tallied. rw taken (tallied, tt);
          leaves_out = rw taken (omega arith);
        })
        | inr free ↦ elim (Bool-cases (still_open user t.project_id b.projects)) [
          | inr closed ↦
              subst (IsRun (t ∷ []) p) (ok_injective (rw closed at (rw free at done))) (record {
                adds_copies = rw free (rw closed (sym (append-nil p.copies)));
                bookable = λ all. all;
                budgeted = λ tallied. rw free (rw closed (tallied, tt));
                leaves_out = rw free (rw closed (omega arith));
              })
          | inl takes ↦
              let (bookable, rest) =
                check-ok (validate_timesheet F (midnight day) t.duration_hours t.description) _
                  (rw takes at (rw free at done)) in
              let (within, end) =
                check-ok
                  (check_daily_budget F found daily_cap user (midnight day)
                    (add t.duration_hours (p.planned day)) 0 b)
                  _ rest in
              subst (IsRun (t ∷ []) p) (ok_injective end) (record {
                adds_copies = rw free (rw takes refl);
                bookable = λ all. All-append IsBookableCopy p.copies (copy_of user day t ∷ []) all (
                  validate_timesheet-ok F (midnight day) t.duration_hours t.description bookable,
                  tt,
                );
                budgeted = λ tallied. rw free (
                    rw takes (
                      put_copy-IsTallied day t p tallied,
                      (within_cap day t p tallied within, tt),
                    ));
                leaves_out = rw free (rw takes (omega arith));
              })
        ]
      ]

  copies_of-cons :
      (t : Timesheet Number) (ts : List (Timesheet Number))
      → copies_of (t ∷ []) ++ copies_of ts ≡ copies_of (t ∷ ts)
  copies_of-cons t ts = elim (Bool-cases (goes_over t)) [
    | inl over ↦ rw over refl
    | inr stays ↦ rw stays refl
  ]

  count-cons :
      (t : Timesheet Number) (ts : List (Timesheet Number))
      → count is_left_out (t ∷ []) + count is_left_out ts ≡ count is_left_out (t ∷ ts)
  count-cons t ts = elim (Bool-cases (is_left_out t)) [
    | inl out ↦ rw out (omega arith)
    | inr stays ↦ rw stays (omega arith)
  ]

  -- The loop copies just the entries that go over, in their order, each bookable, and counts just those
  -- that are left out.
  pub copy_all-IsRun :
      (source : List (Timesheet Number)) (p p' : Progress F)
      → copy_all F found daily_cap user from to booked b source p ≡ ok p'
      → IsRun source p p'
  unfolding copy_all
  copy_all-IsRun [] p p' done = subst (IsRun [] p) (ok_injective done) (record {
    adds_copies = sym (append-nil p.copies);
    bookable = λ all. all;
    budgeted = λ tallied. (tallied, tt);
    leaves_out = omega arith;
  })
  copy_all-IsRun (t ∷ rest) p p' done =
      let (q, one, more) = bind-ok (round t p) _ done in
      let r = copy_one-IsRun t p q one in
      let rs = copy_all-IsRun rest q p' more in
      record {
        adds_copies =
            rs.adds_copies
            ∙ ap (λ cs. cs ++ copies_of rest) r.adds_copies
            ∙ append_assoc p.copies (copies_of (t ∷ [])) (copies_of rest)
            ∙ ap (λ cs. p.copies ++ cs) (copies_of-cons t rest);
        bookable = λ all. rs.bookable (r.bookable all);
        budgeted = λ tallied.
            let (tallied_then, before) = r.budgeted tallied in
            let (tallied_last, after) = rs.budgeted tallied_then in
            (
              tallied_last,
              subst (AllWithinCap p.copies) (copies_of-cons t rest) (
                  AllWithinCap-append p.copies (copies_of (t ∷ [])) (copies_of rest) before
                    (subst (λ cs. AllWithinCap cs (copies_of rest)) r.adds_copies after)),
            );
        leaves_out = omega (arith, rs.leaves_out, r.leaves_out, count-cons t rest);
      }
