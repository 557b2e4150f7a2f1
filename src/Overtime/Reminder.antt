-- ===== src/Overtime/Reminder.antt =====
-- The day of the reminder: the last on which work was expected.
use native.Mathlib.Decide.{ℕ_discrete}
use mathlib.Core.Path.{subst, sym}
use go_time_recording.Base.{
  ltb→lt, ℕ, zero, suc, ◌+◌, ◌-◌, ◌≤◌, ◌<◌, ◌≡◌, ◌⊎◌, inl, inr, refl, arith, Bool, true, false, not,
  ◌||◌, ◌&&◌, ◌∙◌, Option, none, some, String, ltb, if◌then◌else◌, Bool-cases,
}
use go_time_recording.Calendar.{Day}
use go_time_recording.Errors.{ok, bind-ok, ok_injective}
use go_time_recording.Float.{Float64}
use go_time_recording.User.{User}
use go_time_recording.Timesheet.Repository.{TimesheetRepository}
use go_time_recording.Overtime.{Times, DayRules, rules_for, expects_work, half_at_most, planned_on}
use go_time_recording.Absence.Service.{is_holiday}
use go_time_recording.Schedule.{target_on}
use go_time_recording.Overtime.Notices.{
  beginning, booked_on, seek_unbooked, unbooked_day, reminder_look_back,
}

module _ (F : Float64) (found : String → String → Bool) where
  open F use {Number, zero_hours, le}

  -- The week asks something of the day, it is no holiday, and at most half of it is away.
  abbrev pub is_expected : DayRules Number → Day → Bool
  is_expected rules day =
      not (le (target_on day rules.schedules rules.before) zero_hours)
      && (not (is_holiday (rules.holidays day)) && half_at_most F (rules.absent day))

  is_expected-expects_work :
      (rules : DayRules Number) (day : Day) → is_expected rules day ≡ expects_work F rules day
  unfolding expects_work planned_on
  is_expected-expects_work rules day = ground arith

  module _ (rules : DayRules Number) (user : ℕ) (entries : TimesheetRepository Number)
      (begins : Day) where
    -- A day of the window that ends with `day` and has as many days as rounds.
    abbrev InWindow : ℕ → Day → Day → Type 0
    InWindow rounds day e = (begins ≤ e) × (e ≤ day) × (day < e + rounds)

    -- The last day of the window on which work was expected.
    pub record IsLastExpected (rounds : ℕ) (day e : Day) : Type 0 where
      pub inside : InWindow rounds day e
      pub expected : is_expected rules e ≡ true
      pub none_later : (x : Day) → e < x → x ≤ day → is_expected rules x ≡ false

    abbrev pub NoneExpected : ℕ → Day → Type 0
    NoneExpected rounds day = (x : Day) → InWindow rounds day x → is_expected rules x ≡ false

    abbrev pub Reminds : ℕ → Day → Option Day → Type 0
    Reminds rounds day answer =
        ((answer ≡ none) × NoneExpected rounds day)
        ⊎ ((e : Day) × IsLastExpected rounds day e
            × (answer ≡ (if ltb 0 (booked_on F found user e entries) then none else some e)))

    here_first :
        (rounds : ℕ) (day : Day) (answer : Option Day)
        → begins ≤ day
        → is_expected rules day ≡ true
        → answer ≡ (if ltb 0 (booked_on F found user day entries) then none else some day)
        → Reminds (suc rounds) day answer
    here_first rounds day answer le expected same = inr (
      day,
      record {
        inside = (le, omega arith, omega arith);
        expected = expected;
        none_later = λ x lt le'. absurd (omega arith);
      },
      same,
    )

    earlier_first :
        (rounds : ℕ) (day : Day) (answer : Option Day)
        → rounds ≤ day
        → is_expected rules day ≡ false
        → Reminds rounds (day - 1) answer
        → Reminds (suc rounds) day answer
    earlier_first rounds day answer le free reminds = elim reminds [
      | inl (same, none_expected) ↦ inl (
        same,
        λ x inside. elim (ℕ_discrete x day) [
          | yes here ↦ subst (λ d. is_expected rules d ≡ false) (sym here) free
          | no other ↦ none_expected x (inside.0, omega (arith, inside.1), omega (arith, inside.2))
        ],
      )
      | inr (e, last, same) ↦ inr (
        e,
        record {
          inside = (
            last.inside.0,
            omega (arith, last.inside.1),
            omega (arith, last.inside.1, last.inside.2),
          );
          expected = last.expected;
          none_later = λ x lt le'. elim (ℕ_discrete x day) [
            | yes here ↦ subst (λ d. is_expected rules d ≡ false) (sym here) free
            | no other ↦ last.none_later x lt (omega arith)
          ];
        },
        same,
      )
    ]

    seek_unbooked-Reminds :
        (rounds : ℕ) (day : Day)
        → rounds ≤ day + 1
        → Reminds rounds day (seek_unbooked F found rules user entries begins rounds day)
    unfolding seek_unbooked
    seek_unbooked-Reminds zero day le = inl (refl, λ x inside. absurd (omega (arith, inside.2)))
    seek_unbooked-Reminds (suc rounds) day le = elim (Bool-cases (ltb day begins)) [
      | inl over ↦
          rw over (inl (refl, λ x inside. absurd (omega (arith, ltb→lt, inside.0, inside.1))))
      | inr begun ↦ elim (Bool-cases (expects_work F rules day)) [
        | inl expected ↦ rw begun (
            rw expected (
              here_first rounds day _ (ground arith) (is_expected-expects_work rules day ∙ expected)
                refl))
        | inr free ↦ rw begun (
            rw free (
              earlier_first rounds day _ (omega arith) (is_expected-expects_work rules day ∙ free)
                (seek_unbooked-Reminds rounds (day - 1) (omega arith))))
      ]
    ]

  -- Nobody is reminded who asked not to be, or for whom nothing counts yet. Anybody else is reminded
  -- of the last of the fourteen days before today, from the beginning of the balance on, on which
  -- their week plans hours, which is no holiday and on which they are not away, or away for half a
  -- day; and only if nothing is booked on it. Where there is no such day there is no reminder.
  pub unbooked_day-Reminds :
      (today : Day) (u : User Number) (times : Times Number) (answer : Option Day)
      → reminder_look_back ≤ today
      → unbooked_day F found today u times ≡ ok answer
      → ((answer ≡ none)
          × ((u.skip_unbooked_reminder ≡ true) ⊎ ((beginning u times.booking.entries).1 ≡ false)))
        ⊎ ((rules : DayRules Number) × (u.skip_unbooked_reminder ≡ false)
            × ((beginning u times.booking.entries).1 ≡ true)
            × (rules_for F today u (today - reminder_look_back) (today - 1) times ≡ ok rules)
            × Reminds rules u.id times.booking.entries
                (beginning u times.booking.entries).0
                reminder_look_back
                (today - 1)
                answer)
  unfolding unbooked_day
  unbooked_day-Reminds today u times answer le done =
      let begins = (beginning u times.booking.entries).0 in
      elim (Bool-cases (u.skip_unbooked_reminder || not (beginning u times.booking.entries).1)) [
        | inl silent ↦ inl (sym (ok_injective (rw silent at done)), ground arith)
        | inr told ↦
            let (rules, ruled, end) =
              bind-ok (rules_for F today u (today - reminder_look_back) (today - 1) times) _
                (rw told at done) in
            inr (
              rules,
              ground arith,
              ground arith,
              ruled,
              subst (Reminds rules u.id times.booking.entries begins reminder_look_back (today - 1))
                  (ok_injective end)
                  (seek_unbooked-Reminds rules u.id times.booking.entries begins reminder_look_back
                    (today - 1) (omega arith)),
            )
      ]
