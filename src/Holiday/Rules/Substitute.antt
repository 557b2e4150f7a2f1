-- ===== src/Holiday/Rules/Substitute.antt =====
-- Where a holiday on a weekend is kept instead.
use go_time_recording.Base.{
  ℕ, zero, suc, ◌+◌, ◌-◌, ◌*◌, ◌≤◌, ◌<◌, ◌≡◌, arith, refl, Bool-cases, inl, inr, ◌↔◌, ◌⊎◌, true,
  false, List, [], ◌∷◌, ◌||◌, none, some, ◌==◌,
}
use go_time_recording.Calendar.{Day, weekday, saturday, sunday}
use go_time_recording.Holiday.Rules.{
  contains, weekend, latest_taken, seek_free, next_free_weekday, nearest_weekday,
}

contains-le : (taken : List Day) (day : Day) → contains taken day ≡ true → day ≤ latest_taken taken
unfolding contains latest_taken
contains-le [] day h = absurd (ground arith)
contains-le (d ∷ ds) day h = ground (arith, contains-le ds day)

-- What keeps a day from taking a holiday.
abbrev pub IsBlocked : List Day → Day → Type 0
IsBlocked taken day = (weekend day || contains taken day) ≡ true

-- The weekend days left from a day on.
abbrev weekend_left : Day → ℕ
weekend_left day = elim (weekday day == saturday) [
  | true ↦ 2
  | false ↦ elim (weekday day == sunday) [ true ↦ 1 | false ↦ 0 ]
]

-- The loop ends on a day that is free.
seek_free-free :
    (steps : ℕ) (taken : List Day) (day : Day)
    → 3 * (latest_taken taken + 1 - day) + weekend_left day ≤ steps
    → ((weekend (seek_free steps taken day) || contains taken (seek_free steps taken day)) ≡ false)
      × (day ≤ seek_free steps taken day)
unfolding seek_free weekend weekday
seek_free-free zero taken day h = ground (arith, contains-le taken day)
seek_free-free (suc steps) taken day h =
    ground (arith, contains-le taken day, seek_free-free steps taken (day + 1))

-- However far the loop goes, every day it passes is blocked.
seek_free-passes :
    (steps : ℕ) (taken : List Day) (day n : Day)
    → day ≤ n
    → n < seek_free steps taken day
    → IsBlocked taken n
unfolding seek_free
seek_free-passes zero taken day n lo hi = absurd (omega arith)
seek_free-passes (suc steps) taken day n lo hi = elim (Bool-cases (n == day)) [
  | inl same ↦ ground arith
  | inr later ↦ ground (arith, seek_free-passes steps taken (day + 1) n)
]

pub next_free_weekday-none :
    (day : Day) (taken : List Day) → (next_free_weekday day taken ≡ none) ↔ (weekend day ≡ false)
unfolding next_free_weekday
next_free_weekday-none day taken = ground arith

pub next_free_weekday-not_taken :
    (day : Day) (taken : List Day) {instead : Day}
    → next_free_weekday day taken ≡ some instead
    → (contains taken instead ≡ false) × (weekend instead ≡ false) × (day < instead)
unfolding next_free_weekday
next_free_weekday-not_taken day taken e =
    let steps = 3 * (latest_taken taken + 1 - day) + 2 in
    ground (arith, seek_free-free steps taken day)

abbrev pub IsWeekend : Day → Type 0
IsWeekend day = (weekday day ≡ saturday) ⊎ (weekday day ≡ sunday)

weekend-IsWeekend : (day : Day) → weekend day ≡ true → IsWeekend day
unfolding weekend
weekend-IsWeekend day h = ground arith

not_weekend : (day : Day) → weekend day ≡ false → ¬ IsWeekend day
unfolding weekend
not_weekend day h = ground arith

-- The first day after another that is neither a Saturday, nor a Sunday, nor taken.
pub record IsNextFree (day : Day) (taken : List Day) (instead : Day) : Type 0 where
  pub later : day < instead
  pub on_weekday : ¬ IsWeekend instead
  pub not_taken : contains taken instead ≡ false
  pub passes : (n : ℕ) → day ≤ n → n < instead → IsWeekend n ⊎ (contains taken n ≡ true)

blocked_by :
    (taken : List Day) (n : ℕ) → IsBlocked taken n → IsWeekend n ⊎ (contains taken n ≡ true)
blocked_by taken n h = elim (Bool-cases (weekend n)) [
  | inl ends ↦ inl (weekend-IsWeekend n ends)
  | inr works ↦ inr (ground arith)
]

-- A holiday is moved exactly if it falls on a Saturday or a Sunday, whatever days are taken: then it
-- is kept on the first day after it that is neither a Saturday, nor a Sunday, nor taken.
pub next_free_weekday-first :
    (day : Day) (taken : List Day)
    → ((next_free_weekday day taken ≡ none) × ¬ IsWeekend day)
      ⊎ ((instead : Day) × (next_free_weekday day taken ≡ some instead)
          × IsWeekend day
          × IsNextFree day taken instead)
unfolding next_free_weekday
next_free_weekday-first day taken =
    let steps = 3 * (latest_taken taken + 1 - day) + 2 in
    let instead = seek_free steps taken day in
    elim (Bool-cases (weekend day)) [
      | inr works ↦ inl (rw works refl, not_weekend day works)
      | inl ends ↦
          let moved : next_free_weekday day taken ≡ some instead =
            unfold next_free_weekday in (rw ends refl) in
          let free = next_free_weekday-not_taken day taken moved in
          inr (
            instead,
            rw ends refl,
            weekend-IsWeekend day ends,
            record {
              later = free.2;
              on_weekday = not_weekend instead free.1;
              not_taken = free.0;
              passes = λ n lo hi. blocked_by taken n (seek_free-passes steps taken day n lo hi);
            },
          )
    ]

-- The nearest weekday is a weekday, one day off.
pub nearest_weekday-near :
    (day : Day) (taken : List Day) {instead : Day}
    → 1 ≤ day
    → nearest_weekday day taken ≡ some instead
    → (weekend day ≡ true) × (weekend instead ≡ false) × ((day ≡ instead + 1) ⊎ (instead ≡ day + 1))
unfolding nearest_weekday weekend weekday
nearest_weekday-near day taken h e = ground arith
