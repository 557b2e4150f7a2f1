-- ===== src/Holiday/Rules/Years.antt =====
-- One year of a country's holidays.
use go_time_recording.Base.{
  ℕ, ◌≡◌, ◌≢◌, ◌⊎◌, inl, inr, arith, true, false, List, [], ◌∷◌, ◌++◌, Option, none, some, String,
  All, All-append, Bool-cases, Option-cases,
}
use go_time_recording.Base.Sort.{IsSorted, sort_by, sort_by-IsSorted, sort_by-All}
use go_time_recording.Base.Distinct.{IsDistinct, IsDistinct-append_one, sort_by-IsDistinct}
use go_time_recording.Calendar.{Day}
use go_time_recording.Holiday.Rules.{
  contains, Holiday, Rule, CountryRules, holds_in, keep_rules, keep_substitutes, add_substitutes,
  by_day, year, next_free_weekday,
}
use go_time_recording.Holiday.Rules.Substitute.{next_free_weekday-not_taken}

-- The holidays have distinct days, and every one of them is taken.
abbrev IsKept : List Holiday × List Day → Type 0
IsKept (holidays, taken) =
    IsDistinct by_day holidays × All (λ h. contains taken h.day ≡ true) holidays

contains-cons :
    (d : Day) (taken : List Day) (hs : List Holiday)
    → All (λ h. contains taken h.day ≡ true) hs
    → All (λ h. contains (d ∷ taken) h.day ≡ true) hs
unfolding contains
contains-cons d taken [] k = tt
contains-cons d taken (h ∷ hs) k = (ground arith, contains-cons d taken hs k.1)

not_taken-ne :
    (d : Day) (taken : List Day) (hs : List Holiday)
    → contains taken d ≡ false
    → All (λ h. contains taken h.day ≡ true) hs
    → All (λ h. d ≢ by_day h) hs
unfolding by_day
not_taken-ne d taken [] n k = tt
not_taken-ne d taken (h ∷ hs) n k = (λ e. cc, not_taken-ne d taken hs n k.1)

contains_self : (d : Day) (taken : List Day) → contains (d ∷ taken) d ≡ true
unfolding contains
contains_self d taken = ground arith

-- A holiday on a day that is not taken is added.
add-IsKept :
    (h : Holiday) (hs : List Holiday) (taken : List Day)
    → contains taken h.day ≡ false
    → IsKept (hs, taken)
    → IsKept (hs ++ h ∷ [], h.day ∷ taken)
add-IsKept h hs taken n k = (
  IsDistinct-append_one by_day hs h k.0 (unfold by_day in not_taken-ne h.day taken hs n k.1),
  All-append (λ j. contains (h.day ∷ taken) j.day ≡ true) hs (h ∷ [])
      (contains-cons h.day taken hs k.1) (contains_self h.day taken, tt),
)

keep_rules-IsKept :
    (region : String) (y : ℕ) (rs : List Rule) (hs : List Holiday) (taken : List Day)
    → IsKept (hs, taken)
    → IsKept (keep_rules region y rs hs taken)
unfolding keep_rules
keep_rules-IsKept region y [] hs taken k = k
keep_rules-IsKept region y (r ∷ rs) hs taken k = elim (Bool-cases (holds_in r region y)) [
  | inr off ↦ rw off (keep_rules-IsKept region y rs hs taken k)
  | inl on ↦ elim (Bool-cases (contains taken (r.on y))) [
    | inl twice ↦ rw (on, twice) (keep_rules-IsKept region y rs hs taken k)
    | inr new ↦ rw (on, new) (keep_rules-IsKept region y rs _ _ (add-IsKept _ hs taken new k))
  ]
]

keep_substitutes-IsKept :
    (queue hs : List Holiday) (taken : List Day)
    → IsKept (hs, taken)
    → IsKept (keep_substitutes next_free_weekday queue hs taken)
unfolding keep_substitutes
keep_substitutes-IsKept [] hs taken k = k
keep_substitutes-IsKept (h ∷ queue) hs taken k =
    elim (Option-cases (next_free_weekday h.day taken)) [
      | inl stays ↦ rw (stays, keep_substitutes) (keep_substitutes-IsKept queue hs taken k)
      | inr (instead, moved) ↦
          rw (moved, keep_substitutes)
            (keep_substitutes-IsKept queue _ _
              (add-IsKept _ hs taken (next_free_weekday-not_taken h.day taken moved).0 k))
    ]

sort-IsKept :
    (hs : List Holiday) (taken : List Day) → IsKept (hs, taken) → IsKept (sort_by by_day hs, taken)
sort-IsKept hs taken k =
    (sort_by-IsDistinct by_day hs k.0, sort_by-All by_day (λ h. contains taken h.day ≡ true) hs k.1)

abbrev MovesFree : Option (Day → List Day → Option Day) → Type 0
MovesFree m = (m ≡ none) ⊎ (m ≡ some next_free_weekday)

add_substitutes-IsDistinct :
    (m : Option (Day → List Day → Option Day)) (hs : List Holiday) (taken : List Day)
    → MovesFree m
    → IsSorted by_day hs
    → IsKept (hs, taken)
    → IsSorted by_day (add_substitutes m hs taken) × IsDistinct by_day (add_substitutes m hs taken)
add_substitutes-IsDistinct m hs taken (inl stays) s k =
    rw stays (unfold add_substitutes in (s, k.0))
add_substitutes-IsDistinct m hs taken (inr moves) s k =
    let added = (keep_substitutes next_free_weekday hs hs taken).0 in
    rw moves (
      unfold add_substitutes in
      (
        sort_by-IsSorted by_day added,
        sort_by-IsDistinct by_day added (keep_substitutes-IsKept hs hs taken k).0,
      ))

-- In a country that moves no holiday, or moves those on a weekend to the next free weekday, the
-- holidays of a year come in the order of their days, and no day is kept twice.
pub year-IsDistinct :
    (c : CountryRules) (region : String) (y : ℕ)
    → (c.substitute ≡ none) ⊎ (c.substitute ≡ some next_free_weekday)
    → IsSorted by_day (year c region y) × IsDistinct by_day (year c region y)
unfolding year
year-IsDistinct c region y m =
    let (kept, taken) = keep_rules region y c.rules [] [] in
    let invariant = keep_rules-IsKept region y c.rules [] [] (tt, tt) in
    add_substitutes-IsDistinct c.substitute (sort_by by_day kept) taken m
      (sort_by-IsSorted by_day kept) (sort-IsKept kept taken invariant)
