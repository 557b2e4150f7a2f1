-- ===== src/Holiday/Between.antt =====
-- What a range of days finds.
use native.Mathlib.Decide.{dec_lt, ℕ_discrete}
use mathlib.Core.Path.{subst}
use go_time_recording.Base.{
  ℕ, zero, suc, ◌+◌, ◌-◌, ◌≤◌, ◌<◌, ◌≡◌, ◌≢◌, ◌⊎◌, ==_iff, ap, ◌∙◌, refl, arith, ◌&&◌, Option, none,
  some, List, [], ◌∷◌, String, leb, ◌==◌, if◌then◌else◌, keep, All, Bool-cases, inl, inr,
}
use go_time_recording.Calendar.{Day, Moment, year, calendar_day}
use go_time_recording.Calendar.Years.{year_mono}
use go_time_recording.Holiday.{
  in_year, holidays_of_country, holidays_in, Found, put, put_all, put_years, nothing_found,
  holidays_between,
}
use go_time_recording.Holiday.Rules.{Holiday, CountryRules}
use go_time_recording.Holiday.Place.{valid_holiday_place}

-- The last holiday of a list on a day, or what was known of that day before.
abbrev pub last_on : Day → List Holiday → Option Holiday → Option Holiday
last_on day [] known = known
last_on day (h ∷ hs) known = last_on day hs (if day == h.day then some h else known)

keep-in_year : (y : ℕ) (hs : List Holiday) → All (λ h. year h.day ≡ y) (keep (in_year y) hs)
keep-in_year y [] = tt
keep-in_year y (h ∷ hs) = ground (arith, keep-in_year y hs)

holidays_of_country-year :
    (c : Option CountryRules) (region : String) (y : ℕ)
    → All (λ h. year h.day ≡ y) (holidays_of_country c region y)
unfolding holidays_of_country
holidays_of_country-year none region y = tt
holidays_of_country-year (some c) region y = keep-in_year y _

-- Every holiday of a year falls in that year, the substitutes of the years beside it included.
pub holidays_in-year : (place : String) (y : ℕ) → All (λ h. year h.day ≡ y) (holidays_in place y)
unfolding holidays_in
holidays_in-year place y = elim (Bool-cases (valid_holiday_place place)) [
  | inl valid ↦ rw valid (holidays_of_country-year _ _ y)
  | inr other ↦ rw other tt
]

put_all-last_on :
    (from to day : Day) (hs : List Holiday) (found : Found)
    → put_all from to hs found day
      ≡ (if leb from day && leb day to then last_on day hs (found day) else found day)
unfolding put_all
put_all-last_on from to day [] found = ground arith
put_all-last_on from to day (h ∷ hs) found =
    let found' : Found = if leb from h.day && leb h.day to then put h found else found in
    ground (arith, put_all-last_on from to day hs found')

last_on_other :
    (y : ℕ) (day : Day) (hs : List Holiday) (known : Option Holiday)
    → All (λ h. year h.day ≡ y) hs
    → year day ≢ y
    → last_on day hs known ≡ known
last_on_other y day [] known all n = refl
last_on_other y day (h ∷ hs) known all n = elim (Bool-cases (day == h.day)) [
  | inl same ↦ absurd (n (ap year ((==_iff day h.day).0 same) ∙ all.0))
  | inr other ↦ rw other (last_on_other y day hs known all.1 n)
]

module _ (place : String) (from to day : Day) where
  -- What one year leaves of a day of that year, and of any other day.
  abbrev put_year : ℕ → Found → Found
  put_year y found = put_all from to (holidays_in place y) found

  -- What a day of the range gets.
  abbrev in_range : Option Holiday → Option Holiday
  in_range known =
      if leb from day && leb day to then last_on day (holidays_in place (year day)) known else known

  abbrev range_value : Found → Option Holiday
  range_value found = in_range (found day)

  put_year-own : (found : Found) → put_year (year day) found day ≡ range_value found
  put_year-own found = put_all-last_on from to day (holidays_in place (year day)) found

  put_year-other : (y : ℕ) (found : Found) → year day ≢ y → put_year y found day ≡ found day
  put_year-other y found n = ground (
    arith,
    put_all-last_on from to day (holidays_in place y) found,
    last_on_other y day (holidays_in place y) (found day) (holidays_in-year place y) n,
  )

  put_years_other :
      (rounds y : ℕ) (found : Found)
      → (year day < y) ⊎ (y + rounds ≤ year day)
      → put_years place from to rounds y found day ≡ found day
  unfolding put_years
  put_years_other zero y found out = refl
  put_years_other (suc rounds) y found out =
      put_years_other rounds (y + 1) (put_year y found) (omega arith)
      ∙ put_year-other y found (omega arith)

  put_years-own :
      (rounds y : ℕ) (found : Found)
      → y ≤ year day
      → year day < y + rounds
      → put_years place from to rounds y found day ≡ range_value found
  unfolding put_years
  put_years-own zero y found lo hi = absurd (omega arith)
  put_years-own (suc rounds) y found lo hi = elim (ℕ_discrete (year day) y) [
    | yes same ↦
        put_years_other rounds (y + 1) (put_year y found) (omega arith)
        ∙ subst (λ z. put_year z found day ≡ range_value found) same (put_year-own found)
    | no other ↦
        put_years-own rounds (y + 1) (put_year y found) (omega arith) (omega arith)
        ∙ ap in_range (put_year-other y found other)
  ]

-- What is found for a day is the last of its year's holidays on that day, if the day lies in the
-- range, both ends included, and nothing else.
pub holidays_between-last_on :
    (place : String) (from to : Moment) (day : Day)
    → holidays_between place from to day ≡ (
        if leb (calendar_day from) day && leb day (calendar_day to)
        then last_on day (holidays_in place (year day)) none
        else none)
unfolding holidays_between
holidays_between-last_on place from to day =
    let first = calendar_day from in
    let last = calendar_day to in
    let rounds = year last + 1 - year first in
    let own = put_years-own place first last day rounds (year first) nothing_found in
    let other = put_years_other place first last day rounds (year first) nothing_found in
    elim (Bool-cases (leb first day && leb day last)) [
      | inl inside ↦
          own (year_mono first day (ground arith))
            (omega (arith, year_mono day last (ground arith)))
      | inr outside ↦ elim (dec_lt (year day) (year first)) [
        | yes early ↦ other (inl early) ∙ rw outside
        | no started ↦ elim (dec_lt (year last) (year day)) [
          | yes late ↦ other (inr (omega arith)) ∙ rw outside
          | no ends ↦ own (omega arith) (omega arith)
        ]
      ]
    ]
