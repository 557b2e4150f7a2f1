-- ===== src/Holiday/Rules.antt =====
-- The rules a country's holidays are worked out by: `holidayRule`, `holidayRules` and the functions
-- that make a day of a year, in internal/domain/model/holiday_model.go.
pub mod Weekdays
pub mod Substitute
pub mod Years
use go_time_recording.Base.{
  ℕ, ◌+◌, ◌-◌, ◌*◌, Bool, true, false, not, ◌&&◌, ◌||◌, Option, none, some, List, [], ◌∷◌, ◌++◌,
  String, ltb, leb, ◌==◌, str_eq, if◌then◌else◌,
}
use go_time_recording.Base.Int.{ℤ, pos, pos_part, ◌+ℤ◌}
use go_time_recording.Base.Sort.{sort_by}
use go_time_recording.Calendar.{Day, date, weekday, saturday, sunday}
use go_time_recording.Holiday.Easter.{easter_sunday}

-- `slices.Contains`, of numbers and of texts.
unfoldable pub contains : List ℕ → ℕ → Bool
contains [] n = false
contains (x ∷ xs) n = (x == n) || contains xs n

unfoldable pub contains_text : List String → String → Bool
contains_text [] s = false
contains_text (x ∷ xs) s = str_eq x s || contains_text xs s

-- `day.AddDate(0, 0, days)`.
unfoldable pub add_days : Day → ℤ → Day
add_days n days = pos_part (pos n +ℤ days)

unfoldable pub fixed : ℕ → ℕ → ℕ → Day
fixed month day y = date y month day

unfoldable pub after_easter : ℤ → ℕ → Day
after_easter days y = add_days (easter_sunday y) days

-- The loop of `weekdayFrom`. Some day of seven is the one that is looked for, so six steps reach it.
unfoldable pub seek_forward : ℕ → ℕ → Day → Day
seek_forward ℕ.zero w day = day
seek_forward (ℕ.suc steps) w day =
    let later = seek_forward steps w (day + 1) in if weekday day == w then day else later

unfoldable pub weekday_from : ℕ → Day → Day
weekday_from w day = seek_forward 6 w day

-- The loop of `lastWeekday` and `repentanceDay`, back from a day.
unfoldable pub seek_back : ℕ → ℕ → Day → Day
seek_back ℕ.zero w day = day
seek_back (ℕ.suc steps) w day =
    let sooner = seek_back steps w (day - 1) in if weekday day == w then day else sooner

unfoldable pub nth_weekday : ℕ → ℕ → ℕ → ℕ → Day
nth_weekday n w month y = weekday_from w (date y month 1) + 7 * (n - 1)

unfoldable pub last_weekday : ℕ → ℕ → ℕ → Day
last_weekday w month y = seek_back 6 w (date y (month + 1) 0)

unfoldable pub weekday_after : ℕ → ℕ → ℕ → ℕ → Day
weekday_after w month day y = weekday_from w (date y month day)

unfoldable pub weekend : Day → Bool
weekend day = (weekday day == saturday) || (weekday day == sunday)

-- The latest of the days taken: past it the loop of `nextFreeWeekday` meets a weekend at most.
unfoldable pub latest_taken : List Day → Day
latest_taken [] = 0
latest_taken (d ∷ ds) = let rest = latest_taken ds in if ltb rest d then d else rest

-- The loop of `nextFreeWeekday`, over the days taken.
unfoldable pub seek_free : ℕ → List Day → Day → Day
seek_free ℕ.zero taken day = day
seek_free (ℕ.suc steps) taken day =
    let later = seek_free steps taken (day + 1) in
    if weekend day || contains taken day then later else day

-- `none` is the source's second answer, that the holiday is not moved.
unfoldable pub next_free_weekday : Day → List Day → Option Day
next_free_weekday day taken =
    if not (weekend day)
    then none
    else some (seek_free (3 * (latest_taken taken + 1 - day) + 2) taken day)

unfoldable pub nearest_weekday : Day → List Day → Option Day
nearest_weekday day taken =
    if weekday day == saturday
    then some (day - 1)
    else if weekday day == sunday
    then some (day + 1)
    else none

pub record Holiday : Type 0 where
  pub day : Day
  pub name : String
  pub substitute : Bool

-- `regions` are the words of the source's text. `only` is `none` where the source has nil.
pub record Rule : Type 0 where
  pub name : String
  pub on : ℕ → Day
  pub regions : List String
  pub from : ℕ
  pub until : ℕ
  pub only : Option (List ℕ)
  pub except : List ℕ

pub record CountryRules : Type 0 where
  pub regions : List String
  pub region_required : Bool
  pub rules : List Rule
  pub substitute : Option (Day → List Day → Option Day)

abbrev is_empty : List String → Bool
is_empty [] = true
is_empty (x ∷ xs) = false

unfoldable pub holds_in : Rule → String → ℕ → Bool
unfolding contains contains_text
holds_in r region y =
    if not (is_empty r.regions) && not (contains_text r.regions region)
    then false
    else elim r.only [
      | some years ↦ contains years y
      | none ↦
          if contains r.except y
          then false
          else ((r.from == 0) || leb r.from y) && ((r.until == 0) || leb y r.until)
    ]

-- The first loop of `year`: each rule that holds adds its day, unless another had it before.
unfoldable pub keep_rules :
    String → ℕ → List Rule → List Holiday → List Day → List Holiday × List Day
unfolding holds_in
keep_rules region y [] holidays taken = (holidays, taken)
keep_rules region y (r ∷ rs) holidays taken =
    if not (holds_in r region y)
    then keep_rules region y rs holidays taken
    else if contains taken (r.on y)
    then keep_rules region y rs holidays taken
    else keep_rules region y rs
        (holidays ++ record { day = r.on y; name = r.name; substitute = false } ∷ [])
        (r.on y ∷ taken)

-- The loop over the holidays of the year, in the order they fall, that adds the substitutes.
unfoldable pub keep_substitutes :
    (Day → List Day → Option Day) → List Holiday → List Holiday → List Day → List Holiday × List Day
keep_substitutes move [] holidays taken = (holidays, taken)
keep_substitutes move (h ∷ hs) holidays taken = elim (move h.day taken) [
  | none ↦ keep_substitutes move hs holidays taken
  | some instead ↦
      keep_substitutes move hs
        (holidays ++ record { day = instead; name = h.name; substitute = true } ∷ [])
        (instead ∷ taken)
]

unfoldable pub by_day : Holiday → ℕ
by_day h = h.day

-- The second half of `year`, which adds the substitutes of a country that has some.
unfoldable pub add_substitutes :
    Option (Day → List Day → Option Day) → List Holiday → List Day → List Holiday
unfolding keep_substitutes by_day
add_substitutes none sorted taken = sorted
add_substitutes (some move) sorted taken =
    sort_by by_day (keep_substitutes move sorted sorted taken).0

unfoldable pub year : CountryRules → String → ℕ → List Holiday
unfolding keep_rules by_day add_substitutes
year c region y =
    let (kept, taken) = keep_rules region y c.rules [] [] in
    add_substitutes c.substitute (sort_by by_day kept) taken
