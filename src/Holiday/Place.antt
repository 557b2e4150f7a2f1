-- ===== src/Holiday/Place.antt =====
-- Where somebody keeps public holidays, and the choices that may be stored: the functions on places
-- of internal/domain/model/holiday_model.go.
pub mod Laws
use Prim.Native.Char.{Char, code}
use go_time_recording.Base.{
  ℕ, Bool, true, false, not, ◌&&◌, ◌||◌, Option, none, some, String, str_eq, ◌==◌, if◌then◌else◌,
}
use go_time_recording.Holiday.Rules.{contains_text, CountryRules}
use go_time_recording.Holiday.Countries.{holidays_by_country, find_country}
use go_time_recording.Holiday.Countries.Central.{holidays_de}

-- `strings.Cut(s, "-")`: what stands before the first dash and behind it, and whether there is one.
unfoldable pub cut_dash : String → String × String × Bool
cut_dash String.[] = ("", "", false)
cut_dash (String.◌∷◌ c s) =
    let (before, after, found) = cut_dash s in
    if code c == b'-' then ("", s, true) else (String.◌∷◌ c before, after, found)

unfoldable pub append_text : String → String → String
append_text String.[] t = t
append_text (String.◌∷◌ c s) t = String.◌∷◌ c (append_text s t)

unfoldable pub holiday_place : String → String → String
unfolding append_text
holiday_place country region =
    if str_eq region "" then country else append_text country (append_text "-" region)

unfoldable pub split_holiday_place : String → String × String
unfolding cut_dash
split_holiday_place place = let (country, region, found) = cut_dash place in (country, region)

unfoldable pub legacy_holiday_place : String → String
unfolding contains_text
legacy_holiday_place written =
    if contains_text holidays_de.regions written then holiday_place "DE" written else written

unfoldable pub legacy_holiday_region : String → String
legacy_holiday_region choice =
    let (country, region) = split_holiday_place choice in
    if str_eq country "DE" && not (str_eq region "") then region else choice

-- The test of a place once its country is looked up.
unfoldable pub valid_in_country : Option CountryRules → String → Bool → Bool
unfolding contains_text
valid_in_country none region dashed = false
valid_in_country (some rules) region dashed =
    if str_eq region ""
    then not rules.region_required && not dashed
    else contains_text rules.regions region

unfoldable pub valid_holiday_place : String → Bool
unfolding find_country valid_in_country split_holiday_place
valid_holiday_place place =
    valid_in_country (find_country (split_holiday_place place).0 holidays_by_country)
      (split_holiday_place place).1 (cut_dash place).2

abbrev pub no_holidays : String
no_holidays = "none"

pub data HolidayChoiceFault : Type 0 where
  no_holiday_choice_fault unknown_holiday_country unknown_holiday_region : HolidayChoiceFault

unfoldable pub holiday_choice_fault_of : String → HolidayChoiceFault
holiday_choice_fault_of choice =
    if str_eq choice "" || (str_eq choice no_holidays || valid_holiday_place choice)
    then no_holiday_choice_fault
    else elim (find_country (split_holiday_place choice).0 holidays_by_country) [
      | none ↦ unknown_holiday_country
      | some rules ↦ unknown_holiday_region
    ]

-- `User.HolidayPlaceOf`, of the person's own choice and the installation's.
unfoldable pub holiday_place_of : String → String → String
holiday_place_of own installation =
    let choice = if str_eq own "" then installation else own in
    if str_eq choice no_holidays then "" else choice

-- All that the functions on places compute with.
unfoldable pub place_code : Unit {0}
unfolding holiday_place split_holiday_place legacy_holiday_place legacy_holiday_region
    valid_holiday_place holiday_choice_fault_of holiday_place_of
place_code = tt
