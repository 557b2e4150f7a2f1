-- ===== src/Holiday/Countries.antt =====
-- Every country kept: `holidaysByCountry` of internal/domain/model/holiday_model.go.
mod Shapes
pub mod Central
pub mod West
pub mod South
pub mod North
pub mod Overseas
use go_time_recording.Base.{Option, none, some, List, [], ◌∷◌, String, str_eq, if◌then◌else◌}
use go_time_recording.Holiday.Rules.{CountryRules}
use Central.{holidays_at, holidays_cz, holidays_de, holidays_pl}
use West.{holidays_be, holidays_fr, holidays_gb, holidays_ie, holidays_lu, holidays_nl}
use South.{holidays_it, holidays_pt}
use North.{holidays_dk, holidays_fi, holidays_no, holidays_se}
use Overseas.{holidays_us}

abbrev pub holidays_by_country : List (String × CountryRules)
holidays_by_country =
    ("AT", holidays_at)
    ∷ ("BE", holidays_be)
    ∷ ("CZ", holidays_cz)
    ∷ ("DE", holidays_de)
    ∷ ("DK", holidays_dk)
    ∷ ("FI", holidays_fi)
    ∷ ("FR", holidays_fr)
    ∷ ("GB", holidays_gb)
    ∷ ("IE", holidays_ie)
    ∷ ("IT", holidays_it)
    ∷ ("LU", holidays_lu)
    ∷ ("NL", holidays_nl)
    ∷ ("NO", holidays_no)
    ∷ ("PL", holidays_pl)
    ∷ ("PT", holidays_pt)
    ∷ ("SE", holidays_se)
    ∷ ("US", holidays_us)
    ∷ []

-- A read of the map: `none` where the code is missing.
unfoldable pub find_country : String → List (String × CountryRules) → Option CountryRules
find_country code [] = none
find_country code ((c, rules) ∷ rest) = if str_eq c code then some rules else find_country code rest
