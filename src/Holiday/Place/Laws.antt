-- ===== src/Holiday/Place/Laws.antt =====
-- Places are written and read alike.
use mathlib.Core.Path.{subst}
use mathlib.Core.Bool.{false≢true}
use text.Mathlib.TextEquality.{eq_iff}
use go_time_recording.Base.{
  ◌≡◌, refl, arith, true, false, String, str_eq, if◌then◌else◌, some, not, ap, ◌∙◌, sym, Bool-cases,
  inl, inr,
}
use go_time_recording.Holiday.Place.{
  cut_dash, append_text, holiday_place, split_holiday_place, legacy_holiday_place,
  legacy_holiday_region, valid_holiday_place, valid_in_country,
}
use go_time_recording.Holiday.Rules.{CountryRules, contains_text}
use go_time_recording.Holiday.Countries.{holidays_by_country, find_country}
use go_time_recording.Holiday.Countries.Central.{holidays_de}

-- A country's code has no dash in it.
abbrev pub HasNoDash : String → Type 0
HasNoDash country = (cut_dash country).2 ≡ false

cut-append :
    (country region : String)
    → (cut_dash country).2 ≡ false
    → cut_dash (append_text country (append_text "-" region)) ≡ (country, region, true)
unfolding cut_dash append_text
cut-append String.[] region h = refl
cut-append (String.◌∷◌ c s) region h = ground (arith, cut-append s region)

cut_whole :
    (country : String) → (cut_dash country).2 ≡ false → cut_dash country ≡ (country, "", false)
unfolding cut_dash
cut_whole String.[] h = refl
cut_whole (String.◌∷◌ c s) h = ground (arith, cut_whole s)

-- A place written from a country and a region is read as that country and that region.
pub split_holiday_place-holiday_place :
    (country region : String)
    → HasNoDash country
    → split_holiday_place (holiday_place country region) ≡ (country, region)
unfolding split_holiday_place holiday_place
split_holiday_place-holiday_place country region h =
    ground (arith, eq_iff region "", cut-append country region h, cut_whole country h)

valid_holiday_place-eq :
    (place : String)
    → valid_holiday_place place
      ≡ valid_in_country
          (find_country (split_holiday_place place).0 holidays_by_country)
          (split_holiday_place place).1
          (cut_dash place).2
unfolding valid_holiday_place
valid_holiday_place-eq place = refl

valid_holiday_place-read :
    (place country region : String) (rules : CountryRules)
    → find_country country holidays_by_country ≡ some rules
    → (split_holiday_place place).0 ≡ country
    → (split_holiday_place place).1 ≡ region
    → (cut_dash place).2 ≡ not (str_eq region "")
    → valid_holiday_place place
      ≡ (if str_eq region "" then not rules.region_required else contains_text rules.regions region)
valid_holiday_place-read place country region rules e p q d =
    valid_holiday_place-eq place ∙ rw (p, q, d, e) (unfold valid_in_country in ground arith)

module _ (country region : String) (h : HasNoDash country) where
  holiday_place-dash : (cut_dash (holiday_place country region)).2 ≡ not (str_eq region "")
  unfolding holiday_place
  holiday_place-dash = ground (arith, cut-append country region h, h)

  -- A place of a country that is kept is valid exactly as its rules say: without a region where
  -- none is required, else with one of the country's regions.
  pub valid_holiday_place-holiday_place :
      (rules : CountryRules)
      → find_country country holidays_by_country ≡ some rules
      → valid_holiday_place (holiday_place country region) ≡ (
          if str_eq region ""
          then not rules.region_required
          else contains_text rules.regions region)
  valid_holiday_place-holiday_place rules e =
      let read = split_holiday_place-holiday_place country region h in
      valid_holiday_place-read (holiday_place country region) country region rules e
        (ap (λ (p : String × String). p.0) read) (ap (λ (p : String × String). p.1) read)
        holiday_place-dash

region_back :
    (state : String)
    → str_eq state "" ≡ false
    → legacy_holiday_region (holiday_place "DE" state) ≡ state
unfolding legacy_holiday_region
region_back state named =
    rw (split_holiday_place-holiday_place "DE" state (unfold cut_dash in refl)) (ground arith)

state_not_empty :
    (state : String) → contains_text holidays_de.regions state ≡ true → str_eq state "" ≡ false
state_not_empty state h = elim (Bool-cases (str_eq state "")) [
  | inr other ↦ other
  | inl empty ↦
      let nowhere : contains_text holidays_de.regions "" ≡ false = unfold contains_text in refl in
      let known : contains_text holidays_de.regions "" ≡ true =
        subst (λ s. contains_text holidays_de.regions s ≡ true) ((eq_iff state "").0 empty) h in
      absurd (false≢true (sym nowhere ∙ known))
]

-- A German state's code as it was written before there were countries is read as a valid place of
-- Germany, and written back as that code for a client of then.
pub legacy_holiday_region-legacy_holiday_place :
    (state : String)
    → contains_text holidays_de.regions state ≡ true
    → (legacy_holiday_region (legacy_holiday_place state) ≡ state)
      × (valid_holiday_place (legacy_holiday_place state) ≡ true)
legacy_holiday_region-legacy_holiday_place state h =
    let named = state_not_empty state h in
    let known : find_country "DE" holidays_by_country ≡ some holidays_de =
      unfold find_country in refl in
    let written : legacy_holiday_place state ≡ holiday_place "DE" state =
      unfold legacy_holiday_place in rw h in
    rw written (
      region_back state named,
      valid_holiday_place-holiday_place "DE" state (unfold cut_dash in refl) holidays_de known
          ∙ rw (named, h),
    )
