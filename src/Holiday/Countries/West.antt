-- ===== src/Holiday/Countries/West.antt =====
-- The holiday tables of internal/domain/model/holiday_be.go, internal/domain/model/holiday_fr.go,
-- internal/domain/model/holiday_gb.go, internal/domain/model/holiday_ie.go,
-- internal/domain/model/holiday_lu.go, internal/domain/model/holiday_nl.go.
use go_time_recording.Base.{ℕ, ◌-◌, true, false, none, some, [], ◌∷◌, ◌==◌, if◌then◌else◌}
use go_time_recording.Base.Int.{pos, negsuc}
use go_time_recording.Calendar.{Day, date, weekday, sunday, monday, friday}
use go_time_recording.Holiday.Rules.{
  CountryRules, fixed, after_easter, nth_weekday, last_weekday, weekday_from, next_free_weekday,
}
use go_time_recording.Holiday.Countries.Shapes.{always, within, rule}

abbrev pub holidays_be : CountryRules
holidays_be = record {
  regions = [];
  region_required = false;
  rules =
      (always "newYear" (fixed 1 1)
        ∷ always "easterMonday" (after_easter (pos 1))
        ∷ always "labourDay" (fixed 5 1)
        ∷ always "ascension" (after_easter (pos 39))
        ∷ always "whitMonday" (after_easter (pos 50))
        ∷ always "nationalDay" (fixed 7 21)
        ∷ always "assumption" (fixed 8 15)
        ∷ always "allSaints" (fixed 11 1)
        ∷ always "armisticeDay" (fixed 11 11)
        ∷ always "christmasDay" (fixed 12 25)
        ∷ []);
  substitute = none;
}

abbrev pub holidays_fr : CountryRules
holidays_fr = record {
  regions = "6AE" ∷ "57" ∷ [];
  region_required = false;
  rules =
      (always "newYear" (fixed 1 1)
        ∷ within "goodFriday" (after_easter (negsuc 1)) ("6AE" ∷ "57" ∷ []) 0 0
        ∷ always "easterMonday" (after_easter (pos 1))
        ∷ always "labourDay" (fixed 5 1)
        ∷ within "victoryInEurope" (fixed 5 8) ([]) 1982 0
        ∷ always "ascension" (after_easter (pos 39))
        ∷ always "whitMonday" (after_easter (pos 50))
        ∷ always "nationalDay" (fixed 7 14)
        ∷ always "assumption" (fixed 8 15)
        ∷ always "allSaints" (fixed 11 1)
        ∷ always "armisticeDay" (fixed 11 11)
        ∷ always "christmasDay" (fixed 12 25)
        ∷ within "stStephensDay" (fixed 12 26) ("6AE" ∷ "57" ∷ []) 0 0
        ∷ []);
  substitute = none;
}

abbrev pub holidays_gb : CountryRules
holidays_gb = record {
  regions = "ENG" ∷ "WLS" ∷ "SCT" ∷ "NIR" ∷ [];
  region_required = true;
  rules =
      (always "newYear" (fixed 1 1)
        ∷ within "secondJanuary" (fixed 1 2) ("SCT" ∷ []) 0 0
        ∷ within "stPatricksDay" (fixed 3 17) ("NIR" ∷ []) 0 0
        ∷ always "goodFriday" (after_easter (negsuc 1))
        ∷ within "easterMonday" (after_easter (pos 1)) ("ENG" ∷ "WLS" ∷ "NIR" ∷ []) 0 0
        ∷ rule "earlyMayBankHoliday" (nth_weekday 1 monday 5) ([]) 1978 0 (none) (2020 ∷ [])
        ∷ rule "earlyMayBankHoliday" (fixed 5 8) ([]) 0 0 (some (2020 ∷ [])) ([])
        ∷ rule "springBankHoliday" (last_weekday monday 5) ([]) 0 0 (none) (2012 ∷ 2022 ∷ [])
        ∷ rule "springBankHoliday" (fixed 6 4) ([]) 0 0 (some (2012 ∷ [])) ([])
        ∷ rule "springBankHoliday" (fixed 6 2) ([]) 0 0 (some (2022 ∷ [])) ([])
        ∷ within "battleOfTheBoyne" (fixed 7 12) ("NIR" ∷ []) 0 0
        ∷ within "summerBankHoliday" (nth_weekday 1 monday 8) ("SCT" ∷ []) 0 0
        ∷ within "summerBankHoliday" (last_weekday monday 8) ("ENG" ∷ "WLS" ∷ "NIR" ∷ []) 0 0
        ∷ within "stAndrewsDay" (fixed 11 30) ("SCT" ∷ []) 2007 0
        ∷ always "christmasDay" (fixed 12 25)
        ∷ always "stStephensDay" (fixed 12 26)
        ∷ rule "royalWedding" (fixed 4 29) ([]) 0 0 (some (2011 ∷ [])) ([])
        ∷ rule "diamondJubilee" (fixed 6 5) ([]) 0 0 (some (2012 ∷ [])) ([])
        ∷ rule "platinumJubilee" (fixed 6 3) ([]) 0 0 (some (2022 ∷ [])) ([])
        ∷ rule "stateFuneral" (fixed 9 19) ([]) 0 0 (some (2022 ∷ [])) ([])
        ∷ rule "coronation" (fixed 5 8) ([]) 0 0 (some (2023 ∷ [])) ([])
        ∷ rule "worldCup" (fixed 6 15) ("SCT" ∷ []) 0 0 (some (2026 ∷ [])) ([])
        ∷ []);
  substitute = some next_free_weekday;
}

unfoldable pub st_brigids_day : ℕ → Day
st_brigids_day y =
    if weekday (date y 2 1) == friday then date y 2 1 else weekday_from monday (date y 2 1)

abbrev pub holidays_ie : CountryRules
holidays_ie = record {
  regions = [];
  region_required = false;
  rules =
      (always "newYear" (fixed 1 1)
        ∷ within "stBrigidsDay" (st_brigids_day) ([]) 2023 0
        ∷ always "stPatricksDay" (fixed 3 17)
        ∷ rule "dayOfRemembrance" (fixed 3 18) ([]) 0 0 (some (2022 ∷ [])) ([])
        ∷ always "easterMonday" (after_easter (pos 1))
        ∷ within "mayBankHoliday" (nth_weekday 1 monday 5) ([]) 1994 0
        ∷ always "juneBankHoliday" (nth_weekday 1 monday 6)
        ∷ always "augustBankHoliday" (nth_weekday 1 monday 8)
        ∷ within "octoberBankHoliday" (last_weekday monday 10) ([]) 1977 0
        ∷ always "christmasDay" (fixed 12 25)
        ∷ always "stStephensDay" (fixed 12 26)
        ∷ []);
  substitute = none;
}

abbrev pub holidays_lu : CountryRules
holidays_lu = record {
  regions = [];
  region_required = false;
  rules =
      (always "newYear" (fixed 1 1)
        ∷ always "easterMonday" (after_easter (pos 1))
        ∷ always "labourDay" (fixed 5 1)
        ∷ within "europeDay" (fixed 5 9) ([]) 2019 0
        ∷ always "ascension" (after_easter (pos 39))
        ∷ always "whitMonday" (after_easter (pos 50))
        ∷ always "nationalDay" (fixed 6 23)
        ∷ always "assumption" (fixed 8 15)
        ∷ always "allSaints" (fixed 11 1)
        ∷ always "christmasDay" (fixed 12 25)
        ∷ always "stStephensDay" (fixed 12 26)
        ∷ []);
  substitute = none;
}

unfoldable pub saturday_for_sunday : ℕ → ℕ → ℕ → Day
saturday_for_sunday month day y =
    if weekday (date y month day) == sunday then date y month day - 1 else date y month day

abbrev pub holidays_nl : CountryRules
holidays_nl = record {
  regions = [];
  region_required = false;
  rules =
      (always "newYear" (fixed 1 1)
        ∷ always "easterSunday" (after_easter (pos 0))
        ∷ always "easterMonday" (after_easter (pos 1))
        ∷ within "queensDay" (saturday_for_sunday 4 30) ([]) 1980 2013
        ∷ within "kingsDay" (saturday_for_sunday 4 27) ([]) 2014 0
        ∷ always "ascension" (after_easter (pos 39))
        ∷ always "whitSunday" (after_easter (pos 49))
        ∷ always "whitMonday" (after_easter (pos 50))
        ∷ always "christmasDay" (fixed 12 25)
        ∷ always "stStephensDay" (fixed 12 26)
        ∷ []);
  substitute = none;
}
