-- ===== src/Holiday/Countries/Central.antt =====
-- The holiday tables of internal/domain/model/holiday_at.go, internal/domain/model/holiday_cz.go,
-- internal/domain/model/holiday_de.go, internal/domain/model/holiday_pl.go.
use go_time_recording.Base.{ℕ, true, false, none, some, [], ◌∷◌}
use go_time_recording.Base.Int.{pos, negsuc}
use go_time_recording.Calendar.{Day, date, wednesday}
use go_time_recording.Holiday.Rules.{CountryRules, fixed, after_easter, seek_back}
use go_time_recording.Holiday.Countries.Shapes.{always, within, rule}

abbrev pub holidays_at : CountryRules
holidays_at = record {
  regions = [];
  region_required = false;
  rules =
      (always "newYear" (fixed 1 1)
        ∷ always "epiphany" (fixed 1 6)
        ∷ always "easterSunday" (after_easter (pos 0))
        ∷ always "easterMonday" (after_easter (pos 1))
        ∷ always "labourDay" (fixed 5 1)
        ∷ always "ascension" (after_easter (pos 39))
        ∷ always "whitSunday" (after_easter (pos 49))
        ∷ always "whitMonday" (after_easter (pos 50))
        ∷ always "corpusChristi" (after_easter (pos 60))
        ∷ always "assumption" (fixed 8 15)
        ∷ within "nationalDay" (fixed 10 26) ([]) 1967 0
        ∷ always "allSaints" (fixed 11 1)
        ∷ always "immaculateConception" (fixed 12 8)
        ∷ always "christmasDay" (fixed 12 25)
        ∷ always "stStephensDay" (fixed 12 26)
        ∷ []);
  substitute = none;
}

abbrev pub holidays_cz : CountryRules
holidays_cz = record {
  regions = [];
  region_required = false;
  rules =
      (always "newYear" (fixed 1 1)
        ∷ within "goodFriday" (after_easter (negsuc 1)) ([]) 2016 0
        ∷ always "easterMonday" (after_easter (pos 1))
        ∷ always "labourDay" (fixed 5 1)
        ∷ always "liberationDay" (fixed 5 8)
        ∷ always "cyrilAndMethodiusDay" (fixed 7 5)
        ∷ always "janHusDay" (fixed 7 6)
        ∷ always "statehoodDay" (fixed 9 28)
        ∷ always "independenceDay" (fixed 10 28)
        ∷ always "freedomAndDemocracyDay" (fixed 11 17)
        ∷ always "christmasEve" (fixed 12 24)
        ∷ always "christmasDay" (fixed 12 25)
        ∷ always "stStephensDay" (fixed 12 26)
        ∷ []);
  substitute = none;
}

-- The Wednesday before 23 November.
unfoldable pub repentance_day : ℕ → Day
repentance_day y = seek_back 6 wednesday (date y 11 22)

abbrev pub holidays_de : CountryRules
holidays_de = record {
  regions =
      "BW" ∷ "BY" ∷ "BE" ∷ "BB" ∷ "HB" ∷ "HH" ∷ "HE" ∷ "MV" ∷ "NI" ∷ "NW" ∷ "RP" ∷ "SL" ∷ "SN"
      ∷ "ST" ∷ "SH" ∷ "TH" ∷ [];
  region_required = true;
  rules =
      (always "newYear" (fixed 1 1)
        ∷ within "epiphany" (fixed 1 6) ("BW" ∷ "BY" ∷ "ST" ∷ []) 0 0
        ∷ within "womensDay" (fixed 3 8) ("BE" ∷ []) 2019 0
        ∷ within "womensDay" (fixed 3 8) ("MV" ∷ []) 2023 0
        ∷ always "goodFriday" (after_easter (negsuc 1))
        ∷ within "easterSunday" (after_easter (pos 0)) ("BB" ∷ []) 0 0
        ∷ always "easterMonday" (after_easter (pos 1))
        ∷ always "labourDay" (fixed 5 1)
        ∷ rule "liberationDay" (fixed 5 8) ("BE" ∷ []) 0 0 (some (2020 ∷ 2025 ∷ [])) ([])
        ∷ always "ascension" (after_easter (pos 39))
        ∷ within "whitSunday" (after_easter (pos 49)) ("BB" ∷ []) 0 0
        ∷ always "whitMonday" (after_easter (pos 50))
        ∷ within "corpusChristi" (after_easter (pos 60))
            ("BW" ∷ "BY" ∷ "HE" ∷ "NW" ∷ "RP" ∷ "SL" ∷ []) 0 0
        ∷ rule "uprisingDay" (fixed 6 17) ("BE" ∷ []) 0 0 (some (2028 ∷ [])) ([])
        ∷ within "assumption" (fixed 8 15) ("SL" ∷ []) 0 0
        ∷ within "childrensDay" (fixed 9 20) ("TH" ∷ []) 2019 0
        ∷ within "germanUnity" (fixed 10 3) ([]) 1990 0
        ∷ within "reformationDay" (fixed 10 31) ("BB" ∷ "MV" ∷ "SN" ∷ "ST" ∷ "TH" ∷ []) 0 0
        ∷ within "reformationDay" (fixed 10 31) ("HB" ∷ "HH" ∷ "NI" ∷ "SH" ∷ []) 2018 0
        ∷ rule "reformationDay" (fixed 10 31) ([]) 0 0 (some (2017 ∷ [])) ([])
        ∷ within "allSaints" (fixed 11 1) ("BW" ∷ "BY" ∷ "NW" ∷ "RP" ∷ "SL" ∷ []) 0 0
        ∷ within "repentanceDay" (repentance_day) ("SN" ∷ []) 0 0
        ∷ within "repentanceDay" (repentance_day) ([]) 0 1994
        ∷ always "christmasDay" (fixed 12 25)
        ∷ always "stStephensDay" (fixed 12 26)
        ∷ []);
  substitute = none;
}

abbrev pub holidays_pl : CountryRules
holidays_pl = record {
  regions = [];
  region_required = false;
  rules =
      (always "newYear" (fixed 1 1)
        ∷ within "epiphany" (fixed 1 6) ([]) 2011 0
        ∷ always "easterSunday" (after_easter (pos 0))
        ∷ always "easterMonday" (after_easter (pos 1))
        ∷ always "labourDay" (fixed 5 1)
        ∷ always "constitutionDay" (fixed 5 3)
        ∷ always "whitSunday" (after_easter (pos 49))
        ∷ always "corpusChristi" (after_easter (pos 60))
        ∷ always "assumption" (fixed 8 15)
        ∷ always "allSaints" (fixed 11 1)
        ∷ always "independenceDay" (fixed 11 11)
        ∷ within "christmasEve" (fixed 12 24) ([]) 2025 0
        ∷ always "christmasDay" (fixed 12 25)
        ∷ always "stStephensDay" (fixed 12 26)
        ∷ []);
  substitute = none;
}
