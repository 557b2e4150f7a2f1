-- ===== src/Holiday/Countries/North.antt =====
-- The holiday tables of internal/domain/model/holiday_dk.go, internal/domain/model/holiday_fi.go,
-- internal/domain/model/holiday_no.go, internal/domain/model/holiday_se.go.
use go_time_recording.Base.{false, none, [], ◌∷◌}
use go_time_recording.Base.Int.{pos, negsuc}
use go_time_recording.Calendar.{friday, saturday}
use go_time_recording.Holiday.Rules.{CountryRules, fixed, after_easter, weekday_after}
use go_time_recording.Holiday.Countries.Shapes.{always, within}

abbrev pub holidays_dk : CountryRules
holidays_dk = record {
  regions = [];
  region_required = false;
  rules =
      (always "newYear" (fixed 1 1)
        ∷ always "maundyThursday" (after_easter (negsuc 2))
        ∷ always "goodFriday" (after_easter (negsuc 1))
        ∷ always "easterSunday" (after_easter (pos 0))
        ∷ always "easterMonday" (after_easter (pos 1))
        ∷ within "greatPrayerDay" (after_easter (pos 26)) ([]) 0 2023
        ∷ always "ascension" (after_easter (pos 39))
        ∷ always "whitSunday" (after_easter (pos 49))
        ∷ always "whitMonday" (after_easter (pos 50))
        ∷ always "christmasDay" (fixed 12 25)
        ∷ always "stStephensDay" (fixed 12 26)
        ∷ []);
  substitute = none;
}

abbrev pub holidays_fi : CountryRules
holidays_fi = record {
  regions = [];
  region_required = false;
  rules =
      (always "newYear" (fixed 1 1)
        ∷ always "epiphany" (fixed 1 6)
        ∷ always "goodFriday" (after_easter (negsuc 1))
        ∷ always "easterSunday" (after_easter (pos 0))
        ∷ always "easterMonday" (after_easter (pos 1))
        ∷ always "labourDay" (fixed 5 1)
        ∷ always "ascension" (after_easter (pos 39))
        ∷ always "whitSunday" (after_easter (pos 49))
        ∷ always "midsummerEve" (weekday_after friday 6 19)
        ∷ always "midsummerDay" (weekday_after saturday 6 20)
        ∷ always "allSaints" (weekday_after saturday 10 31)
        ∷ always "independenceDay" (fixed 12 6)
        ∷ always "christmasEve" (fixed 12 24)
        ∷ always "christmasDay" (fixed 12 25)
        ∷ always "stStephensDay" (fixed 12 26)
        ∷ []);
  substitute = none;
}

abbrev pub holidays_no : CountryRules
holidays_no = record {
  regions = [];
  region_required = false;
  rules =
      (always "newYear" (fixed 1 1)
        ∷ always "maundyThursday" (after_easter (negsuc 2))
        ∷ always "goodFriday" (after_easter (negsuc 1))
        ∷ always "easterSunday" (after_easter (pos 0))
        ∷ always "easterMonday" (after_easter (pos 1))
        ∷ always "labourDay" (fixed 5 1)
        ∷ always "constitutionDay" (fixed 5 17)
        ∷ always "ascension" (after_easter (pos 39))
        ∷ always "whitSunday" (after_easter (pos 49))
        ∷ always "whitMonday" (after_easter (pos 50))
        ∷ always "christmasDay" (fixed 12 25)
        ∷ always "stStephensDay" (fixed 12 26)
        ∷ []);
  substitute = none;
}

abbrev pub holidays_se : CountryRules
holidays_se = record {
  regions = [];
  region_required = false;
  rules =
      (always "newYear" (fixed 1 1)
        ∷ always "epiphany" (fixed 1 6)
        ∷ always "goodFriday" (after_easter (negsuc 1))
        ∷ always "easterSunday" (after_easter (pos 0))
        ∷ always "easterMonday" (after_easter (pos 1))
        ∷ always "labourDay" (fixed 5 1)
        ∷ always "ascension" (after_easter (pos 39))
        ∷ always "whitSunday" (after_easter (pos 49))
        ∷ within "whitMonday" (after_easter (pos 50)) ([]) 0 2004
        ∷ within "nationalDay" (fixed 6 6) ([]) 2005 0
        ∷ always "midsummerEve" (weekday_after friday 6 19)
        ∷ always "midsummerDay" (weekday_after saturday 6 20)
        ∷ always "allSaints" (weekday_after saturday 10 31)
        ∷ always "christmasEve" (fixed 12 24)
        ∷ always "christmasDay" (fixed 12 25)
        ∷ always "stStephensDay" (fixed 12 26)
        ∷ always "newYearsEve" (fixed 12 31)
        ∷ []);
  substitute = none;
}
