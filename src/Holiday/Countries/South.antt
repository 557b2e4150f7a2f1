-- ===== src/Holiday/Countries/South.antt =====
-- The holiday tables of internal/domain/model/holiday_it.go, internal/domain/model/holiday_pt.go.
use go_time_recording.Base.{ℕ, false, none, List, [], ◌∷◌}
use go_time_recording.Base.Int.{pos, negsuc}
use go_time_recording.Holiday.Rules.{CountryRules, fixed, after_easter}
use go_time_recording.Holiday.Countries.Shapes.{always, within, rule}

abbrev pub holidays_it : CountryRules
holidays_it = record {
  regions = "BZ" ∷ [];
  region_required = false;
  rules =
      (always "newYear" (fixed 1 1)
        ∷ always "epiphany" (fixed 1 6)
        ∷ always "easterSunday" (after_easter (pos 0))
        ∷ always "easterMonday" (after_easter (pos 1))
        ∷ always "liberationDay" (fixed 4 25)
        ∷ always "labourDay" (fixed 5 1)
        ∷ within "whitMonday" (after_easter (pos 50)) ("BZ" ∷ []) 0 0
        ∷ within "republicDay" (fixed 6 2) ([]) 2001 0
        ∷ always "assumption" (fixed 8 15)
        ∷ within "stFrancisDay" (fixed 10 4) ([]) 2026 0
        ∷ always "allSaints" (fixed 11 1)
        ∷ always "immaculateConception" (fixed 12 8)
        ∷ always "christmasDay" (fixed 12 25)
        ∷ always "stStephensDay" (fixed 12 26)
        ∷ []);
  substitute = none;
}

abbrev pub suspended_in_portugal : List ℕ
suspended_in_portugal = 2013 ∷ 2014 ∷ 2015 ∷ []

abbrev pub holidays_pt : CountryRules
holidays_pt = record {
  regions = "20" ∷ "30" ∷ [];
  region_required = false;
  rules =
      (always "newYear" (fixed 1 1)
        ∷ always "goodFriday" (after_easter (negsuc 1))
        ∷ always "easterSunday" (after_easter (pos 0))
        ∷ always "freedomDay" (fixed 4 25)
        ∷ always "labourDay" (fixed 5 1)
        ∷ within "azoresDay" (after_easter (pos 50)) ("20" ∷ []) 0 0
        ∷ rule "corpusChristi" (after_easter (pos 60)) ([]) 0 0 (none) (suspended_in_portugal)
        ∷ always "nationalDay" (fixed 6 10)
        ∷ within "madeiraDay" (fixed 7 1) ("30" ∷ []) 0 0
        ∷ always "assumption" (fixed 8 15)
        ∷ rule "republicDay" (fixed 10 5) ([]) 0 0 (none) (suspended_in_portugal)
        ∷ rule "allSaints" (fixed 11 1) ([]) 0 0 (none) (suspended_in_portugal)
        ∷ rule "restorationOfIndependence" (fixed 12 1) ([]) 0 0 (none) (suspended_in_portugal)
        ∷ always "immaculateConception" (fixed 12 8)
        ∷ always "christmasDay" (fixed 12 25)
        ∷ within "stStephensDay" (fixed 12 26) ("30" ∷ []) 0 0
        ∷ []);
  substitute = none;
}
