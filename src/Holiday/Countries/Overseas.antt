-- ===== src/Holiday/Countries/Overseas.antt =====
-- The holiday tables of internal/domain/model/holiday_us.go.
use go_time_recording.Base.{false, some, [], ◌∷◌}
use go_time_recording.Calendar.{monday, thursday}
use go_time_recording.Holiday.Rules.{
  CountryRules, fixed, nth_weekday, last_weekday, nearest_weekday,
}
use go_time_recording.Holiday.Countries.Shapes.{always, within}

abbrev pub holidays_us : CountryRules
holidays_us = record {
  regions = [];
  region_required = false;
  rules =
      (always "newYear" (fixed 1 1)
        ∷ within "martinLutherKingDay" (nth_weekday 3 monday 1) ([]) 1986 0
        ∷ always "washingtonsBirthday" (nth_weekday 3 monday 2)
        ∷ always "memorialDay" (last_weekday monday 5)
        ∷ within "juneteenth" (fixed 6 19) ([]) 2021 0
        ∷ always "independenceDay" (fixed 7 4)
        ∷ always "labourDay" (nth_weekday 1 monday 9)
        ∷ always "columbusDay" (nth_weekday 2 monday 10)
        ∷ always "veteransDay" (fixed 11 11)
        ∷ always "thanksgiving" (nth_weekday 4 thursday 11)
        ∷ always "christmasDay" (fixed 12 25)
        ∷ []);
  substitute = some nearest_weekday;
}
