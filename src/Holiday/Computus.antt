-- ===== src/Holiday/Computus.antt =====
-- The paschal full moon by its definition: golden number, solar and lunar corrections, epact. The
-- reference that `easter_sunday` is held against, stated apart from the formulas of the source.
use go_time_recording.Base.{ℕ, ◌+◌, ◌-◌, ◌*◌, ◌/◌, ◌%◌, ltb, ◌==◌, ◌||◌, ◌&&◌, if◌then◌else◌}
use go_time_recording.Calendar.{Day, date}

-- Where a year stands in the cycle of 19 years, from 1.
abbrev pub golden_number : ℕ → ℕ
golden_number y = y % 19 + 1

abbrev pub century : ℕ → ℕ
century y = y / 100 + 1

-- The age of the moon at the new year, less one. The century leap years left out put it back (here
-- by adding 29 for each, modulo 30), and the moon's own eight days in 2500 years put it forward.
unfoldable pub epact : ℕ → ℕ
epact y =
    (11 * golden_number y + 20 + ((8 * century y + 5) / 25 + 25) + (29 * (3 * century y / 4) + 12))
    % 30

-- Epact 24, and 25 in the later part of the cycle, count as one more, so that no two years of a
-- cycle have the full moon on one day.
unfoldable pub corrected_epact : ℕ → ℕ
unfolding epact
corrected_epact y =
    if epact y == 24 || (epact y == 25 && ltb 11 (golden_number y)) then epact y + 1 else epact y

-- The first full moon from 21 March on, as a day counted in March.
unfoldable pub full_moon_in_march : ℕ → ℕ
full_moon_in_march y =
    if ltb (44 - corrected_epact y) 21 then 74 - corrected_epact y else 44 - corrected_epact y

unfoldable pub paschal_full_moon : ℕ → Day
paschal_full_moon y = date y 3 (full_moon_in_march y)
