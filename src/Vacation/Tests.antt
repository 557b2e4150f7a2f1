-- ===== src/Vacation/Tests.antt =====
-- Two entitlements, and a week of leave.
use mathlib.Core.Bool.{true, false}
use go_time_recording.Base.{ℕ, ◌*◌, ◌≡◌, ◌⊎◌, refl, Bool, List, [], ◌∷◌, keep}
use go_time_recording.Calendar.{Day, year}
use go_time_recording.Float.Decimal.{decimal}
use go_time_recording.Float.Totals.{no_totals}
use go_time_recording.Booking.Tests.{hour}
use go_time_recording.Absence.Tests.{week_away}
use go_time_recording.Vacation.{
  VacationEntitlement, entitlement_in, entitlement_loop, vacation_days,
}
use go_time_recording.Vacation.Laws.{IsLatest, NoneHolds, entitlement_in-IsLatest}
use go_time_recording.Vacation.Service.{tally}
use go_time_recording.Vacation.Service.Laws.{leave_of, is_taken, is_planned, tally-leave_of}

abbrev entitlements : List (VacationEntitlement ℕ)
entitlements =
    record { user_id = 1; from_year = 2024; days = 30 * hour }
    ∷ record { user_id = 1; from_year = 2020; days = 28 * hour }
    ∷ []

given : entitlement_in decimal 2023 entitlements ≡ (28 * hour, true)
unfolding entitlement_in entitlement_loop
given = refl

entitlement_in-IsLatest_example :
    ((entitlement_in decimal 2023 entitlements ≡ (0, false)) × NoneHolds 2023 entitlements)
    ⊎ ((e : VacationEntitlement ℕ) × IsLatest 2023 entitlements e
        × (entitlement_in decimal 2023 entitlements ≡ (e.days, true)))
entitlement_in-IsLatest_example = entitlement_in-IsLatest decimal 2023 entitlements

abbrev always : Day → Bool
always day = true

-- On the Wednesday of the week three days are taken and two planned.
tallied :
    ((tally decimal 738943 always week_away (no_totals decimal, no_totals decimal)).0 2024
      ≡ 3 * hour)
    × ((tally decimal 738943 always week_away (no_totals decimal, no_totals decimal)).1 2024
        ≡ 2 * hour)
unfolding tally vacation_days year
tallied = (refl, refl)

tally-leave_of_example :
    ((tally decimal 738943 always week_away (no_totals decimal, no_totals decimal)).0 2024
      ≡ leave_of decimal (keep (is_taken decimal 738943 always 2024) week_away) 0)
    × ((tally decimal 738943 always week_away (no_totals decimal, no_totals decimal)).1 2024
        ≡ leave_of decimal (keep (is_planned decimal 738943 always 2024) week_away) 0)
tally-leave_of_example =
    tally-leave_of decimal 738943 always 2024 week_away (no_totals decimal, no_totals decimal)
