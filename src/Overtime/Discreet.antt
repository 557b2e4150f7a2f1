-- ===== src/Overtime/Discreet.antt =====
-- What others see of somebody's days: `SeenBy` and `DaysSeenBy` of
-- internal/application/v1/service/overtime_application_service.go. A viewer is the id of the account
-- that looks, where there is one.
use go_time_recording.Base.{
  ℕ, ◌≡◌, ◌≢◌, ◌∙◌, ◌⊎◌, inl, inr, refl, ap, arith, Bool, true, false, not, ◌&&◌, Option, none,
  some, List, [], ◌∷◌, String, ◌==◌, str_eq, if◌then◌else◌, map, All, Bool-cases,
}
use go_time_recording.User.{User}
use go_time_recording.Absence.{absence_undisclosed}
use go_time_recording.Overtime.Balance.{OvertimeDay, OvertimeBalance}
use go_time_recording.Overtime.Days.{RangeDay}

unfoldable pub reasons_hidden_from : Option ℕ → ℕ → Bool
reasons_hidden_from none owner = false
reasons_hidden_from (some viewer) owner = not (viewer == 0) && not (viewer == owner)

unfoldable pub undisclosed : String → String
undisclosed kind = if str_eq kind "" then "" else absence_undisclosed

-- A day told without a reason.
abbrev pub TellsNoReason : String → Type 0
TellsNoReason kind = (kind ≡ "") ⊎ (kind ≡ absence_undisclosed)

abbrev pub is_away : String → Bool
is_away kind = not (str_eq kind "")

undisclosed_lem :
    (kind : String) → TellsNoReason (undisclosed kind) × (is_away (undisclosed kind) ≡ is_away kind)
unfolding undisclosed
undisclosed_lem kind = elim (Bool-cases (str_eq kind "")) [
  | inl present ↦ rw present (inl refl, refl)
  | inr away ↦ rw away (inr refl, refl)
]

-- Who reads the reasons: the owner, and whoever looks where there are no accounts.
abbrev pub ReadsReasons : Option ℕ → ℕ → Type 0
ReadsReasons viewer owner = (viewer ≡ none) ⊎ ((viewer ≡ some 0) ⊎ (viewer ≡ some owner))

-- Somebody else, with an account of their own.
abbrev pub IsStranger : Option ℕ → ℕ → Type 0
IsStranger viewer owner = (v : ℕ) × (viewer ≡ some v) × (v ≢ 0) × (v ≢ owner)

reasons_hidden_from-cases :
    (viewer : Option ℕ) (owner : ℕ)
    → ((reasons_hidden_from viewer owner ≡ false) × ReadsReasons viewer owner)
      ⊎ ((reasons_hidden_from viewer owner ≡ true) × IsStranger viewer owner)
unfolding reasons_hidden_from
reasons_hidden_from-cases none owner = inl (refl, inl refl)
reasons_hidden_from-cases (some v) owner = elim (Bool-cases (v == 0)) [
  | inl nobody ↦ inl (ground (arith, nobody), inr (inl (ap some (ground (arith, nobody)))))
  | inr signed_in ↦ elim (Bool-cases (v == owner)) [
    | inl own ↦ inl (ground (arith, signed_in, own), inr (inr (ap some (ground (arith, own)))))
    | inr other ↦ inr (
      ground (arith, signed_in, other),
      (v, refl, ground (arith, signed_in), ground (arith, other)),
    )
  ]
]

module _ {H : Type 0} where
  abbrev pub hide_all : List (OvertimeDay H) → List (OvertimeDay H)
  hide_all [] = []
  hide_all (d ∷ rest) = record d { absence = undisclosed d.absence } ∷ hide_all rest

  unfoldable pub seen_by : Option ℕ → OvertimeBalance H → OvertimeBalance H
  seen_by viewer b =
      if not (reasons_hidden_from viewer b.user_id) then b else record b { days = hide_all b.days }

  abbrev pub hide_days : List (RangeDay H) → List (RangeDay H)
  hide_days [] = []
  hide_days (d ∷ rest) = record d { absence = undisclosed d.absence } ∷ hide_days rest

  unfoldable pub days_seen_by : List (RangeDay H) → User H → Option ℕ → List (RangeDay H)
  days_seen_by days owner viewer =
      if not (reasons_hidden_from viewer owner.id) then days else hide_days days

  -- The figures of a day, without why it asked what it did.
  abbrev pub figures_of : OvertimeDay H → OvertimeDay H
  figures_of d = record d { absence = "" }

  abbrev pub away_days : List (OvertimeDay H) → List Bool
  away_days ds = map (λ d. is_away d.absence) ds

  hide_all_lem :
      (ds : List (OvertimeDay H))
      → All (λ d. TellsNoReason d.absence) (hide_all ds)
        × (away_days (hide_all ds) ≡ away_days ds)
        × (map figures_of (hide_all ds) ≡ map figures_of ds)
  hide_all_lem [] = (tt, refl, refl)
  hide_all_lem (d ∷ ds) =
      let (told, away, same) = hide_all_lem ds in
      let (no_reason, still_away) = undisclosed_lem d.absence in
      (
        (no_reason, told),
        ap (λ a. a ∷ away_days (hide_all ds)) still_away ∙ ap (◌∷◌ (is_away d.absence)) away,
        ap (◌∷◌ (figures_of d)) same,
      )

  -- The owner of a balance sees it whole, and so does whoever looks where there are no accounts.
  -- Anybody else reads from it on which days its owner was away, but of no day why; all the figures,
  -- the days and the holidays are the owner's own.
  pub seen_by_lem :
      (viewer : Option ℕ) (b : OvertimeBalance H)
      → (ReadsReasons viewer b.user_id × (seen_by viewer b ≡ b))
        ⊎ (IsStranger viewer b.user_id
            × All (λ d. TellsNoReason d.absence) (seen_by viewer b).days
            × (away_days (seen_by viewer b).days ≡ away_days b.days)
            × (map figures_of (seen_by viewer b).days ≡ map figures_of b.days)
            × (record (seen_by viewer b) { days = b.days } ≡ b))
  unfolding seen_by
  seen_by_lem viewer b = elim (reasons_hidden_from-cases viewer b.user_id) [
    | inl (shown, reads) ↦ rw shown (inl (reads, refl))
    | inr (hidden, stranger) ↦
        let (told, away, same) = hide_all_lem b.days in
        rw hidden (inr (stranger, told, away, same, refl))
  ]
