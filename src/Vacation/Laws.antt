-- ===== src/Vacation/Laws.antt =====
-- Which entitlement holds in a year.
use Prim.Native.Nat.{ℕ}
use go_time_recording.Base.{
  ◌≡◌, ◌≤◌, ◌<◌, ◌⊎◌, inl, inr, refl, arith, Bool, true, false, List, [], ◌∷◌, All, leb, ltb, ◌&&◌,
  ◌||◌, not, Bool-cases,
}
use mathlib.Core.List.{Memᴰ}
use mathlib.Core.List.Memᴰ.{head, tail}
use go_time_recording.Float.{Float64}
use go_time_recording.Vacation.{VacationEntitlement, entitlement_loop, entitlement_in}

module _ {H : Type 0} where
  -- No entitlement that holds in the year is from a later one than the year given.
  abbrev NoneLater : ℕ → ℕ → List (VacationEntitlement H) → Type 0
  NoneLater year from es = All (λ e. e.from_year ≤ year → e.from_year ≤ from) es

  -- The latest entitlement of a year or before.
  pub record IsLatest (year : ℕ) (es : List (VacationEntitlement H)) (e : VacationEntitlement H)
      : Type 0 where
    pub listed : Memᴰ e es
    pub holds : e.from_year ≤ year
    pub none_later : NoneLater year e.from_year es

  IsLatest-behind :
      (year : ℕ) (e x : VacationEntitlement H) (rest : List (VacationEntitlement H))
      → IsLatest year rest x
      → (e.from_year ≤ year → e.from_year ≤ x.from_year)
      → IsLatest year (e ∷ rest) x
  IsLatest-behind year e x rest latest le = record {
    listed = tail latest.listed;
    holds = latest.holds;
    none_later = (le, latest.none_later);
  }

  IsLatest-first :
      (year : ℕ) (e : VacationEntitlement H) (rest : List (VacationEntitlement H))
      → e.from_year ≤ year
      → NoneLater year e.from_year rest
      → IsLatest year (e ∷ rest) e
  IsLatest-first year e rest le none_later = record {
    listed = head refl;
    holds = le;
    none_later = ((λ h. omega arith), none_later);
  }

  -- What the loop answers once it has found something.
  abbrev Found : ℕ → List (VacationEntitlement H) → H → ℕ → H × Bool → Type 0
  Found year es days from answer =
      ((answer ≡ (days, true)) × NoneLater year from es)
      ⊎ ((e : VacationEntitlement H) × IsLatest year es e
          × (from < e.from_year)
          × (answer ≡ (e.days, true)))

  found_newer :
      (year : ℕ) (e : VacationEntitlement H) (rest : List (VacationEntitlement H)) (days : H)
      (from : ℕ) (answer : H × Bool)
      → e.from_year ≤ year
      → from < e.from_year
      → Found year rest e.days e.from_year answer
      → Found year (e ∷ rest) days from answer
  found_newer year e rest days from answer le newer found = elim found [
    | inl (same, none_later) ↦ inr (e, IsLatest-first year e rest le none_later, newer, same)
    | inr (x, latest, later, same) ↦
        inr (x, IsLatest-behind year e x rest latest (λ h. omega arith), omega arith, same)
  ]

  found_older :
      (year : ℕ) (e : VacationEntitlement H) (rest : List (VacationEntitlement H)) (days : H)
      (from : ℕ) (answer : H × Bool)
      → (e.from_year ≤ year → e.from_year ≤ from)
      → Found year rest days from answer
      → Found year (e ∷ rest) days from answer
  found_older year e rest days from answer older found = elim found [
    | inl (same, none_later) ↦ inl (same, (older, none_later))
    | inr (x, latest, later, same) ↦
        inr (x, IsLatest-behind year e x rest latest (λ h. omega (arith, older h)), later, same)
  ]

  loop-Found :
      (year : ℕ) (es : List (VacationEntitlement H)) (days : H) (from : ℕ)
      → Found year es days from (entitlement_loop year es days true from)
  unfolding entitlement_loop
  loop-Found year [] days from = inl (refl, tt)
  loop-Found year (e ∷ rest) days from =
      elim (Bool-cases (leb e.from_year year && (not true || ltb from e.from_year))) [
        | inl newer ↦ rw newer (
            found_newer year e rest days from _ (ground arith) (ground arith)
              (loop-Found year rest e.days e.from_year))
        | inr older ↦ rw older (
            found_older year e rest days from _ (λ le. ground arith)
              (loop-Found year rest days from))
      ]

  abbrev pub NoneHolds : ℕ → List (VacationEntitlement H) → Type 0
  NoneHolds year es = All (λ e. year < e.from_year) es

  -- What the loop answers from its start.
  abbrev pub Answers : ℕ → List (VacationEntitlement H) → H → H × Bool → Type 0
  Answers year es nothing answer =
      ((answer ≡ (nothing, false)) × NoneHolds year es)
      ⊎ ((e : VacationEntitlement H) × IsLatest year es e × (answer ≡ (e.days, true)))

  Answers-first :
      (year : ℕ) (e : VacationEntitlement H) (rest : List (VacationEntitlement H)) (nothing : H)
      (answer : H × Bool)
      → e.from_year ≤ year
      → Found year rest e.days e.from_year answer
      → Answers year (e ∷ rest) nothing answer
  Answers-first year e rest nothing answer le found = elim found [
    | inl (same, none_later) ↦ inr (e, IsLatest-first year e rest le none_later, same)
    | inr (x, latest, later, same) ↦
        inr (x, IsLatest-behind year e x rest latest (λ h. omega arith), same)
  ]

  Answers-behind :
      (year : ℕ) (e : VacationEntitlement H) (rest : List (VacationEntitlement H)) (nothing : H)
      (answer : H × Bool)
      → year < e.from_year
      → Answers year rest nothing answer
      → Answers year (e ∷ rest) nothing answer
  Answers-behind year e rest nothing answer lt answers = elim answers [
    | inl (same, none_holds) ↦ inl (same, (lt, none_holds))
    | inr (x, latest, same) ↦
        inr (x, IsLatest-behind year e x rest latest (λ h. absurd (omega arith)), same)
  ]

  loop-Answers :
      (year : ℕ) (es : List (VacationEntitlement H)) (nothing : H)
      → Answers year es nothing (entitlement_loop year es nothing false 0)
  unfolding entitlement_loop
  loop-Answers year [] nothing = inl (refl, tt)
  loop-Answers year (e ∷ rest) nothing =
      elim (Bool-cases (leb e.from_year year && (not false || ltb 0 e.from_year))) [
        | inl holds ↦ rw holds (
            Answers-first year e rest nothing _ (ground arith)
              (loop-Found year rest e.days e.from_year))
        | inr later ↦
            rw later
              (Answers-behind year e rest nothing _ (ground arith) (loop-Answers year rest nothing))
      ]

-- The leave of a year is that of the latest entitlement from that year or before, in whatever order
-- the entitlements come; where each is from a later year, there is none.
pub entitlement_in-IsLatest :
    (F : Float64) (year : ℕ) (es : List (VacationEntitlement F.Number))
    → ((entitlement_in F year es ≡ (F.zero_hours, false)) × NoneHolds year es)
      ⊎ ((e : VacationEntitlement F.Number) × IsLatest year es e
          × (entitlement_in F year es ≡ (e.days, true)))
unfolding entitlement_in
entitlement_in-IsLatest F year es = loop-Answers year es F.zero_hours
