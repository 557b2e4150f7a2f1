-- ===== src/Base/Keyed/Runs.antt =====
-- A sequence of saves and deletions, on the list and on the finite map that it stands for.
use Prim.Native.Nat.{ℕ}
use mathlib.Core.Bool.{Bool, ◌&&◌}
use mathlib.Core.Path.{◌≡◌, refl, ap, ◌∙◌}
use mathlib.Core.Option.{Option, none, some}
use mathlib.Core.List.{List, [], ◌∷◌}
use go_time_recording.Base.Tests.{◌==◌, if◌then◌else◌}
use go_time_recording.Base.Keyed.{put, take_out, find, IsKeyed}
use go_time_recording.Base.Keyed.Laws.{
  is_there, find-put, put-IsKeyed, find-take_out, take_out-found, take_out-IsKeyed,
}

pub data Change {ℓ} (A : Type ℓ) : Type ℓ where
  saved : A → Change A
  deleted : ℕ → ℕ → Change A

-- The abstract contract: a finite map from owner and key to a record.
abbrev pub Contents {ℓ} : Type ℓ → Type ℓ
Contents A = ℕ → ℕ → Option A

module _ {ℓ} {A : Type ℓ} (owner key : A → ℕ) where
  -- The list after the changes, and what each deletion answered.
  abbrev pub run : List (Change A) → List A → List A
  run [] xs = xs
  run (saved x ∷ rest) xs = run rest (put owner key x xs)
  run (deleted u k ∷ rest) xs = run rest (take_out owner key u k xs).1

  abbrev pub answers : List (Change A) → List A → List Bool
  answers [] xs = []
  answers (saved x ∷ rest) xs = answers rest (put owner key x xs)
  answers (deleted u k ∷ rest) xs =
      (take_out owner key u k xs).0 ∷ answers rest (take_out owner key u k xs).1

  abbrev pub written : A → Contents A → Contents A
  written x m u k = if owner x == u && key x == k then some x else m u k

  abbrev pub erased : ℕ → ℕ → Contents A → Contents A
  erased v l m u k = if v == u && l == k then none else m u k

  abbrev pub map_run : List (Change A) → Contents A → Contents A
  map_run [] m = m
  map_run (saved x ∷ rest) m = map_run rest (written x m)
  map_run (deleted u k ∷ rest) m = map_run rest (erased u k m)

  abbrev pub map_answers : List (Change A) → Contents A → List Bool
  map_answers [] m = []
  map_answers (saved x ∷ rest) m = map_answers rest (written x m)
  map_answers (deleted u k ∷ rest) m = is_there (m u k) ∷ map_answers rest (erased u k m)

  -- The list stands for the map.
  abbrev pub StandsFor : List A → Contents A → Type ℓ
  StandsFor xs m = IsKeyed owner key xs × ((u k : ℕ) → find owner key u k xs ≡ m u k)

  put-StandsFor :
      (x : A) (xs : List A) (m : Contents A)
      → StandsFor xs m
      → StandsFor (put owner key x xs) (written x m)
  put-StandsFor x xs m h = (
    put-IsKeyed owner key x xs h.0,
    λ u k.
        find-put owner key x xs u k
        ∙ ap (λ o. if owner x == u && key x == k then some x else o) (h.1 u k),
  )

  take_out-StandsFor :
      (v l : ℕ) (xs : List A) (m : Contents A)
      → StandsFor xs m
      → StandsFor (take_out owner key v l xs).1 (erased v l m)
  take_out-StandsFor v l xs m h = (
    take_out-IsKeyed owner key v l xs h.0,
    λ u k.
        find-take_out owner key v l xs u k h.0
        ∙ ap (λ o. if v == u && l == k then none else o) (h.1 u k),
  )

  pub run_refines :
      (changes : List (Change A)) (xs : List A) (m : Contents A)
      → StandsFor xs m
      → StandsFor (run changes xs) (map_run changes m)
        × (answers changes xs ≡ map_answers changes m)
  run_refines [] xs m h = (h, refl)
  run_refines (saved x ∷ rest) xs m h =
      run_refines rest (put owner key x xs) (written x m) (put-StandsFor x xs m h)
  run_refines (deleted u k ∷ rest) xs m h =
      let (stands, same) =
        run_refines rest (take_out owner key u k xs).1 (erased u k m)
          (take_out-StandsFor u k xs m h) in
      (
        stands,
        ap (λ b. b ∷ answers rest (take_out owner key u k xs).1)
              (take_out-found owner key u k xs ∙ ap is_there (h.1 u k))
            ∙ ap (λ l. is_there (m u k) ∷ l) same,
      )
