-- ===== src/Calendar/Rising.antt =====
-- Lists of days in strict order, which their members determine.
use native.Mathlib.Decide.{ℕ_discrete}
use mathlib.Core.Path.{subst, sym}
use go_time_recording.Base.{
  ℕ, zero, suc, ◌+◌, ◌-◌, ◌≤◌, ◌<◌, ◌≡◌, ◌≢◌, ◌∙◌, ap, refl, arith, Bool, false, ◌&&◌, List, [],
  ◌∷◌, ltb, keep, map, All, All-keep, Bool-cases, inl, inr,
}
use go_time_recording.Base.Sort.{insert_by, sort_by, IsSorted, sort_by-IsSorted}
use go_time_recording.Base.Distinct.{IsDistinct, sort_by-IsDistinct}
use go_time_recording.Calendar.{Day}
use go_time_recording.Calendar.Range.{days_up, days_of, among}

abbrev pub the_day : Day → ℕ
the_day day = day

abbrev pub IsRising : List Day → Type 0
IsRising [] = Unit
IsRising (d ∷ ds) = All (λ e. d < e) ds × IsRising ds

among-below : (d : Day) (ds : List Day) → All (λ e. d < e) ds → among d ds ≡ false
among-below d [] h = refl
among-below d (e ∷ ds) h = ground (arith, among-below d ds h.1)

All-below : (d e : Day) (ds : List Day) → d ≤ e → All (λ x. e < x) ds → All (λ x. d < x) ds
All-below d e [] le h = tt
All-below d e (x ∷ xs) le h = (omega arith, All-below d e xs le h.1)

among-tail :
    (x : Day) (xs ys : List Day)
    → All (λ e. x < e) xs
    → All (λ e. x < e) ys
    → ((d : Day) → among d (x ∷ xs) ≡ among d (x ∷ ys))
    → (d : Day) → among d xs ≡ among d ys
among-tail x xs ys above above' same d = elim (ℕ_discrete d x) [
  | yes here ↦ rw here (among-below x xs above ∙ sym (among-below x ys above'))
  | no other ↦ ground (arith, same d)
]

pub rising_same :
    (xs ys : List Day) → IsRising xs → IsRising ys → ((d : Day) → among d xs ≡ among d ys) → xs ≡ ys
rising_same [] [] r r' same = refl
rising_same [] (y ∷ ys) r r' same = ground (arith, same y)
rising_same (x ∷ xs) [] r r' same = ground (arith, same x)
rising_same (x ∷ xs) (y ∷ ys) r r' same = elim (ℕ_discrete x y) [
  | yes here ↦
      subst (λ z. x ∷ xs ≡ z ∷ ys) here
        (ap (◌∷◌ x) (
          rising_same xs ys r.1 r'.1 (
            among-tail x xs ys r.0 (subst (λ z. All (λ e. z < e) ys) (sym here) r'.0)
              (subst (λ z. (d : Day) → among d (x ∷ xs) ≡ among d (z ∷ ys)) (sym here) same))))
  | no other ↦ ground (
    arith,
    same x,
    same y,
    λ (lt : x < y). among-below x ys (All-below x y ys (omega arith) r'.0),
    λ (lt : y < x). among-below y xs (All-below y x xs (omega arith) r.0),
  )
]

strictly :
    (d : Day) (ds : List Day) → All (λ e. d ≤ e) ds → All (λ e. d ≢ e) ds → All (λ e. d < e) ds
strictly d [] le n = tt
strictly d (e ∷ ds) le n = (ground (arith, n.0), strictly d ds le.1 n.1)

sorted-IsRising : (ds : List Day) → IsSorted the_day ds → IsDistinct the_day ds → IsRising ds
sorted-IsRising [] s d = tt
sorted-IsRising (x ∷ xs) s d = (strictly x xs s.0 d.0, sorted-IsRising xs s.1 d.1)

pub sort_by-IsRising : (ds : List Day) → IsDistinct the_day ds → IsRising (sort_by the_day ds)
sort_by-IsRising ds distinct =
    sorted-IsRising (sort_by the_day ds) (sort_by-IsSorted the_day ds)
      (sort_by-IsDistinct the_day ds distinct)

pub keep-IsRising : (p : Day → Bool) (ds : List Day) → IsRising ds → IsRising (keep p ds)
keep-IsRising p [] h = tt
keep-IsRising p (d ∷ ds) h = ground (arith, keep-IsRising p ds h.1, All-keep (λ e. d < e) p ds h.0)

days_up-above : (rounds d e : ℕ) → d < e → All (λ x. d < x) (days_up rounds e)
unfolding days_up
days_up-above zero d e h = tt
days_up-above (suc rounds) d e h = (h, days_up-above rounds d (e + 1) (omega arith))

days_up-IsRising : (rounds first : ℕ) → IsRising (days_up rounds first)
unfolding days_up
days_up-IsRising zero first = tt
days_up-IsRising (suc rounds) first =
    (days_up-above rounds first (first + 1) (omega arith), days_up-IsRising rounds (first + 1))

pub days_of-IsRising : (first last : Day) → IsRising (days_of first last)
unfolding days_of
days_of-IsRising first last = days_up-IsRising (last + 1 - first) first

among-insert_by : (d x : Day) (xs : List Day) → among d (insert_by the_day x xs) ≡ among d (x ∷ xs)
among-insert_by d x [] = refl
among-insert_by d x (y ∷ ys) = ground (arith, among-insert_by d x ys)

pub among-sort_by : (d : Day) (xs : List Day) → among d (sort_by the_day xs) ≡ among d xs
among-sort_by d [] = refl
among-sort_by d (x ∷ xs) =
    ground (arith, among-insert_by d x (sort_by the_day xs), among-sort_by d xs)

pub among-keep :
    (p : Day → Bool) (d : Day) (xs : List Day) → among d (keep p xs) ≡ (among d xs && p d)
among-keep p d [] = refl
among-keep p d (x ∷ xs) = elim (ℕ_discrete d x) [
  | yes here ↦ rw here (ground (arith, among-keep p x xs))
  | no other ↦ ground (arith, among-keep p d xs)
]

module _ {A : Type 0} (key : A → ℕ) (g : Day → A) (same : (d : Day) → key (g d) ≡ d) where
  insert_by-map :
      (x : Day) (xs : List Day) → insert_by key (g x) (map g xs) ≡ map g (insert_by the_day x xs)
  insert_by-map x [] = refl
  insert_by-map x (y ∷ ys) = rw (same x) (
      rw (same y) (elim (Bool-cases (ltb y x)) [
        | inl less ↦ rw less (ap (◌∷◌ (g y)) (insert_by-map x ys))
        | inr least ↦ rw least refl
      ]))

  -- Days are sorted as what is made of them is.
  pub sort_by-map : (xs : List Day) → sort_by key (map g xs) ≡ map g (sort_by the_day xs)
  sort_by-map [] = refl
  sort_by-map (x ∷ xs) =
      ap (insert_by key (g x)) (sort_by-map xs) ∙ insert_by-map x (sort_by the_day xs)
