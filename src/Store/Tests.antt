-- ===== src/Store/Tests.antt =====
-- A concrete store for its theorems.
use go_time_recording.Base.{ℕ, ◌≡◌, refl, arith, none, [], ◌∷◌, ◌++◌, ◌==◌, if◌then◌else◌}
use go_time_recording.Errors.{ok}
use go_time_recording.Store.{Store, new_store, add, get, all, collect}
use go_time_recording.Store.Laws.{IsValid, add_lem}

abbrev empty : Store ℕ
empty = record { items = λ n. none; next_id = 1; entity = "number" }

empty-IsValid : IsValid empty
empty-IsValid = record {
  ids_from_one = omega arith;
  ids_fit = omega arith;
  none_at_zero = refl;
  fresh = λ id h. refl;
}

store_tests :
    all {A = ℕ} (add 8 (λ a id. a) (add 7 (λ a id. a) (new_store "number")).1).1 ≡ 7 ∷ 8 ∷ []
unfolding all collect add new_store
store_tests = refl

add_lem_example :
    IsValid (add 7 (λ a id. a) empty).1
    × (empty.items empty.next_id ≡ none)
    × (get 1 (add 7 (λ a id. a) empty).1 ≡ (if 1 == empty.next_id then ok 7 else get 1 empty))
    × (all (add 7 (λ a id. a) empty).1 ≡ all empty ++ 7 ∷ [])
add_lem_example = add_lem 7 (λ a id. a) empty 1 empty-IsValid (omega arith)
