-- ===== src/Text.antt =====
-- What the code uses of Go's `strings` and `unicode`, and `TooLong` of
-- internal/domain/model/field_limit.go.
use Prim.Native.Char.{code}
use mathlib.Core.List.{reverse}
use go_time_recording.Base.{
  ℕ, Bool, true, false, ◌&&◌, ◌||◌, List, [], ◌∷◌, String, ltb, leb, ◌==◌, str_eq, if◌then◌else◌,
  length,
}

abbrev codes : String → List ℕ
codes String.[] = []
codes (String.◌∷◌ c s) = code c ∷ codes s

-- `unicode.IsSpace`.
unfoldable pub is_space : ℕ → Bool
is_space c =
    (leb 9 c && leb c 13)
    || (c == 32)
    || (c == 133)
    || (c == 160)
    || (c == 5760)
    || (leb 8192 c && leb c 8202)
    || (c == 8232)
    || (c == 8233)
    || (c == 8239)
    || (c == 8287)
    || (c == 12288)

drop_spaces : List ℕ → List ℕ
unfolding is_space
drop_spaces [] = []
drop_spaces (c ∷ cs) = if is_space c then drop_spaces cs else c ∷ cs

unfoldable pub too_long : String → ℕ → Bool
unfolding drop_spaces
too_long value limit = ltb limit (length (drop_spaces (reverse (drop_spaces (codes value)))))

-- `slices.Contains`.
abbrev pub contains : List String → String → Bool
contains [] text = false
contains (s ∷ rest) text = let later = contains rest text in if str_eq s text then true else later

-- `strings.TrimSpace`.
unfoldable pub trim_left : String → String
unfolding is_space
trim_left String.[] = ""
trim_left (String.◌∷◌ c s) =
    let rest = trim_left s in if is_space (code c) then rest else String.◌∷◌ c s

unfoldable pub trim_right : String → String
unfolding is_space
trim_right String.[] = ""
trim_right (String.◌∷◌ c s) =
    let rest = trim_right s in if is_space (code c) && str_eq rest "" then "" else String.◌∷◌ c rest

unfoldable pub trim_space : String → String
unfolding trim_left trim_right
trim_space text = trim_right (trim_left text)
