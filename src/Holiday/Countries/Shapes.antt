-- ===== src/Holiday/Countries/Shapes.antt =====
-- The composite literals of the holiday tables: a rule with the fields it names, the others at zero.
use go_time_recording.Base.{ℕ, Option, none, List, [], String}
use go_time_recording.Calendar.{Day}
use go_time_recording.Holiday.Rules.{Rule}

abbrev pub rule : String → (ℕ → Day) → List String → ℕ → ℕ → Option (List ℕ) → List ℕ → Rule
rule name on regions from until only except = record {
  name = name;
  on = on;
  regions = regions;
  from = from;
  until = until;
  only = only;
  except = except;
}

abbrev pub within : String → (ℕ → Day) → List String → ℕ → ℕ → Rule
within name on regions from until = rule name on regions from until none []

abbrev pub always : String → (ℕ → Day) → Rule
always name on = within name on [] 0 0
