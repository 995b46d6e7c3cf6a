-- ===== src/Programs/StackRun.antt =====
-- lockfree_stack_run.cpp: the arguments of the program, and the runs that it dispatches.
mod Tests
use prototype_bundle.Prelude.{
  ℕ, zero, suc, ◌+◌, ◌-◌, ◌<◌, ◌≡◌, ◌≢◌, ◌==◌, Bool, true, false, if◌then◌else◌, Option, none, some,
  List, [], ◌∷◌, length, get_elem?, refl, arith, ◌∙◌, Bool-cases, inl, inr, ap, ap₂,
}

pub data RunDuration : Type 0 where
  small : RunDuration
  medium : RunDuration
  large : RunDuration

-- A program argument, by the codes of its characters
abbrev pub Text : Type 0
Text = List ℕ

text_eq : Text → Text → Bool
text_eq [] [] = true
text_eq [] (d ∷ b) = false
text_eq (c ∷ a) [] = false
text_eq (c ∷ a) (d ∷ b) = let rest = text_eq a b in if c == d then rest else false

abbrev pub small_text : Text
small_text = 115 ∷ 109 ∷ 97 ∷ 108 ∷ 108 ∷ []

abbrev pub medium_text : Text
medium_text = 109 ∷ 101 ∷ 100 ∷ 105 ∷ 117 ∷ 109 ∷ []

abbrev pub large_text : Text
large_text = 108 ∷ 97 ∷ 114 ∷ 103 ∷ 101 ∷ []

-- `from_string`: whether it has matched, and `out` after it
pub from_string : Text → RunDuration → Bool × RunDuration
from_string string_value out =
    if text_eq string_value small_text
    then (true, small)
    else if text_eq string_value medium_text
    then (true, medium)
    else if text_eq string_value large_text
    then (true, large)
    else (false, out)

-- `map_duration_to_iterations`
abbrev pub map_duration_to_iterations : RunDuration → Option ℕ
map_duration_to_iterations small = some 1000
map_duration_to_iterations medium = some 10000
map_duration_to_iterations large = some 1000000

-- `for (int i = 10; i < iterations; ++i)`: the numbers that the stress test is dispatched with
pub dispatched : ℕ → ℕ → List ℕ
dispatched zero i = []
dispatched (suc left) i = i ∷ dispatched left (suc i)

-- What `main` does: how often it prints its usage, its exit code, and the runs
pub record Ran : Type 0 where
  pub usages : ℕ
  pub exit_code : ℕ
  pub runs : List ℕ

abbrev pub run_with : ℕ → Option ℕ → Ran
run_with usages none = record { usages = usages; exit_code = 1; runs = [] }
run_with usages (some iterations) = record {
  usages = usages;
  exit_code = 0;
  runs = dispatched (iterations - 10) 10;
}

-- `main` with the arguments after the program's name
pub main : List Text → Ran
main [] = run_with 0 (map_duration_to_iterations small)
main (argument ∷ []) =
    let parsed = from_string argument small in
    run_with (if parsed.0 then 0 else 1) (map_duration_to_iterations parsed.1)
main (a ∷ b ∷ rest) = record { usages = 1; exit_code = 1; runs = [] }
