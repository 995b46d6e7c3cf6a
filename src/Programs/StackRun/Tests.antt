-- ===== src/Programs/StackRun/Tests.antt =====
-- Runs of lockfree_stack_run.cpp with concrete arguments.
use prototype_bundle.Prelude.{◌≡◌, refl, true, false, [], ◌∷◌, some}
use prototype_bundle.Programs.StackRun.{
  Text, small, large, text_eq, from_string, dispatched, run_with, main,
}

-- `large`, and `larger`, which is no duration
abbrev large_argument : Text
large_argument = 108 ∷ 97 ∷ 114 ∷ 103 ∷ 101 ∷ []

abbrev larger_argument : Text
larger_argument = 108 ∷ 97 ∷ 114 ∷ 103 ∷ 101 ∷ 114 ∷ []

reads_large : from_string large_argument small ≡ (true, large)
unfolding from_string text_eq
reads_large = refl

reads_larger : from_string larger_argument small ≡ (false, small)
unfolding from_string text_eq
reads_larger = refl

-- With an argument that is no duration the usage is printed, and the small test runs.
runs_larger : main (larger_argument ∷ []) ≡ run_with 1 (some 1000)
unfolding main from_string text_eq
runs_larger = refl

dispatches : dispatched 3 10 ≡ 10 ∷ 11 ∷ 12 ∷ []
unfolding dispatched
dispatches = refl
