-- ===== src/Radix/Tests.antt =====
-- Runs of the sorters, and the theorems at concrete vectors.
use prototype_bundle.Prelude.{
  ℕ, zero, suc, ◌<◌, All, ◌≡◌, refl, some, none, List, [], ◌∷◌, arith, replicate, true, ◌↔◌, ◌+◌,
  ◌^◌, IsSorted,
}
use prototype_bundle.Radix.{
  evaluate, evaluate_from, Vectors, vectors, pass, passes, digit, count_hits, offsets, scatter,
  reference_sort, shortcut_sort, sort_insert, precalc_sort, swap_at, insert_down, insert_rounds,
  precalc_sort_radix, reorder, to_indexes, precalc, bump_all,
}
use prototype_bundle.Radix.Digits.{buckets}
use prototype_bundle.Radix.Passes.{IsSortOf, reference_sort_lem, pass-buckets}
use prototype_bundle.Radix.Evaluate.{evaluate_iff}
use prototype_bundle.Radix.Agreement.{precalc_sort_lem, sorters_agree}

abbrev commands : List ℕ
commands = 70000 ∷ 3 ∷ 511 ∷ 3 ∷ 256 ∷ []

abbrev start_state : Vectors
start_state = vectors commands (replicate 5 0)

-- 64 commands, which are not sorted by insertion
abbrev long_state : Vectors
long_state = vectors (70000 ∷ 3 ∷ replicate 62 511) (replicate 64 0)

long_words : All (λ x. x < 2 ^ 64) long_state.items
long_words = (omega arith, (omega arith, all_small 62))
  where
    all_small : (n : ℕ) → All (λ x. x < 2 ^ 64) (replicate n 511)
    all_small zero = tt
    all_small (suc n) = (omega arith, all_small n)

abbrev ascending : List ℕ
ascending = 3 ∷ 3 ∷ 256 ∷ 511 ∷ 70000 ∷ []

reference_sort-run : reference_sort start_state ≡ some (vectors ascending ascending)
unfolding reference_sort passes pass digit count_hits offsets scatter
reference_sort-run = refl

sort_insert-run : sort_insert commands ≡ some ascending
unfolding sort_insert insert_rounds insert_down swap_at
sort_insert-run = refl

precalc_sort_radix-run : precalc_sort_radix start_state ≡ some (vectors ascending ascending)
unfolding precalc_sort_radix reorder to_indexes precalc bump_all digit offsets scatter
precalc_sort_radix-run = refl

-- A `swap` that is too long comes back as the vector to be sorted, longer than the other one.
long_swap : reference_sort (vectors (1 ∷ []) (0 ∷ 0 ∷ [])) ≡ none
unfolding reference_sort passes pass digit count_hits offsets scatter
long_swap = refl

reference_sort_lem_example :
    (out : Vectors) × (reference_sort start_state ≡ some out) × IsSortOf commands out.items
reference_sort_lem_example = reference_sort_lem start_state refl (omega arith) (omega arith)

precalc_sort_lem_example :
    (out : Vectors) × (precalc_sort long_state ≡ some out) × IsSortOf long_state.items out.items
precalc_sort_lem_example = precalc_sort_lem long_state refl long_words (omega arith)

sorters_agree_example :
    (a b c : Vectors) × (reference_sort start_state ≡ some a)
    × (shortcut_sort start_state ≡ some b)
    × (precalc_sort start_state ≡ some c)
    × (a.items ≡ b.items)
    × (b.items ≡ c.items)
sorters_agree_example = sorters_agree start_state refl (omega arith) (omega arith)

pass-buckets_example : pass 1000 1 start_state ≡ some (vectors (buckets 1 commands 256) commands)
pass-buckets_example = pass-buckets 1000 1 commands (replicate 5 0) refl (omega arith)

evaluate_iff_example : (evaluate commands ≡ true) ↔ IsSorted commands
evaluate_iff_example = evaluate_iff commands (omega arith)

-- The truncated comparison lets an item through that is smaller than the one before it.
evaluate_truncates : evaluate ((2 ^ 32 + 5) ∷ 6 ∷ []) ≡ true
unfolding evaluate evaluate_from
evaluate_truncates = refl
