-- ===== src/Tmap/Tests.antt =====
-- The program's own run, and the theorems at its sequence.
use prototype_bundle.Prelude.{
  ℕ, ◌≤◌, ◌≡◌, refl, true, false, none, some, List, [], ◌∷◌, arith, ltb, length, if◌then◌else◌,
  IsSorted, SameItems, count,
}
use prototype_bundle.Tmap.{sort, split_first, split_second, filter, seq_split_left, seq_split_right}
use prototype_bundle.Tmap.Split.{split_lem}
use prototype_bundle.Tmap.Sort.{sort_lem}
use prototype_bundle.Tmap.Search.{compare_key, search, search_node}
use prototype_bundle.Tmap.Search.Laws.{search_lem, search-visited, search_far}

-- `seq_type` of `main`
abbrev seq_type : List ℕ
seq_type = 3 ∷ 5 ∷ 8 ∷ 2 ∷ 4 ∷ 6 ∷ 1 ∷ 9 ∷ 7 ∷ 10 ∷ 0 ∷ []

split_lem_example :
    (split_first seq_type ≡ 3 ∷ 5 ∷ 8 ∷ 2 ∷ 4 ∷ [])
    × (split_second seq_type ≡ 6 ∷ 1 ∷ 9 ∷ 7 ∷ 10 ∷ 0 ∷ [])
split_lem_example = split_lem seq_type

sort_lem_example : IsSorted (sort ltb seq_type) × SameItems (sort ltb seq_type) seq_type
sort_lem_example = sort_lem seq_type

search_lem_example :
    ((search 3 seq_type).result ≡ ltb 0 (count 3 seq_type))
    × ((search 3 seq_type).called ≡ (if ltb 0 (count 3 seq_type) then some 3 else none))
search_lem_example = search_lem 3 seq_type (omega arith) (omega arith)

search-visited_example : length (search 3 seq_type).visited ≤ 4
search-visited_example = search-visited 3 4 seq_type (omega arith)

search_far_example : (search 5 (5 ∷ 3000000000 ∷ [])).result ≡ false
search_far_example = search_far 5 3000000000 (omega arith) (omega arith)

main_search :
    search 3 seq_type ≡ record { result = true; called = some 3; visited = 5 ∷ 2 ∷ 4 ∷ 3 ∷ [] }
unfolding search search_node sort compare_key split_first split_second filter seq_split_left
    seq_split_right
main_search = refl
