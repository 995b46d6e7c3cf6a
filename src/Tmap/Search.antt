-- ===== src/Tmap/Search.antt =====
-- `map_node::search`: a binary search that is laid out by the templates. A key is an `int` as a bit
-- pattern, a number below 2 ^ 32.
pub mod Laws
use mathlib.Core.WellFounded.{Acc}
use prototype_bundle.Prelude.{
  ℕ, ◌+◌, ◌-◌, ◌%◌, ◌^◌, Ordering, Bool, true, false, Option, none, some, List, [], ◌∷◌, ltb, ◌==◌,
  if◌then◌else◌, Shorter, Shorter-wf,
}
use prototype_bundle.Tmap.{seq_pop_rest, split_first, split_second, sort}
use prototype_bundle.Tmap.Split.{Shorter-first, Shorter-rest}

-- `comparer::compare`: `cv - v_t::item::id` is unsigned, and `int32_t` reads it as signed. The
-- result is its sign.
unfoldable pub compare_key : ℕ → ℕ → Ordering
compare_key id key =
    let difference = (key + 2 ^ 32 - id) % 2 ^ 32 in
    if difference == 0
    then Ordering.eq
    else if ltb difference (2 ^ 31)
    then Ordering.gt
    else Ordering.lt

-- What a search does: its result, the key that it calls `find_callback` with, and the ids of the
-- nodes that it prints on its way.
pub record Outcome : Type 0 where
  pub result : Bool
  pub called : Option ℕ
  pub visited : List ℕ

abbrev pub missed : Outcome
missed = record { result = false; called = none; visited = [] }

abbrev pub found : ℕ → Outcome
found key = record { result = true; called = some key; visited = [] }

-- the line that a node prints before it searches on
abbrev pub via : ℕ → Outcome → Outcome
via id o = record { result = o.result; called = o.called; visited = id ∷ o.visited }

-- The node of an id between its two subtrees; the three tests of the sign are in their order.
abbrev pub branch : Ordering → ℕ → Outcome → Outcome → Outcome
branch Ordering.eq key left right = found key
branch Ordering.lt key left right = left
branch Ordering.gt key left right = right

abbrev pub leaf : Ordering → ℕ → Outcome
leaf Ordering.eq key = found key
leaf _ key = missed

-- The node of the first id of `split::second`, between the outcomes of its subtrees.
abbrev pub at_node : ℕ → List ℕ → Outcome → Outcome → Outcome
at_node key [] left right = missed
at_node key (id ∷ rest) left right = via id (branch (compare_key id key) key left right)

-- `map_node<seq<items...>>::search`
search_acc : (key : ℕ) (items : List ℕ) → Acc Shorter items → Outcome
search_acc key [] w = missed
search_acc key (id ∷ []) w = via id (leaf (compare_key id key) key)
search_acc key (x ∷ y ∷ zs) (Acc.intro _ below) =
    let left = search_acc key (split_first (x ∷ y ∷ zs)) (below _ (Shorter-first x y zs)) in
    let right =
      search_acc key (seq_pop_rest (split_second (x ∷ y ∷ zs))) (below _ (Shorter-rest x y zs)) in
    at_node key (split_second (x ∷ y ∷ zs)) left right

unfoldable pub search_node : ℕ → List ℕ → Outcome
unfolding search_acc Shorter-wf
search_node key items = search_acc key items (Shorter-wf.apply items)

-- `tmap::map<seq, less>::search<comparer>`
unfoldable pub search : ℕ → List ℕ → Outcome
search key seq = search_node key (sort ltb seq)
