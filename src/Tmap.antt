-- ===== src/Tmap.antt =====
-- The type-level map of binary_search.cpp, namespace `tmap`. A `seq` of `handler` types is the list
-- of their ids; a template with specialisations is a function by clauses. A recursive template that
-- does not follow its argument's shape recurs on the proof that the argument is accessible.
pub mod Split
pub mod Sort
pub mod Search
pub mod Main
mod Tests
use mathlib.Core.WellFounded.{Acc}
use prototype_bundle.Prelude.{
  ℕ, suc, ◌+◌, ◌-◌, ◌/◌, ◌%◌, ◌^◌, ◌≤◌, ◌<◌, Bool, true, false, not, List, [], ◌∷◌, ◌++◌, arith,
  ltb, ◌==◌, if◌then◌else◌, length, Shorter, Shorter-wf,
}

module _ {ℓ} {A : Type ℓ} where
  -- `seq_pop`: the sequence of the first item alone
  abbrev pub seq_pop : List A → List A
  seq_pop [] = []
  seq_pop (x ∷ xs) = x ∷ []

  -- `seq_pop_rest`
  abbrev pub seq_pop_rest : List A → List A
  seq_pop_rest [] = []
  seq_pop_rest (x ∷ xs) = xs

  -- `seq_cat`
  abbrev pub seq_cat : List A → List A → List A
  seq_cat xs ys = xs ++ ys

  -- `details::filter`: the items `first` with `pred_t<first, item>`
  pub filter : A → (A → A → Bool) → List A → List A
  filter item pred [] = []
  filter item pred (first ∷ rest) =
      if pred first item
      then seq_cat (first ∷ []) (filter item pred rest)
      else filter item pred rest

  -- `seq_split_left<n, left, right>`
  pub seq_split_left : ℕ → List A → List A → List A
  seq_split_left n left [] = left
  seq_split_left n left (top ∷ right) =
      if ltb (length left) n then seq_split_left n (left ++ top ∷ []) right else left

  -- `seq_split_right<n, seq>`
  pub seq_split_right : ℕ → List A → List A
  seq_split_right n [] = []
  seq_split_right n (top ∷ right) = if ltb n (length right) then seq_split_right n right else right

  -- `seq_split::first` and `seq_split::second`
  pub split_first : List A → List A
  split_first [] = []
  split_first (x ∷ xs) = seq_split_left (length (x ∷ xs) / 2) [] (x ∷ xs)

  pub split_second : List A → List A
  split_second [] = []
  split_second (x ∷ xs) = seq_split_right (length (x ∷ xs) - length (x ∷ xs) / 2) (x ∷ xs)

  -- `not_op`
  abbrev pub not_op : (A → A → Bool) → A → A → Bool
  not_op pred v cv = not (pred v cv)

  pub length-filter :
      (item : A) (pred : A → A → Bool) (xs : List A) → length (filter item pred xs) ≤ length xs
  unfolding filter
  length-filter item pred [] = omega arith
  length-filter item pred (x ∷ xs) = ground (arith, length-filter item pred xs)

  -- `seq_sort`, with its specialisations for one item and for none
  sort_acc : (less : A → A → Bool) (xs : List A) → Acc Shorter xs → List A
  sort_acc less [] w = []
  sort_acc less (top ∷ []) w = top ∷ []
  sort_acc less (top ∷ x ∷ xs) (Acc.intro _ below) =
      let rest = x ∷ xs in
      seq_cat
        (sort_acc less (filter top less rest)
          (below _ (omega (arith, length-filter top less rest))))
        (seq_cat (top ∷ []) (
          sort_acc less (filter top (not_op less) rest)
            (below _ (omega (arith, length-filter top (not_op less) rest)))))

  -- `tmap::sort`
  pub sort : (A → A → Bool) → List A → List A
  unfolding sort_acc Shorter-wf
  sort less xs = sort_acc less xs (Shorter-wf.apply xs)
