-- ===== src/Radix.antt =====
-- The sorters of benchmarks/radix_benchmark.cpp, namespace `proto`: `reference_radix`,
-- `shortcut_radix` and `precalc_shortcut_radix`. A `render_command` is a number below 2 ^ 64, a
-- `std::vector` or `std::array` is a list. An access to a vector out of range is undefined in the
-- source and is `none` here; a histogram has 256 counters, and is read and written at a byte.
pub mod Digits
pub mod Histogram
pub mod Scatter
pub mod Buckets
pub mod Passes
pub mod Insertion
pub mod Precalc
pub mod Agreement
pub mod Evaluate
mod Tests
use prototype_bundle.Prelude.{
  ℕ, zero, suc, ◌+◌, ◌-◌, ◌/◌, ◌%◌, ◌^◌, Option, none, some, List, [], ◌∷◌, Bool, true, false, ltb,
  if◌then◌else◌, length, get_elem?, get_or, set, replicate,
}

-- `*(reinterpret_cast<uint8_t *>(&item) + radix)` on a little-endian machine
pub digit : ℕ → ℕ → ℕ
digit radix item = item / 256 ^ radix % 256

abbrev pub radix_count : ℕ
radix_count = 8

-- The counters of a histogram count modulo this: `uint32_t`, and the non-negative half of `int`
-- (past it the sum of two `int` is undefined).
abbrev pub uint32_limit : ℕ
uint32_limit = 2 ^ 32

abbrev pub int_limit : ℕ
int_limit = 2 ^ 31

abbrev pub cleared : List ℕ
cleared = replicate 256 0

module _ (limit radix : ℕ) where
  -- for (auto & item : items) ++histograph[ptr];
  pub count_hits : List ℕ → List ℕ → List ℕ
  count_hits h [] = h
  count_hits h (x ∷ xs) =
      count_hits (set h (digit radix x) ((get_or h (digit radix x) 0 + 1) % limit)) xs

  -- for (auto & item : items) { ...; swap[index] = item; }
  pub scatter : List ℕ → List ℕ → List ℕ → Option (List ℕ)
  scatter [] h swap = some swap
  scatter (x ∷ xs) h swap =
      let index = get_or h (digit radix x) 0 in
      let rest = scatter xs (set h (digit radix x) ((index + 1) % limit)) (set swap index x) in
      if ltb index (length swap) then rest else none

-- for (auto & h : histograph) { count = h; h = h_offset; h_offset += count; }
pub offsets : ℕ → ℕ → List ℕ → List ℕ
offsets limit o [] = []
offsets limit o (c ∷ cs) = o ∷ offsets limit ((o + c) % limit) cs

-- A sorter's vector `swap` beside the vector that it sorts.
pub record Vectors : Type 0 where
  pub items : List ℕ
  pub swap : List ℕ

abbrev pub vectors : List ℕ → List ℕ → Vectors
vectors items swap = record { items = items; swap = swap }

-- One round of the loop over `radix`: the histogram of `items`, its offsets, the moves into `swap`,
-- and the exchange of the two vectors.
pub pass : ℕ → ℕ → Vectors → Option Vectors
pass limit radix v =
    elim (scatter limit radix v.items (offsets limit 0 (count_hits limit radix cleared v.items))
      v.swap) [ none ↦ none | some swap ↦ some (vectors swap v.items) ]

-- The rounds from `radix` on, `left` of them.
pub passes : ℕ → ℕ → ℕ → Vectors → Option Vectors
passes limit zero radix v = some v
passes limit (suc left) radix v = elim (pass limit radix v) [
  | none ↦ none
  | some v' ↦ passes limit left (suc radix) v'
]

-- `reference_radix::sort`
pub reference_sort : Vectors → Option Vectors
reference_sort v = passes uint32_limit radix_count 0 v

-- `shortcut_radix::sort_radix`
pub sort_radix : Vectors → Option Vectors
sort_radix v = passes int_limit radix_count 0 v

-- `std::swap(items[j], items[j + 1])`
swap_at : ℕ → List ℕ → List ℕ
swap_at j l = set (set l j (get_or l (suc j) 0)) (suc j) (get_or l j 0)

-- The test of the inner loop, on the two items that it reads, when they are there
abbrev pub insert_test : Option ℕ → Option ℕ → List ℕ → Option (List ℕ) → Option (List ℕ)
insert_test none b l rest = none
insert_test (some a) none l rest = none
insert_test (some a) (some b) l rest = if ltb b a then rest else some l

-- for (j = i; j > 0 && items[j - 1] > items[j]; --j) std::swap(items[j - 1], items[j]);
insert_down : ℕ → List ℕ → Option (List ℕ)
insert_down zero l = some l
insert_down (suc j) l =
    insert_test (get_elem? l j) (get_elem? l (suc j)) l (insert_down j (swap_at j l))

-- for (i = 1; i < len; ++i), `left` rounds of it
insert_rounds : ℕ → ℕ → List ℕ → Option (List ℕ)
insert_rounds zero i l = some l
insert_rounds (suc left) i l = elim (insert_down i l) [
  | none ↦ none
  | some l' ↦ insert_rounds left (suc i) l'
]

-- `sort_insert`
pub sort_insert : List ℕ → Option (List ℕ)
sort_insert l = if ltb (length l) 2 then some l else insert_rounds (length l - 1) 1 l

-- What `sort` leaves after `sort_insert`, which does not use `swap`
abbrev pub beside_swap : Option (List ℕ) → List ℕ → Option Vectors
beside_swap none swap = none
beside_swap (some items) swap = some (vectors items swap)

-- `shortcut_radix::sort`
pub shortcut_sort : Vectors → Option Vectors
shortcut_sort v =
    if ltb (length v.items) 64 then beside_swap (sort_insert v.items) v.swap else sort_radix v

-- `precalc_shortcut_radix`: `++histograph[radix][*(ptr + radix)]` for each radix
bump_all : ℕ → ℕ → List (List ℕ) → List (List ℕ)
bump_all radix x [] = []
bump_all radix x (h ∷ hs) =
    set h (digit radix x) ((get_or h (digit radix x) 0 + 1) % int_limit) ∷ bump_all (suc radix) x hs

precalc : List ℕ → List (List ℕ) → List (List ℕ)
precalc [] hs = hs
precalc (x ∷ xs) hs = precalc xs (bump_all 0 x hs)

-- `index` runs over each histogram
to_indexes : List (List ℕ) → List (List ℕ)
to_indexes [] = []
to_indexes (h ∷ hs) = offsets int_limit 0 h ∷ to_indexes hs

-- The rounds that reorder the values, one for each histogram.
reorder : ℕ → List (List ℕ) → Vectors → Option Vectors
reorder radix [] v = some v
reorder radix (h ∷ hs) v = elim (scatter int_limit radix v.items h v.swap) [
  | none ↦ none
  | some swap ↦ reorder (suc radix) hs (vectors swap v.items)
]

-- `precalc_shortcut_radix::sort_radix`
pub precalc_sort_radix : Vectors → Option Vectors
precalc_sort_radix v = reorder 0 (to_indexes (precalc v.items (replicate radix_count cleared))) v

-- `precalc_shortcut_radix::sort`
pub precalc_sort : Vectors → Option Vectors
precalc_sort v =
    if ltb (length v.items) 64
    then beside_swap (sort_insert v.items) v.swap
    else precalc_sort_radix v

-- `evaluate`: `false` where the source throws. `uint32_t v` keeps the lowest 32 bits of an item.
evaluate_from : ℕ → List ℕ → Bool
evaluate_from v [] = true
evaluate_from v (i ∷ rest) = if ltb i v then false else evaluate_from (i % 2 ^ 32) rest

pub evaluate : List ℕ → Bool
evaluate items = evaluate_from 0 items
