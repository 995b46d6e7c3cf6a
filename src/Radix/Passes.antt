-- ===== src/Radix/Passes.antt =====
-- A round as a sort by one more byte that keeps the order of the lower bytes, and eight rounds.
use prototype_bundle.Prelude.{
  ℕ, zero, suc, ◌+◌, ◌^◌, ◌≤◌, ◌<◌, ◌≡◌, ◌∙◌, refl, subst, some, List, [], ◌∷◌, arith, length,
  get_or, replicate, All, All-of_count, All-count, IsSorted, IsSortedBy, SameItems,
}
use prototype_bundle.Radix.{
  count_hits, offsets, cleared, Vectors, vectors, pass, passes, reference_sort, sort_radix,
  uint32_limit, int_limit,
}
use prototype_bundle.Radix.Digits.{size, start, start-eq-length, buckets, low, low_8}
use prototype_bundle.Radix.Histogram.{
  length-count_hits, count_hits-size, length-offsets, offsets-start,
}
use prototype_bundle.Radix.Scatter
use prototype_bundle.Radix.Scatter.{scatter-buckets}
use prototype_bundle.Radix.Buckets.{SameItems-buckets, IsSortedBy-buckets}

get_or-replicate : (n i : ℕ) → get_or {A = ℕ} (replicate n 0) i 0 ≡ 0
get_or-replicate zero i = refl
get_or-replicate (suc n) zero = refl
get_or-replicate (suc n) (suc i) = get_or-replicate n i

-- The counters of a round, before its moves: one for each byte, each the start of its bucket.
pub offsets_of_items :
    (limit k : ℕ) (items : List ℕ)
    → length items < limit
    → (length (offsets limit 0 (count_hits limit k cleared items)) ≡ 256)
      × ((e : ℕ)
          → e < 256
          → get_or (offsets limit 0 (count_hits limit k cleared items)) e 0 ≡ start k items e)
offsets_of_items limit k items small =
    (length-offsets limit 0 hits ∙ len, offsets-start limit k items hits sizes len small)
  where
    hits : List ℕ
    hits = count_hits limit k cleared items

    len : length hits ≡ 256
    len = length-count_hits limit k cleared items

    below : (e : ℕ) → get_or cleared e 0 + length items < limit
    below e = omega (arith, get_or-replicate 256 e)

    sizes : (e : ℕ) → get_or hits e 0 ≡ size k e items
    sizes e =
        omega (arith, count_hits-size limit k items cleared refl below e, get_or-replicate 256 e)

-- A round on byte `k`, with a `swap` of the number of items and counters that can count them, leaves
-- the items of byte 0 in their order, then those of byte 1, and so on to 255; the old items are left
-- in `swap`.
pub pass-buckets :
    (limit k : ℕ) (items swap : List ℕ)
    → length swap ≡ length items
    → length items < limit
    → pass limit k (vectors items swap) ≡ some (vectors (buckets k items 256) items)
unfolding pass
pass-buckets limit k items swap room small =
    let (counters, starts) = offsets_of_items limit k items small in
    rw (scatter-buckets limit k items _ swap counters room small starts, pass) refl

IsSortedBy-low_0 : (xs : List ℕ) → IsSortedBy (low 0) xs
unfolding low
IsSortedBy-low_0 [] = tt
IsSortedBy-low_0 (x ∷ xs) = (all_zero xs, IsSortedBy-low_0 xs)
  where
    all_zero : (ys : List ℕ) → All (λ y. low 0 x ≤ low 0 y) ys
    all_zero [] = tt
    all_zero (y ∷ ys) = (omega arith, all_zero ys)

IsSorted-of_low_8 : (xs : List ℕ) → All (λ x. x < 2 ^ 64) xs → IsSortedBy (low 8) xs → IsSorted xs
IsSorted-of_low_8 [] w s = tt
IsSorted-of_low_8 (x ∷ xs) w s = (heads xs w.1 s.0, IsSorted-of_low_8 xs w.1 s.1)
  where
    heads :
        (ys : List ℕ)
        → All (λ y. y < 2 ^ 64) ys
        → All (λ y. low 8 x ≤ low 8 y) ys
        → All (λ y. x ≤ y) ys
    heads [] p q = tt
    heads (y ∷ ys) p q = (omega (arith, low_8 x w.0, low_8 y p.0, q.0), heads ys p.1 q.1)

pub length-buckets : (k : ℕ) (xs : List ℕ) → length (buckets k xs 256) ≡ length xs
length-buckets k xs = Scatter.length-buckets 0 k xs 256 ∙ start-eq-length k xs

-- What a run of rounds returns, for `items` at the start, once it has sorted by `n` bytes.
pub record Sorts (n : ℕ) (items : List ℕ) (out : Vectors) : Type 0 where
  pub sorted : IsSortedBy (low n) out.items
  pub same : SameItems out.items items
  pub long : length out.items ≡ length items
  pub room : length out.swap ≡ length items

-- A round of any sorter keeps `Sorts`, with one more byte.
pub Sorts-buckets :
    (k : ℕ) (items : List ℕ) (v : Vectors)
    → Sorts k items v
    → Sorts (suc k) items (vectors (buckets k v.items 256) v.items)
Sorts-buckets k items v s = record {
  sorted = IsSortedBy-buckets k v.items 256 s.sorted;
  same = λ x. SameItems-buckets k v.items x ∙ s.same x;
  long = length-buckets k v.items ∙ s.long;
  room = s.long;
}

pub Sorts-start : (v : Vectors) → length v.swap ≡ length v.items → Sorts 0 v.items v
Sorts-start v room = record {
  sorted = IsSortedBy-low_0 v.items;
  same = λ x. refl;
  long = refl;
  room = room;
}

passes-Sorts :
    (limit left k n : ℕ) (items : List ℕ) (v : Vectors)
    → left + k ≡ n
    → length items < limit
    → Sorts k items v
    → (out : Vectors) × (passes limit left k v ≡ some out) × Sorts n items out
unfolding passes
passes-Sorts limit zero k n items v e small s =
    (v, refl, subst (λ t. Sorts t items v) (omega arith) s)
passes-Sorts limit (suc left) k n items v e small s =
    let (out, run, sorts) =
      passes-Sorts limit left (suc k) n items (vectors (buckets k v.items 256) v.items)
        (omega arith) small (Sorts-buckets k items v s) in
    (
      out,
      rw
          (
            pass-buckets limit k v.items v.swap (omega (arith, s.room, s.long))
                (omega (arith, s.long)),
            passes,
          )
          run,
      sorts,
    )

-- The vector that a sort returns: ascending, with the items of the input.
pub record IsSortOf (items out : List ℕ) : Type 0 where
  pub ascending : IsSorted out
  pub same : SameItems out items

-- After eight bytes the items are sorted as the numbers that they are.
pub Sorts-IsSortOf :
    (items : List ℕ) (out : Vectors)
    → All (λ x. x < 2 ^ 64) items
    → Sorts 8 items out
    → IsSortOf items out.items
Sorts-IsSortOf items out w s = record {
  ascending =
      IsSorted-of_low_8 out.items
        (All-of_count out.items _ (λ v p. All-count items _ v w (omega (arith, s.same v))))
        s.sorted;
  same = s.same;
}

module _ (v : Vectors) (room : length v.swap ≡ length v.items)
    (words : All (λ x. x < 2 ^ 64) v.items) where
  passes-IsSortOf :
      (limit : ℕ)
      → length v.items < limit
      → (out : Vectors) × (passes limit 8 0 v ≡ some out) × IsSortOf v.items out.items
  passes-IsSortOf limit small =
      let (out, run, s) = passes-Sorts limit 8 0 8 v.items v refl small (Sorts-start v room) in
      (out, run, Sorts-IsSortOf v.items out words s)

  -- `reference_radix::sort`, with a `swap` of the vector's own length, fewer than 2 ^ 32 items, and
  -- items of 64 bits, makes no access out of range and leaves the items in ascending order.
  pub reference_sort_lem :
      length v.items < 2 ^ 32
      → (out : Vectors) × (reference_sort v ≡ some out) × IsSortOf v.items out.items
  unfolding reference_sort
  reference_sort_lem small = passes-IsSortOf uint32_limit small

  pub sort_radix_lem :
      length v.items < 2 ^ 31
      → (out : Vectors) × (sort_radix v ≡ some out) × IsSortOf v.items out.items
  unfolding sort_radix
  sort_radix_lem small = passes-IsSortOf int_limit small
