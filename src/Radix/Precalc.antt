-- ===== src/Radix/Precalc.antt =====
-- `precalc_shortcut_radix` counts every byte of the unsorted items in one go; the rounds only move
-- items about, so each histogram still fits when its round comes.
use prototype_bundle.Prelude.{
  ℕ, zero, suc, ◌+◌, ◌<◌, ◌≡◌, ◌∙◌, ap, sym, refl, subst, some, List, [], ◌∷◌, arith, ltb, ◌==◌,
  if◌then◌else◌, length, replicate, length-append, All, ◌^◌,
}
use prototype_bundle.Radix.{
  digit, count_hits, offsets, scatter, cleared, Vectors, vectors, radix_count, int_limit, bump_all,
  precalc, to_indexes, reorder, precalc_sort_radix,
}
use prototype_bundle.Radix.Digits.{
  digit-lt, size, size-cons, with_digit, with_digit-append, start, buckets,
}
use prototype_bundle.Radix.Scatter.{scatter-buckets}
use prototype_bundle.Radix.Passes.{
  Sorts, Sorts-buckets, Sorts-start, Sorts-IsSortOf, IsSortOf, offsets_of_items,
}

-- The histograms, each counted on its own.
per_radix : ℕ → List ℕ → List (List ℕ) → List (List ℕ)
per_radix radix xs [] = []
per_radix radix xs (h ∷ hs) = count_hits int_limit radix h xs ∷ per_radix (suc radix) xs hs

per_radix-bump_all :
    (radix x : ℕ) (xs : List ℕ) (hs : List (List ℕ))
    → per_radix radix xs (bump_all radix x hs) ≡ per_radix radix (x ∷ xs) hs
unfolding per_radix bump_all count_hits
per_radix-bump_all radix x xs [] = refl
per_radix-bump_all radix x xs (h ∷ hs) =
    ap (λ t. count_hits int_limit radix h (x ∷ xs) ∷ t) (per_radix-bump_all (suc radix) x xs hs)

per_radix-nil : (radix : ℕ) (hs : List (List ℕ)) → per_radix radix [] hs ≡ hs
unfolding per_radix count_hits
per_radix-nil radix [] = refl
per_radix-nil radix (h ∷ hs) = ap (λ t. h ∷ t) (per_radix-nil (suc radix) hs)

precalc-per_radix : (xs : List ℕ) (hs : List (List ℕ)) → precalc xs hs ≡ per_radix 0 xs hs
unfolding precalc
precalc-per_radix [] hs = sym (per_radix-nil 0 hs)
precalc-per_radix (x ∷ xs) hs =
    precalc-per_radix xs (bump_all 0 x hs) ∙ per_radix-bump_all 0 x xs hs

-- The items of each byte `k` are as many after a round on byte `j` as before it.
module _ (j k e : ℕ) where
  size-with_digit :
      (d x : ℕ) (xs : List ℕ)
      → size k e (with_digit j d (x ∷ xs))
        ≡ size k e (with_digit j d xs) + (if digit j x == d then size k e (x ∷ []) else 0)
  unfolding with_digit
  size-with_digit d x xs = ground (arith, size-cons k e x (with_digit j d xs), size-cons k e x [])

  size-buckets-suc :
      (xs : List ℕ) (d : ℕ)
      → size k e (buckets j xs (suc d)) ≡ size k e (buckets j xs d) + size k e (with_digit j d xs)
  unfolding buckets
  size-buckets-suc xs d =
      ap length (with_digit-append k e (buckets j xs d) (with_digit j d xs))
      ∙ length-append (with_digit k e (buckets j xs d)) _

  size-buckets-cons :
      (x : ℕ) (xs : List ℕ) (d : ℕ)
      → size k e (buckets j (x ∷ xs) d)
        ≡ size k e (buckets j xs d) + (if ltb (digit j x) d then size k e (x ∷ []) else 0)
  unfolding buckets with_digit
  size-buckets-cons x xs zero = ground arith
  size-buckets-cons x xs (suc d) = ground (
    arith,
    size-buckets-suc (x ∷ xs) d,
    size-buckets-suc xs d,
    size-with_digit d x xs,
    size-buckets-cons x xs d,
  )

  size-buckets-nil : (d : ℕ) → size k e (buckets j [] d) ≡ 0
  unfolding buckets with_digit
  size-buckets-nil zero = refl
  size-buckets-nil (suc d) = omega (arith, size-buckets-suc [] d, size-buckets-nil d)

  pub size-buckets : (xs : List ℕ) → size k e (buckets j xs 256) ≡ size k e xs
  unfolding with_digit
  size-buckets [] = size-buckets-nil 256
  size-buckets (x ∷ xs) = ground (
    arith,
    size-buckets-cons x xs 256,
    digit-lt j x,
    size-buckets xs,
    size-cons k e x xs,
    size-cons k e x [],
  )

-- Every byte is held as often in `xs` as in `ys`.
abbrev SameDigits : List ℕ → List ℕ → Type 0
SameDigits xs ys = (k e : ℕ) → size k e xs ≡ size k e ys

start_of_SameDigits :
    (k : ℕ) (xs ys : List ℕ) → SameDigits xs ys → (e : ℕ) → start k xs e ≡ start k ys e
unfolding start
start_of_SameDigits k xs ys same zero = refl
start_of_SameDigits k xs ys same (suc e) =
    omega (arith, same k e, start_of_SameDigits k xs ys same e)

reorder-Sorts :
    (left k n : ℕ) (items : List ℕ) (v : Vectors)
    → left + k ≡ n
    → length items < int_limit
    → Sorts k items v
    → SameDigits v.items items
    → (out : Vectors) × (reorder k (to_indexes (per_radix k items (replicate left cleared))) v
        ≡ some out)
      × Sorts n items out
unfolding reorder to_indexes per_radix
reorder-Sorts zero k n items v e small s same =
    (v, refl, subst (λ t. Sorts t items v) (omega arith) s)
reorder-Sorts (suc left) k n items v e small s same =
    let (out, run, sorts) =
      reorder-Sorts left (suc k) n items (vectors (buckets k v.items 256) v.items) (omega arith)
        small (Sorts-buckets k items v s) (λ k' e'. size-buckets k k' e' v.items ∙ same k' e') in
    (out, rw (moves, reorder) run, sorts)
  where
    hist : List ℕ
    hist = offsets int_limit 0 (count_hits int_limit k cleared items)

    moves : scatter int_limit k v.items hist v.swap ≡ some (buckets k v.items 256)
    moves =
        scatter-buckets int_limit k v.items hist v.swap (offsets_of_items int_limit k items small).0
          (omega (arith, s.room, s.long)) (omega (arith, s.long))
          (λ d lt.
            (offsets_of_items int_limit k items small).1 d lt
            ∙ sym (start_of_SameDigits k v.items items same d))

-- `precalc_shortcut_radix::sort_radix` makes no access out of range and leaves the items in
-- ascending order.
pub precalc_sort_radix_lem :
    (v : Vectors)
    → length v.swap ≡ length v.items
    → All (λ x. x < 2 ^ 64) v.items
    → length v.items < 2 ^ 31
    → (out : Vectors) × (precalc_sort_radix v ≡ some out) × IsSortOf v.items out.items
unfolding precalc_sort_radix
precalc_sort_radix_lem v room words small =
    let (out, run, s) =
      reorder-Sorts 8 0 8 v.items v refl small (Sorts-start v room) (λ k e. refl) in
    (
      out,
      ap (λ hs. reorder 0 (to_indexes hs) v)
            (precalc-per_radix v.items (replicate radix_count cleared))
          ∙ run,
      Sorts-IsSortOf v.items out words s,
    )
