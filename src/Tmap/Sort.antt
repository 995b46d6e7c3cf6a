-- ===== src/Tmap/Sort.antt =====
-- `tmap::sort` by `less` on ids sorts: it is the quicksort whose pivot is the first item.
use mathlib.Core.WellFounded.{Acc}
use prototype_bundle.Prelude.{
  ℕ, ◌+◌, ◌≤◌, ◌≡◌, refl, Bool, true, List, [], ◌∷◌, arith, ltb, if◌then◌else◌, All, All-imp,
  All-of_count, All-count, IsSorted, IsSortedBy-append, SameItems, count, count-nil, count-cons,
  count-append, length, length-append, Shorter, Shorter-wf, Bool-cases, inl, inr,
}
use prototype_bundle.Tmap.{filter, not_op, sort_acc, sort, length-filter}

module _ (item : ℕ) (pred : ℕ → ℕ → Bool) where
  All-filter : (P : ℕ → Type 0) (xs : List ℕ) → All P xs → All P (filter item pred xs)
  unfolding filter
  All-filter P [] h = tt
  All-filter P (x ∷ xs) h = elim (Bool-cases (pred x item)) [
    | inl yes' ↦ rw yes' (h.0, All-filter P xs h.1)
    | inr no' ↦ rw no' (All-filter P xs h.1)
  ]

  All-passed : (xs : List ℕ) → All (λ x. pred x item ≡ true) (filter item pred xs)
  unfolding filter
  All-passed [] = tt
  All-passed (x ∷ xs) = elim (Bool-cases (pred x item)) [
    | inl yes' ↦ rw yes' (yes', All-passed xs)
    | inr no' ↦ rw no' (All-passed xs)
  ]

  count-filter :
      (v : ℕ) (xs : List ℕ)
      → count v (filter item pred xs) ≡ (if pred v item then count v xs else 0)
  unfolding filter
  count-filter v [] = ground (arith, count-nil v)
  count-filter v (x ∷ xs) =
      ground (arith, count-filter v xs, count-cons v x xs, count-cons v x (filter item pred xs))

-- A property of ids passes from a list to one with the same items.
pub All-of_SameItems : (P : ℕ → Type 0) (xs ys : List ℕ) → SameItems xs ys → All P ys → All P xs
All-of_SameItems P xs ys same h =
    All-of_count xs P (λ v p. All-count ys P v h (omega (arith, same v)))

sort_acc-SameItems : (xs : List ℕ) (w : Acc Shorter xs) → SameItems (sort_acc ltb xs w) xs
unfolding sort_acc
sort_acc-SameItems [] w v = refl
sort_acc-SameItems (top ∷ []) w v = refl
sort_acc-SameItems (top ∷ x ∷ xs) (Acc.intro _ below) v =
    let left = filter top ltb (x ∷ xs) in
    let right = filter top (not_op ltb) (x ∷ xs) in
    let wl = below left (omega (arith, length-filter top ltb (x ∷ xs))) in
    let wr = below right (omega (arith, length-filter top (not_op ltb) (x ∷ xs))) in
    ground (
      arith,
      count-append v (sort_acc ltb left wl) (top ∷ sort_acc ltb right wr),
      count-cons v top (sort_acc ltb right wr),
      count-cons v top (x ∷ xs),
      sort_acc-SameItems left (below left (omega (arith, length-filter top ltb (x ∷ xs)))) v,
      sort_acc-SameItems right
          (below right (omega (arith, length-filter top (not_op ltb) (x ∷ xs)))) v,
      count-filter top ltb v (x ∷ xs),
      count-filter top (not_op ltb) v (x ∷ xs),
    )

sort_acc-IsSorted : (xs : List ℕ) (w : Acc Shorter xs) → IsSorted (sort_acc ltb xs w)
unfolding sort_acc
sort_acc-IsSorted [] w = tt
sort_acc-IsSorted (top ∷ []) w = (tt, tt)
sort_acc-IsSorted (top ∷ x ∷ xs) (Acc.intro _ below) =
    IsSortedBy-append (λ t. t) (sort_acc ltb left wl) (top ∷ sort_acc ltb right wr)
      (sort_acc-IsSorted left (below left (omega (arith, length-filter top ltb (x ∷ xs)))))
      (
        above,
        sort_acc-IsSorted right
            (below right (omega (arith, length-filter top (not_op ltb) (x ∷ xs)))),
      )
      (All-imp
        (λ y (h : ltb y top ≡ true).
          let less : y ≤ top = ground arith in
          (less, All-imp (λ z (g : top ≤ z). omega arith) (sort_acc ltb right wr) above))
        (sort_acc ltb left wl)
        (All-of_SameItems _ (sort_acc ltb left wl) left (sort_acc-SameItems left wl)
          (All-passed top ltb (x ∷ xs))))
  where
    left : List ℕ
    left = filter top ltb (x ∷ xs)

    right : List ℕ
    right = filter top (not_op ltb) (x ∷ xs)

    wl : Acc Shorter left
    wl = below left (omega (arith, length-filter top ltb (x ∷ xs)))

    wr : Acc Shorter right
    wr = below right (omega (arith, length-filter top (not_op ltb) (x ∷ xs)))

    above : All (λ z. top ≤ z) (sort_acc ltb right wr)
    above =
        All-imp (λ z (h : not_op ltb z top ≡ true). ground arith) (sort_acc ltb right wr)
          (All-of_SameItems _ (sort_acc ltb right wr) right (sort_acc-SameItems right wr)
            (All-passed top (not_op ltb) (x ∷ xs)))

-- `tmap::sort` by `less` leaves the ids of every sequence in ascending order: none is lost, none is
-- new.
pub sort_lem : (xs : List ℕ) → IsSorted (sort ltb xs) × SameItems (sort ltb xs) xs
unfolding sort
sort_lem xs =
    (sort_acc-IsSorted xs (Shorter-wf.apply xs), sort_acc-SameItems xs (Shorter-wf.apply xs))

length-filters :
    (item : ℕ) (pred : ℕ → ℕ → Bool) (xs : List ℕ)
    → length (filter item pred xs) + length (filter item (not_op pred) xs) ≡ length xs
unfolding filter
length-filters item pred [] = refl
length-filters item pred (x ∷ xs) = ground (arith, length-filters item pred xs)

length-sort_acc : (xs : List ℕ) (w : Acc Shorter xs) → length (sort_acc ltb xs w) ≡ length xs
unfolding sort_acc
length-sort_acc [] w = refl
length-sort_acc (top ∷ []) w = refl
length-sort_acc (top ∷ x ∷ xs) (Acc.intro _ below) =
    let left = filter top ltb (x ∷ xs) in
    let right = filter top (not_op ltb) (x ∷ xs) in
    let wl = below left (omega (arith, length-filter top ltb (x ∷ xs))) in
    let wr = below right (omega (arith, length-filter top (not_op ltb) (x ∷ xs))) in
    omega (
      arith,
      length-append (sort_acc ltb left wl) (top ∷ sort_acc ltb right wr),
      length-sort_acc left (below left (omega (arith, length-filter top ltb (x ∷ xs)))),
      length-sort_acc right (below right (omega (arith, length-filter top (not_op ltb) (x ∷ xs)))),
      length-filters top ltb (x ∷ xs),
    )

pub length-sort : (xs : List ℕ) → length (sort ltb xs) ≡ length xs
unfolding sort
length-sort xs = length-sort_acc xs (Shorter-wf.apply xs)
