-- ===== src/Radix/Buckets.antt =====
-- The joined buckets of a list: the same items, sorted by one more byte.
use prototype_bundle.Prelude.{
  ℕ, zero, suc, ◌^◌, ◌≤◌, ◌<◌, ◌≡◌, List, [], ◌∷◌, arith, ltb, ◌==◌, if◌then◌else◌, All, All-append,
  All-imp, IsSortedBy, IsSortedBy-append, SameItems, count, count-append, count-nil, count-cons,
  Bool-cases, inl, inr,
}
use native.Mathlib.Nat.{pow-suc}
use prototype_bundle.Radix.{digit}
use prototype_bundle.Radix.Digits.{digit-lt, with_digit, buckets, low}

-- The joined buckets hold the same items.
count-with_digit :
    (k e v : ℕ) (xs : List ℕ)
    → count v (with_digit k e xs) ≡ (if digit k v == e then count v xs else 0)
unfolding with_digit
count-with_digit k e v [] = ground (arith, count-nil v)
count-with_digit k e v (x ∷ xs) =
    ground (arith, count-with_digit k e v xs, count-cons v x xs, count-cons v x (with_digit k e xs))

count-buckets :
    (k v : ℕ) (xs : List ℕ) (e : ℕ)
    → count v (buckets k xs e) ≡ (if ltb (digit k v) e then count v xs else 0)
unfolding buckets
count-buckets k v xs zero = ground (arith, count-nil v)
count-buckets k v xs (suc e) = ground (
  arith,
  count-append v (buckets k xs e) (with_digit k e xs),
  count-with_digit k e v xs,
  count-buckets k v xs e,
)

pub SameItems-buckets : (k : ℕ) (xs : List ℕ) → SameItems (buckets k xs 256) xs
SameItems-buckets k xs v = ground (arith, count-buckets k v xs 256, digit-lt k v)

module _ {ℓ} (P : ℕ → Type ℓ) (k e : ℕ) where
  All-with_digit : (xs : List ℕ) → All P xs → All P (with_digit k e xs)
  unfolding with_digit
  All-with_digit [] h = tt
  All-with_digit (x ∷ xs) h = elim (Bool-cases (digit k x == e)) [
    | inl same ↦ rw same (h.0, All-with_digit xs h.1)
    | inr other ↦ rw other (All-with_digit xs h.1)
  ]

module _ (k : ℕ) where
  All-digit : (e : ℕ) (xs : List ℕ) → All (λ x. digit k x ≡ e) (with_digit k e xs)
  unfolding with_digit
  All-digit e [] = tt
  All-digit e (x ∷ xs) = elim (Bool-cases (digit k x == e)) [
    | inl same ↦ rw same (ground arith, All-digit e xs)
    | inr other ↦ rw other (All-digit e xs)
  ]

  All-buckets : (xs : List ℕ) (e : ℕ) → All (λ x. digit k x < e) (buckets k xs e)
  unfolding buckets
  All-buckets xs zero = tt
  All-buckets xs (suc e) =
      All-append _ (buckets k xs e) (with_digit k e xs)
        (All-imp (λ x (h : digit k x < e). omega arith) (buckets k xs e) (All-buckets xs e))
        (All-imp (λ x (h : digit k x ≡ e). omega arith) (with_digit k e xs) (All-digit e xs))

  IsSortedBy-with_digit :
      (key : ℕ → ℕ) (e : ℕ) (xs : List ℕ) → IsSortedBy key xs → IsSortedBy key (with_digit k e xs)
  unfolding with_digit
  IsSortedBy-with_digit key e [] s = tt
  IsSortedBy-with_digit key e (x ∷ xs) s = elim (Bool-cases (digit k x == e)) [
    | inl same ↦ rw same (All-with_digit _ k e xs s.0, IsSortedBy-with_digit key e xs s.1)
    | inr other ↦ rw other (IsSortedBy-with_digit key e xs s.1)
  ]

  low-lt : (j x : ℕ) → low j x < 256 ^ j
  unfolding low
  low-lt zero x = omega arith
  low-lt (suc j) x = grind (arith, pow-suc 256 j, digit-lt j x, low-lt j x)

  -- Equal bytes `k`: the lower bytes decide.
  low_of_same :
      (e x y : ℕ)
      → digit k x ≡ e
      → digit k y ≡ e
      → low k x ≤ low k y
      → low (suc k) x ≤ low (suc k) y
  unfolding low
  low_of_same e x y p q h = rw (p, q) (omega arith)

  -- A smaller byte `k` decides.
  low_of_lt : (x y : ℕ) → digit k x < digit k y → low (suc k) x ≤ low (suc k) y
  unfolding low
  low_of_lt x y h = grind (arith, low-lt k x)

  low_of_digits :
      (e : ℕ) (xs : List ℕ)
      → All (λ x. digit k x ≡ e) xs
      → IsSortedBy (low k) xs
      → IsSortedBy (low (suc k)) xs
  low_of_digits e [] d s = tt
  low_of_digits e (x ∷ xs) d s = (heads xs d.1 s.0, low_of_digits e xs d.1 s.1)
    where
      heads :
          (ys : List ℕ)
          → All (λ y. digit k y ≡ e) ys
          → All (λ y. low k x ≤ low k y) ys
          → All (λ y. low (suc k) x ≤ low (suc k) y) ys
      heads [] p q = tt
      heads (y ∷ ys) p q = (low_of_same e x y d.0 p.0 q.0, heads ys p.1 q.1)

  -- The joined buckets of a list sorted by the lower bytes are sorted by one more byte.
  pub IsSortedBy-buckets :
      (xs : List ℕ) (e : ℕ) → IsSortedBy (low k) xs → IsSortedBy (low (suc k)) (buckets k xs e)
  unfolding buckets
  IsSortedBy-buckets xs zero s = tt
  IsSortedBy-buckets xs (suc e) s =
      IsSortedBy-append (low (suc k)) (buckets k xs e) (with_digit k e xs)
        (IsSortedBy-buckets xs e s)
        (low_of_digits e (with_digit k e xs) (All-digit e xs)
          (IsSortedBy-with_digit (low k) e xs s))
        (All-imp
          (λ x (h : digit k x < e).
            All-imp (λ y (same : digit k y ≡ e). low_of_lt x y (omega arith)) (with_digit k e xs)
              (All-digit e xs))
          (buckets k xs e) (All-buckets xs e))
