-- ===== src/Radix/Digits.antt =====
-- The bytes of a number: by how many items of a list a byte is held, where the bucket of a byte
-- starts, and the number that the lowest bytes make up.
use prototype_bundle.Prelude.{
  ℕ, zero, suc, ◌+◌, ◌*◌, ◌^◌, ◌≤◌, ◌<◌, ◌≡◌, refl, List, [], ◌∷◌, ◌++◌, arith, ltb, ◌==◌,
  if◌then◌else◌, length,
}
use prototype_bundle.Radix.{digit}

pub digit-lt : (k x : ℕ) → digit k x < 256
unfolding digit
digit-lt k x = omega arith

module _ (k : ℕ) where
  -- The items whose byte `k` is `e`, in their order.
  unfoldable pub with_digit : ℕ → List ℕ → List ℕ
  with_digit e [] = []
  with_digit e (x ∷ xs) = if digit k x == e then x ∷ with_digit e xs else with_digit e xs

  abbrev pub size : ℕ → List ℕ → ℕ
  size e xs = length (with_digit e xs)

  -- The number of items whose byte `k` is below `e`.
  unfoldable pub start : List ℕ → ℕ → ℕ
  start xs zero = 0
  start xs (suc e) = start xs e + size e xs

  -- The buckets of the bytes below `e`, joined.
  unfoldable pub buckets : List ℕ → ℕ → List ℕ
  buckets xs zero = []
  buckets xs (suc e) = buckets xs e ++ with_digit e xs

  pub size-cons :
      (e x : ℕ) (xs : List ℕ) → size e (x ∷ xs) ≡ (if digit k x == e then 1 else 0) + size e xs
  unfolding with_digit
  size-cons e x xs = ground arith

  pub with_digit-append :
      (e : ℕ) (xs ys : List ℕ) → with_digit e (xs ++ ys) ≡ with_digit e xs ++ with_digit e ys
  unfolding with_digit
  with_digit-append e [] ys = refl
  with_digit-append e (x ∷ xs) ys = ground (arith, with_digit-append e xs ys)

  start-nil : (e : ℕ) → start [] e ≡ 0
  unfolding start with_digit
  start-nil zero = refl
  start-nil (suc e) = omega (arith, start-nil e)

  start-cons :
      (x : ℕ) (xs : List ℕ) (e : ℕ)
      → start (x ∷ xs) e ≡ (if ltb (digit k x) e then 1 else 0) + start xs e
  unfolding start
  start-cons x xs zero = ground arith
  start-cons x xs (suc e) = ground (arith, start-cons x xs e, size-cons e x xs)

  pub start-eq-length : (xs : List ℕ) → start xs 256 ≡ length xs
  start-eq-length [] = start-nil 256
  start-eq-length (x ∷ xs) = ground (arith, start-cons x xs 256, digit-lt k x, start-eq-length xs)

  pub start-le_start : (xs : List ℕ) (d e : ℕ) → d ≤ e → start xs d ≤ start xs e
  unfolding start
  start-le_start xs d zero h = ground arith
  start-le_start xs d (suc e) h = ground (arith, start-le_start xs d e)

-- The number made of the lowest `k` bytes.
unfoldable pub low : ℕ → ℕ → ℕ
low zero x = 0
low (suc k) x = digit k x * 256 ^ k + low k x

pub low_8 : (x : ℕ) → x < 2 ^ 64 → low 8 x ≡ x
unfolding low digit
low_8 x h = omega arith
