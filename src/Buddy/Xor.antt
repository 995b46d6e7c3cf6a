-- ===== src/Buddy/Xor.antt =====
-- Exclusive or with one binary digit, which `find_buddy` of gc_prototype.cpp computes.
use prototype_bundle.Prelude.{
  ℕ, zero, suc, ◌+◌, ◌*◌, ◌/◌, ◌%◌, ◌^◌, ◌≤◌, ◌<◌, ◌≡◌, refl, ◌∙◌, ap, ap₂, arith, sym,
}
use prototype_bundle.Binalloc.Word.Laws.{pow-le}
use prototype_bundle.Buddy.{size, find_buddy}
use native.Mathlib.Nat.{pow-suc}
use Prim.Native.Nat.{bit_xor, bit_xor-bitwise, digits, differ}

abbrev xor_digits : ℕ → ℕ → ℕ → ℕ
xor_digits n a b = digits (λ b. b) differ n a b

xor_digits_fuel : (n m a b : ℕ) → a ≤ n → a ≤ m → xor_digits n a b ≡ xor_digits m a b
xor_digits_fuel zero zero a b p q = refl
xor_digits_fuel zero (suc m) zero b p q = refl
xor_digits_fuel zero (suc m) (suc a) b p q = absurd (omega arith)
xor_digits_fuel (suc n) zero zero b p q = refl
xor_digits_fuel (suc n) zero (suc a) b p q = absurd (omega arith)
xor_digits_fuel (suc n) (suc m) zero b p q = refl
xor_digits_fuel (suc n) (suc m) (suc a) b p q =
    omega (arith, xor_digits_fuel n m (suc a / 2) (b / 2) (omega arith) (omega arith))

zero-bit_xor : (b : ℕ) → bit_xor 0 b ≡ b
zero-bit_xor b = bit_xor-bitwise 0 b

-- `differ` of the lowest digits
abbrev lowest : ℕ → ℕ → ℕ
lowest a b = differ (a % 2) (b % 2)

differ-zero : (b : ℕ) → lowest 0 b ≡ b % 2
differ-zero b = refl

differ-right : (x : ℕ) → differ x 0 ≡ x
differ-right zero = refl
differ-right (suc x) = refl

bit_xor_step : (a b : ℕ) → bit_xor a b ≡ bit_xor (a / 2) (b / 2) * 2 + lowest a b
bit_xor_step zero b = omega (arith, zero-bit_xor b, zero-bit_xor (b / 2), differ-zero b)
bit_xor_step (suc a) b = omega (
  arith,
  bit_xor-bitwise (suc a) b,
  bit_xor-bitwise (suc a / 2) (b / 2),
  xor_digits_fuel a (suc a / 2) (suc a / 2) (b / 2) (omega arith) (omega arith),
)

double-bit_xor : (a b : ℕ) → bit_xor (2 * a) (2 * b) ≡ 2 * bit_xor a b
double-bit_xor a b =
    let ha : (2 * a) / 2 ≡ a = omega arith in
    let hb : (2 * b) / 2 ≡ b = omega arith in
    let ra : (2 * a) % 2 ≡ 0 = omega arith in
    let rb : (2 * b) % 2 ≡ 0 = omega arith in
    let low : lowest (2 * a) (2 * b) ≡ 0 = rw (ra, rb) refl in
    let step : bit_xor (2 * a) (2 * b) ≡ bit_xor a b * 2 + lowest (2 * a) (2 * b) =
      bit_xor_step (2 * a) (2 * b) ∙ ap₂ (λ x y. bit_xor x y * 2 + lowest (2 * a) (2 * b)) ha hb in
    omega arith

bit_xor-zero_fuel : (n a : ℕ) → a ≤ n → bit_xor a 0 ≡ a
bit_xor-zero_fuel n zero h = refl
bit_xor-zero_fuel zero (suc a) h = absurd (omega arith)
bit_xor-zero_fuel (suc n) (suc a) h = omega (
  arith,
  bit_xor_step (suc a) 0,
  bit_xor-zero_fuel n (suc a / 2) (omega arith),
  differ-right (suc a % 2),
)

bit_xor-zero : (a : ℕ) → bit_xor a 0 ≡ a
bit_xor-zero a = bit_xor-zero_fuel a a (omega arith)

even-bit_xor : (m : ℕ) → bit_xor (2 * m) 1 ≡ 2 * m + 1
even-bit_xor m =
    let ha : (2 * m) / 2 ≡ m = omega arith in
    let ra : (2 * m) % 2 ≡ 0 = omega arith in
    let low : lowest (2 * m) 1 ≡ 1 = rw ra refl in
    let none_left : bit_xor m 0 ≡ m = bit_xor-zero m in
    let step : bit_xor (2 * m) 1 ≡ bit_xor m 0 * 2 + lowest (2 * m) 1 =
      bit_xor_step (2 * m) 1 ∙ ap (λ x. bit_xor x 0 * 2 + lowest (2 * m) 1) ha in
    omega arith

odd-bit_xor : (m : ℕ) → bit_xor (2 * m + 1) 1 ≡ 2 * m
odd-bit_xor m =
    let ha : (2 * m + 1) / 2 ≡ m = omega arith in
    let ra : (2 * m + 1) % 2 ≡ 1 = omega arith in
    let low : lowest (2 * m + 1) 1 ≡ 0 = rw ra refl in
    let none_left : bit_xor m 0 ≡ m = bit_xor-zero m in
    let step : bit_xor (2 * m + 1) 1 ≡ bit_xor m 0 * 2 + lowest (2 * m + 1) 1 =
      bit_xor_step (2 * m + 1) 1 ∙ ap (λ x. bit_xor x 0 * 2 + lowest (2 * m + 1) 1) ha in
    omega arith

double-pow : (k : ℕ) → 2 ^ suc k ≡ 2 * 2 ^ k
double-pow k = omega (arith, pow-suc 2 k)

double-product : (k x : ℕ) → 2 ^ suc k * x ≡ 2 * (2 ^ k * x)
double-product k x = grind (arith, double-pow k)

-- With a power of two: the digit is set in an even multiple, and taken away from an odd one.
even_multiple-bit_xor : (k m : ℕ) → bit_xor (2 ^ k * (2 * m)) (2 ^ k) ≡ 2 ^ k * (2 * m + 1)
even_multiple-bit_xor zero m =
    let e : 2 ^ 0 * (2 * m) ≡ 2 * m = omega arith in
    let e2 : 2 ^ 0 * (2 * m + 1) ≡ 2 * m + 1 = omega arith in
    ap (λ x. bit_xor x 1) e ∙ even-bit_xor m ∙ sym e2
even_multiple-bit_xor (suc k) m =
    ap₂ bit_xor (double-product k (2 * m)) (double-pow k)
    ∙ double-bit_xor (2 ^ k * (2 * m)) (2 ^ k)
    ∙ ap (λ x. 2 * x) (even_multiple-bit_xor k m)
    ∙ sym (double-product k (2 * m + 1))

odd_multiple-bit_xor : (k m : ℕ) → bit_xor (2 ^ k * (2 * m + 1)) (2 ^ k) ≡ 2 ^ k * (2 * m)
odd_multiple-bit_xor zero m =
    let e : 2 ^ 0 * (2 * m + 1) ≡ 2 * m + 1 = omega arith in
    let e2 : 2 ^ 0 * (2 * m) ≡ 2 * m = omega arith in
    ap (λ x. bit_xor x 1) e ∙ odd-bit_xor m ∙ sym e2
odd_multiple-bit_xor (suc k) m =
    ap₂ bit_xor (double-product k (2 * m + 1)) (double-pow k)
    ∙ double-bit_xor (2 ^ k * (2 * m + 1)) (2 ^ k)
    ∙ ap (λ x. 2 * x) (odd_multiple-bit_xor k m)
    ∙ sym (double-product k (2 * m))

-- The bytes of a block, which `32U << level` has lost from level 27 on.
unfoldable pub block_size : ℕ → ℕ
block_size level = 32 * 2 ^ level

size-block_size : (level : ℕ) → level < 27 → size level ≡ block_size level
unfolding size block_size
size-block_size level small = omega (arith, pow-le level 26 (omega arith))

block_size-pow : (level : ℕ) → block_size level ≡ 2 ^ (level + 5)
unfolding block_size
block_size-pow zero = refl
block_size-pow (suc level) =
    let e : suc level + 5 ≡ suc (level + 5) = omega arith in
    let rest = block_size-pow level in
    rw e (omega (arith, double-pow level, double-pow (level + 5), rest))

pub block_size-suc : (level : ℕ) → block_size (suc level) ≡ block_size level + block_size level
unfolding block_size
block_size-suc level = omega (arith, double-pow level)

pub block_size-pos : (level : ℕ) → 0 < block_size level
unfolding block_size
block_size-pos zero = omega arith
block_size-pos (suc level) = omega (arith, double-pow level, block_size-pos level)

-- Below level 27, the buddy of a block on the left of its parent, and of one on the right
pub find_buddy-left :
    (level m : ℕ)
    → level < 27
    → find_buddy (block_size (suc level) * m) level ≡ block_size (suc level) * m + block_size level
unfolding find_buddy
find_buddy-left level m small =
    let q = 2 ^ (level + 5) in
    let e : block_size (suc level) ≡ q + q = rw (block_size-suc level, block_size-pow level) refl in
    let at : block_size (suc level) * m ≡ q * (2 * m) = grind (arith, e) in
    let to : block_size (suc level) * m + block_size level ≡ q * (2 * m + 1) =
      grind (arith, e, block_size-pow level) in
    ap₂ bit_xor at (size-block_size level small ∙ block_size-pow level)
    ∙ even_multiple-bit_xor (level + 5) m
    ∙ sym to

pub find_buddy-right :
    (level m : ℕ)
    → level < 27
    → find_buddy (block_size (suc level) * m + block_size level) level ≡ block_size (suc level) * m
unfolding find_buddy
find_buddy-right level m small =
    let q = 2 ^ (level + 5) in
    let e : block_size (suc level) ≡ q + q = rw (block_size-suc level, block_size-pow level) refl in
    let at : block_size (suc level) * m ≡ q * (2 * m) = grind (arith, e) in
    let to : block_size (suc level) * m + block_size level ≡ q * (2 * m + 1) =
      grind (arith, e, block_size-pow level) in
    ap₂ bit_xor to (size-block_size level small ∙ block_size-pow level)
    ∙ odd_multiple-bit_xor (level + 5) m
    ∙ sym at
