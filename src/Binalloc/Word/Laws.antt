-- ===== src/Binalloc/Word/Laws.antt =====
-- Bounds of the length of a word, and the mask that `~(2 ^ k - 1)` is.
use prototype_bundle.Prelude.{
  ℕ, zero, suc, ◌-◌, ◌*◌, ◌/◌, ◌%◌, ◌^◌, ◌≤◌, ◌<◌, ◌≡◌, refl, arith, ◌==◌, Bool-cases, false,
  dec_lt, inl, inr,
}
use native.Mathlib.Nat.{pow-suc, pow-succ', div-div-eq-div-mul}
use prototype_bundle.Binalloc.Word.{bit_length, word_and, word_not}

pub lt-pow_bit_length : (n x : ℕ) → x < 2 ^ n → x < 2 ^ bit_length n x
unfolding bit_length
lt-pow_bit_length zero x h = h
lt-pow_bit_length (suc n) x h = elim (Bool-cases (x == 0)) [
  | inl none_left ↦ rw none_left (ground arith)
  | inr more ↦
      let half = lt-pow_bit_length n (x / 2) (grind (arith, pow-suc 2 n)) in
      rw more (grind (arith, half, pow-suc 2 (bit_length n (x / 2))))
]

pub pow-pos : (n : ℕ) → 0 < 2 ^ n
pow-pos zero = omega arith
pow-pos (suc n) = omega (arith, pow-suc 2 n, pow-pos n)

pub pow-le : (k n : ℕ) → k ≤ n → 2 ^ k ≤ 2 ^ n
pow-le k zero h = let e : k ≡ 0 = omega arith in rw e (omega arith)
pow-le k (suc n) h = elim (dec_lt n k) [
  | yes top ↦ let e : k ≡ suc n = omega arith in rw e (omega arith)
  | no below ↦ omega (arith, pow-suc 2 n, pow-le k n (omega arith))
]

bit_length-zero : (n : ℕ) → bit_length n 0 ≡ 0
unfolding bit_length
bit_length-zero zero = refl
bit_length-zero (suc n) = refl

pow-le_double : (b y x : ℕ) → 2 ^ (b - 1) ≤ y → y < 2 ^ b → 0 < y → y * 2 ≤ x → 2 ^ b ≤ x
pow-le_double zero y x low high pos le = absurd (omega arith)
pow-le_double (suc b) y x low high pos le =
    let e : suc b - 1 ≡ b = omega arith in omega (arith, pow-suc 2 b, (rw e at low))

pub pow_bit_length-le : (n x : ℕ) → 0 < x → x < 2 ^ n → 2 ^ (bit_length n x - 1) ≤ x
unfolding bit_length
pow_bit_length-le zero x pos h = absurd (omega arith)
pow_bit_length-le (suc n) x pos h =
    let more : (x == 0) ≡ false = ground arith in
    let one_less : suc (bit_length n (x / 2)) - 1 ≡ bit_length n (x / 2) = omega arith in
    rw (more, one_less)
      (elim (dec_lt 0 (x / 2)) [
        | yes some_left ↦
            let half : x / 2 < 2 ^ n = omega (arith, pow-suc 2 n) in
            pow-le_double (bit_length n (x / 2)) (x / 2) x
              (pow_bit_length-le n (x / 2) some_left half) (lt-pow_bit_length n (x / 2) half)
              some_left (omega arith)
        | no last ↦ let gone : x / 2 ≡ 0 = omega arith in rw (gone, bit_length-zero n) (omega arith)
      ])

-- `~(2 ^ k - 1)` keeps all bits of a word but the `k` lowest.
pub word_and-mask :
    (n k x : ℕ) → k ≤ n → x < 2 ^ n → word_and n x (word_not n (2 ^ k - 1)) ≡ x / 2 ^ k * 2 ^ k
unfolding word_and
word_and-mask zero k x h lt = let gone : x ≡ 0 = omega arith in rw gone (omega (arith, pow-pos k))
word_and-mask (suc n) zero x h lt =
    let half : word_not (suc n) (2 ^ 0 - 1) / 2 ≡ word_not n (2 ^ 0 - 1) =
      omega (arith, pow-suc 2 n, pow-pos n) in
    let odd : word_not (suc n) (2 ^ 0 - 1) % 2 ≡ 1 = omega (arith, pow-suc 2 n, pow-pos n) in
    rw (half, odd)
      (omega (arith, word_and-mask n 0 (x / 2) (omega arith) (omega (arith, pow-suc 2 n))))
word_and-mask (suc n) (suc k) x h lt =
    let half : word_not (suc n) (2 ^ suc k - 1) / 2 ≡ word_not n (2 ^ k - 1) =
      omega (arith, pow-suc 2 n, pow-suc 2 k, pow-pos k, pow-le k n) in
    let even : word_not (suc n) (2 ^ suc k - 1) % 2 ≡ 0 =
      omega (arith, pow-suc 2 n, pow-suc 2 k, pow-pos k, pow-le k n) in
    let below = word_and-mask n k (x / 2) (omega arith) (omega (arith, pow-suc 2 n)) in
    rw (half, even, below, div-div-eq-div-mul x 2 (2 ^ k), pow-succ' 2 k) (omega arith)

pub bit_length-le : (n x : ℕ) → bit_length n x ≤ n
unfolding bit_length
bit_length-le zero x = omega arith
bit_length-le (suc n) x = ground (arith, bit_length-le n (x / 2))

-- The exponent of a power of two is at most that of a greater one.
pub le_of_pow-lt : (a b : ℕ) → 2 ^ a < 2 ^ b → a < b
le_of_pow-lt a b h = elim (dec_lt a b) [
  | yes lt ↦ lt
  | no ge ↦ absurd (omega (arith, pow-le b a (omega arith)))
]
