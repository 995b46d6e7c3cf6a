-- ===== src/Binalloc/Word.antt =====
-- The unsigned words of the standard library's <bit>: their length, and `&` and `~`, bit by bit.
pub mod Laws
use prototype_bundle.Prelude.{
  ℕ, zero, suc, ◌+◌, ◌-◌, ◌*◌, ◌/◌, ◌%◌, ◌^◌, Bool, true, false, ◌&&◌, not, ltb, ◌==◌,
  if◌then◌else◌,
}

-- How many bits `x` has, up to its highest one; `n` bounds them.
unfoldable pub bit_length : ℕ → ℕ → ℕ
bit_length zero x = 0
bit_length (suc n) x = if x == 0 then 0 else suc (bit_length n (x / 2))

-- `std::countl_zero` of a 64-bit word
abbrev pub countl_zero : ℕ → ℕ
countl_zero x = 64 - bit_length 64 x

-- `std::has_single_bit`
abbrev pub has_single_bit : ℕ → Bool
has_single_bit x = not (x == 0) && (2 ^ (bit_length 64 x - 1) == x)

-- `x & y` and `~x` of words of `n` bits
unfoldable pub word_and : ℕ → ℕ → ℕ → ℕ
word_and zero x y = 0
word_and (suc n) x y = word_and n (x / 2) (y / 2) * 2 + (x % 2) * (y % 2)

abbrev pub word_not : ℕ → ℕ → ℕ
word_not n x = 2 ^ n - 1 - x
