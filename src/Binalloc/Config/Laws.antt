-- ===== src/Binalloc/Config/Laws.antt =====
-- The bin of a size, and the size of its blocks.
use prototype_bundle.Prelude.{
  ℕ, zero, suc, ◌+◌, ◌-◌, ◌*◌, ◌/◌, ◌^◌, ◌≤◌, ◌<◌, ◌≡◌, ◌≢◌, refl, Bool, true, false, arith, ltb,
  leb, ◌==◌, Bool-cases, inl, inr, dec_lt,
}
use native.Mathlib.Nat.{pow-suc, le-div_iff_mul-le, div-mul-le_self}
use prototype_bundle.Binalloc.Word.{bit_length, countl_zero, has_single_bit}
use prototype_bundle.Binalloc.Word.Laws.{
  lt-pow_bit_length, pow_bit_length-le, bit_length-le, pow-pos, pow-le, le_of_pow-lt,
}
use prototype_bundle.Binalloc.Config.{
  bin_offset_count, count_powers_of_two, make_config, bin_index, bin_index_max_size,
  bin_object_count,
}

size-single_bit :
    (size : ℕ) → has_single_bit size ≡ true → (size ≢ 0) × (2 ^ (bit_length 64 size - 1) ≡ size)
size-single_bit size single = go (size == 0) refl
  where
    go : (b : Bool) → (size == 0) ≡ b → (size ≢ 0) × (2 ^ (bit_length 64 size - 1) ≡ size)
    go true e = absurd (ground arith)
    go false e = (ground arith, ground arith)

bin_offset_count-single : (size : ℕ) → has_single_bit size ≡ true → 2 ^ bin_offset_count size ≡ size
unfolding bin_offset_count
bin_offset_count-single size single =
    let facts = size-single_bit size single in
    let e : 63 - countl_zero size ≡ bit_length 64 size - 1 = omega (arith, bit_length-le 64 size) in
    rw (single, e) facts.1

bin_offset_count-other :
    (size : ℕ) → has_single_bit size ≡ false → bin_offset_count size ≡ bit_length 64 size
unfolding bin_offset_count
bin_offset_count-other size other =
    let e : 64 - countl_zero size ≡ bit_length 64 size = omega (arith, bit_length-le 64 size) in
    rw (other, e) refl

-- `bin_offset_count` is the logarithm, rounded up.
bin_offset_count-le : (size : ℕ) → size < 2 ^ 64 → size ≤ 2 ^ bin_offset_count size
bin_offset_count-le size word = elim (Bool-cases (has_single_bit size)) [
  | inl single ↦ omega (arith, bin_offset_count-single size single)
  | inr other ↦
      let e = bin_offset_count-other size other in
      rw e (omega (arith, lt-pow_bit_length 64 size word))
]

bin_offset_count-lt : (size : ℕ) → 2 ≤ size → size < 2 ^ 64 → 2 ^ (bin_offset_count size - 1) < size
bin_offset_count-lt size two word = elim (Bool-cases (has_single_bit size)) [
  | inl single ↦ pow-pred size (bin_offset_count size) two (bin_offset_count-single size single)
  | inr other ↦
      let e = bin_offset_count-other size other in
      rw e (
        lt_of_ne size (bit_length 64 size - 1) (pow_bit_length-le 64 size (omega arith) word)
          λ power. absurd (ground arith))
]
  where
    pow-pred : (size b : ℕ) → 2 ≤ size → 2 ^ b ≡ size → 2 ^ (b - 1) < size
    pow-pred size zero two e = absurd (omega arith)
    pow-pred size (suc b) two e =
        let less : suc b - 1 ≡ b = omega arith in rw less (omega (arith, pow-suc 2 b, pow-pos b))

    lt_of_ne : (size b : ℕ) → 2 ^ b ≤ size → 2 ^ b ≢ size → 2 ^ b < size
    lt_of_ne size b le ne = omega arith

offset-small : (size : ℕ) → size < 2 → bin_offset_count size ≡ 0
unfolding bin_offset_count bit_length
offset-small zero h = refl
offset-small (suc zero) h = refl
offset-small (suc (suc size)) h = absurd (omega arith)

two_of_offset : (size : ℕ) → 0 < bin_offset_count size → 2 ≤ size
two_of_offset size h = elim (dec_lt size 2) [
  | yes small ↦ absurd (omega (arith, offset-small size small))
  | no large ↦ omega arith
]

offset-le :
    (size most : ℕ) → size ≤ most → most < 2 ^ 64 → bin_offset_count size ≤ bit_length 64 most
offset-le size most h word = elim (dec_lt size 2) [
  | yes small ↦ rw (offset-small size small) (omega arith)
  | no large ↦
      let low = bin_offset_count-lt size (omega arith) (omega arith) in
      let high = lt-pow_bit_length 64 most word in
      omega (
        arith,
        le_of_pow-lt (bin_offset_count size - 1) (bit_length 64 most) (omega (arith, low, high)),
      )
]

offset-sixteen : bin_offset_count 16 ≡ 4
unfolding bin_offset_count bit_length
offset-sixteen = refl

bin_index-fits :
    (page size : ℕ)
    → size ≤ page / 4
    → bin_index (make_config page) size ≡ bin_offset_count size - 4
unfolding bin_index
bin_index-fits page size fits =
    let small : ltb (page / 4) size ≡ false = ground arith in rw (small, offset-sixteen) refl

max_size-index : (page i : ℕ) → bin_index_max_size (make_config page) i ≡ 2 ^ (i + 4)
unfolding bin_index_max_size
max_size-index page i = rw offset-sixteen refl

-- The bin of a size up to a quarter of a page of fewer than 2 ^ 32 bytes has blocks large enough for
-- it, and the blocks of the bin before, where there is one, are too small.
pub bin_index_lem :
    (page size : ℕ)
    → page < 2 ^ 32
    → size ≤ page / 4
    → (size ≤ bin_index_max_size (make_config page) (bin_index (make_config page) size))
      × (0 < bin_index (make_config page) size
          → bin_index_max_size (make_config page) (bin_index (make_config page) size - 1) < size)
bin_index_lem page size word fits =
    let b = bin_offset_count size in
    rw (bin_index-fits page size fits, max_size-index page (b - 4), max_size-index page (b - 4 - 1))
      (
        omega (arith, bin_offset_count-le size (omega arith), pow-le b (b - 4 + 4) (omega arith)),
        λ later.
            let two : 2 ≤ size = two_of_offset size (omega (arith, later)) in
            let e : b - 4 - 1 + 4 ≡ b - 1 = omega arith in
            rw e (bin_offset_count-lt size two (omega arith)),
      )

-- Every size up to a quarter of a page, of at least 64 and fewer than 2 ^ 32 bytes, has its bin among
-- the allocator's.
pub bin_index-lt :
    (page size : ℕ)
    → 64 ≤ page
    → page < 2 ^ 32
    → size ≤ page / 4
    → bin_index (make_config page) size < (make_config page).bin_count
unfolding count_powers_of_two
bin_index-lt page size low word fits =
    rw (bin_index-fits page size fits, offset-sixteen)
      (let most = page / 4 in
        let high = offset-le size most fits (omega arith) in
        let low_bits : 4 < bit_length 64 most =
          le_of_pow-lt 4 (bit_length 64 most)
            (omega (arith, lt-pow_bit_length 64 most (omega arith))) in
        let some : leb 4 (bit_length 64 most - 1) ≡ true = ground arith in rw some (omega arith))

-- The blocks of the bin of a size up to a quarter of a page, of at least 64 and fewer than 2 ^ 32
-- bytes, are at least two, and fit the page.
pub bin_object_count_lem :
    (page size : ℕ)
    → 64 ≤ page
    → page < 2 ^ 32
    → size ≤ page / 4
    → (2 ≤ bin_object_count (make_config page) (bin_index (make_config page) size))
      × (bin_object_count (make_config page) (bin_index (make_config page) size)
            * bin_index_max_size (make_config page) (bin_index (make_config page) size)
          ≤ page)
unfolding bin_object_count
bin_object_count_lem page size low word fits =
    let c = make_config page in
    let i = bin_index c size in
    let e = max_size-index page i in
    let half : 2 ^ (i + 4) * 2 ≤ page = elim (dec_lt 0 i) [
      | yes later ↦
          let smaller = (bin_index_lem page size word fits).1 later in
          let less : 2 ^ (i - 1 + 4) < size = rw (max_size-index page (i - 1)) at smaller in
          let s : i + 4 ≡ suc (i - 1 + 4) = omega arith in
          rw s (omega (arith, pow-suc 2 (i - 1 + 4)))
      | no first ↦ let z : i ≡ 0 = omega arith in rw z (omega arith)
    ] in
    rw e (fits_twice page (2 ^ (i + 4)) (pow-pos (i + 4)) half)
  where
    fits_twice :
        (page block : ℕ)
        → 0 < block
        → block * 2 ≤ page
        → (2 ≤ page / block) × (page / block * block ≤ page)
    fits_twice page block pos h =
        ((le-div_iff_mul-le pos).1 (omega (arith, h)), div-mul-le_self page block)
