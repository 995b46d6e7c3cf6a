-- ===== src/Binalloc/Address/Laws.antt =====
-- Rounding of addresses to a power of two, and what `address_meta` makes of a cluster's addresses.
use prototype_bundle.Prelude.{ℕ, suc, ◌+◌, ◌-◌, ◌*◌, ◌/◌, ◌%◌, ◌^◌, ◌≤◌, ◌<◌, ◌≡◌, ◌∙◌, ap, arith}
use native.Mathlib.Nat.{mul-mod_left, div-mul-le_self, lt-div-mul-add, pow-suc}
use prototype_bundle.Binalloc.Word.{word_and, word_not}
use prototype_bundle.Binalloc.Word.Laws.{word_and-mask, pow-pos, pow-le}
use prototype_bundle.Binalloc.Config.{make_config}
use prototype_bundle.Binalloc.Address.{alignment_mask, align_down, align_up, address_meta}

mask-pow : (k : ℕ) → k < 64 → alignment_mask (2 ^ k) ≡ word_not 64 (2 ^ k - 1)
mask-pow k h =
    let e : (2 ^ k + 2 ^ 64 - 1) % 2 ^ 64 ≡ 2 ^ k - 1 =
      omega (arith, pow-pos k, pow-le (suc k) 64 h, pow-suc 2 k) in
    ap (λ m. word_not 64 m) e

align_down-pow : (k x : ℕ) → k < 64 → x < 2 ^ 64 → align_down x (2 ^ k) ≡ x / 2 ^ k * 2 ^ k
unfolding align_down
align_down-pow k x h word =
    ap (λ m. word_and 64 x m) (mask-pow k h) ∙ word_and-mask 64 k x (omega arith) word

align_up-pow :
    (k x : ℕ) → k < 64 → x + 2 ^ k ≤ 2 ^ 64 → align_up x (2 ^ k) ≡ (x + 2 ^ k - 1) / 2 ^ k * 2 ^ k
unfolding align_up
align_up-pow k x h room =
    let e : (x + 2 ^ k + 2 ^ 64 - 1) % 2 ^ 64 ≡ x + 2 ^ k - 1 = omega (arith, pow-pos k) in
    rw e (
      ap (λ m. word_and 64 (x + 2 ^ k - 1) m) (mask-pow k h)
      ∙ word_and-mask 64 k (x + 2 ^ k - 1) (omega arith) (omega (arith, pow-pos k)))

rounded : (b x : ℕ) → 0 < b → (x / b * b % b ≡ 0) × (x / b * b ≤ x) × (x < x / b * b + b)
rounded b x pos = (mul-mod_left (x / b) b, div-mul-le_self x b, lt-div-mul-add pos)

-- `align_down` to a power of two below 2 ^ 64 is the greatest multiple of it up to the address.
pub align_down_lem :
    (k x : ℕ)
    → k < 64
    → x < 2 ^ 64
    → (align_down x (2 ^ k) % 2 ^ k ≡ 0)
      × (align_down x (2 ^ k) ≤ x)
      × (x < align_down x (2 ^ k) + 2 ^ k)
align_down_lem k x h word = rw (align_down-pow k x h word) (rounded (2 ^ k) x (pow-pos k))

-- `align_up` to a power of two below 2 ^ 64 is the least multiple of it from the address on, where
-- the sum of the two is no more than 2 ^ 64.
pub align_up_lem :
    (k x : ℕ)
    → k < 64
    → x + 2 ^ k ≤ 2 ^ 64
    → (align_up x (2 ^ k) % 2 ^ k ≡ 0) × (x ≤ align_up x (2 ^ k)) × (align_up x (2 ^ k) < x + 2 ^ k)
align_up_lem k x h room =
    let down = rounded (2 ^ k) (x + 2 ^ k - 1) (pow-pos k) in
    rw (align_up-pow k x h room)
      (down.0, omega (arith, down.2, pow-pos k), omega (arith, down.1, pow-pos k))

-- With pages of 4096 bytes, the page that `address_meta` gives a page meta of a cluster, which it takes
-- for an address of a block, is the first one.
pub address_meta-first_page :
    (m i : ℕ)
    → m < 2 ^ 45
    → i < 127
    → (address_meta (make_config 4096) (m * 2 ^ 19 + 32 * (i + 1))).page ≡ m * 2 ^ 19 + 4096
unfolding address_meta
address_meta-first_page m i small meta =
    let a = m * 2 ^ 19 + 32 * (i + 1) in
    let down : align_down a (2 ^ 19) ≡ m * 2 ^ 19 =
      omega (arith, align_down-pow 19 a (omega arith) (omega arith)) in
    rw down (omega arith)
