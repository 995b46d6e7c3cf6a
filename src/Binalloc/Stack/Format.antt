-- ===== src/Binalloc/Stack/Format.antt =====
-- What `format_stack` makes of a buffer.
use prototype_bundle.Prelude.{
  ℕ, zero, suc, ◌+◌, ◌-◌, ◌*◌, ◌/◌, ◌≤◌, ◌<◌, ◌≡◌, ltb, [], ◌∷◌, ◌++◌, true, false, arith, refl,
  sym, ap, ◌∙◌, subst, dec_lt,
}
use native.Mathlib.Nat.{le-div_iff_mul-le, div-eq_of_lt, div-le_self, mul-suc}
use prototype_bundle.Binalloc.Stack.{nullptr, NextFields, write, format_loop, format_stack}
use prototype_bundle.Binalloc.Stack.Chain.{
  IsChain, Holds, IsFresh, addresses, write-same, write-other, IsChain-write, IsChain-append,
}

-- The loop leaves the nodes below the cursor.
format_loop-below :
    (fuel : ℕ) (next : NextFields) (cursor last stride at : ℕ)
    → 0 < stride
    → at < cursor
    → format_loop fuel next cursor last stride at ≡ next at
unfolding format_loop
format_loop-below zero next cursor last stride at pos low = refl
format_loop-below (suc fuel) next cursor last stride at pos low =
    let step = write next cursor (cursor + stride) in
    let below = format_loop-below fuel step (cursor + stride) last stride at pos (omega arith) in
    let other = write-other next cursor (cursor + stride) at (ground arith) in
    elim (dec_lt cursor last) [
      | yes more ↦ let e : ltb cursor last ≡ true = ground arith in rw e (below ∙ other)
      | no done ↦ let e : ltb cursor last ≡ false = ground arith in rw e refl
    ]

format_loop-more :
    (fuel : ℕ) (next : NextFields) (cursor last stride : ℕ)
    → cursor < last
    → format_loop (suc fuel) next cursor last stride
      ≡ format_loop fuel (write next cursor (cursor + stride)) (cursor + stride) last stride
unfolding format_loop
format_loop-more fuel next cursor last stride more =
    let e : ltb cursor last ≡ true = ground arith in rw e refl

format_loop-IsChain :
    (n fuel : ℕ) (next : NextFields) (cursor last stride : ℕ)
    → 0 < stride
    → 0 < cursor
    → cursor + stride * n ≡ last
    → n ≤ fuel
    → IsChain (format_loop fuel next cursor last stride) cursor (addresses cursor stride n) last
unfolding IsChain addresses
format_loop-IsChain zero fuel next cursor last stride pos there e enough = omega arith
format_loop-IsChain (suc n) zero next cursor last stride pos there e enough = absurd (omega arith)
format_loop-IsChain (suc n) (suc fuel) next cursor last stride pos there e enough =
    let step = write next cursor (cursor + stride) in
    let more = format_loop-more fuel next cursor last stride (omega (arith, mul-suc stride n)) in
    let link =
      format_loop-below fuel step (cursor + stride) last stride cursor pos (omega arith)
      ∙ write-same next cursor (cursor + stride) in
    let rest =
      format_loop-IsChain n fuel step (cursor + stride) last stride pos (omega arith)
        (omega (arith, mul-suc stride n)) (omega arith) in
    let looped = format_loop fuel step (cursor + stride) last stride in
    let nodes = addresses (cursor + stride) stride n in
    subst (λ f. IsChain f cursor (cursor ∷ nodes) last) (sym more)
      (refl, ground arith, subst (λ a. IsChain looped a nodes last) (sym link) rest)

addresses-IsFresh :
    (n start stride at : ℕ)
    → start + stride * n ≤ at
    → 0 < stride
    → IsFresh at (addresses start stride n)
unfolding addresses
addresses-IsFresh zero start stride at h pos = tt
addresses-IsFresh (suc n) start stride at h pos = (
  ground (arith, mul-suc stride n),
  addresses-IsFresh n (start + stride) stride at (omega (arith, mul-suc stride n)) pos,
)

addresses-suc :
    (n start stride : ℕ)
    → addresses start stride (suc n) ≡ addresses start stride n ++ (start + stride * n) ∷ []
unfolding addresses
addresses-suc zero start stride = ap (λ a. a ∷ []) (omega arith)
addresses-suc (suc n) start stride =
    let e : start + stride + stride * n ≡ start + stride * suc n =
      omega (arith, mul-suc stride n) in
    ap (λ l. start ∷ l)
      (addresses-suc n (start + stride) stride
        ∙ ap (λ a. addresses (start + stride) stride n ++ a ∷ []) e)

-- `format_stack` of a buffer, not at null, with a stride of 8 bytes at least, which a node takes,
-- holds the addresses of as many nodes as fit, each a stride after the one before.
pub format_stack_lem :
    (next : NextFields) (buffer size stride : ℕ)
    → 0 < buffer
    → 8 ≤ stride
    → Holds (format_stack next buffer size stride) (addresses buffer stride (size / stride))
unfolding format_stack IsChain addresses
format_stack_lem next buffer size stride there node =
    let pos : 0 < stride = omega arith in
    elim (dec_lt size stride) [
      | yes small ↦
          let none_fit : size / stride ≡ 0 = div-eq_of_lt small in
          let e : ltb size stride ≡ true = ground arith in rw (e, none_fit) refl
      | no large ↦
          let some_fit : 1 ≤ size / stride = (le-div_iff_mul-le pos).1 (omega arith) in
          let m = size / stride - 1 in
          let count : size / stride ≡ suc m = omega arith in
          let fuel : m ≤ size = omega (arith, div-le_self size stride) in
          let e : ltb size stride ≡ false = ground arith in
          let last = buffer + stride * m in
          let loop = format_loop-IsChain m size next buffer last stride pos there refl fuel in
          let looped = format_loop size next buffer last stride in
          rw e (
            subst (λ l. IsChain (write looped last nullptr) buffer l nullptr)
              (sym (ap (addresses buffer stride) count ∙ addresses-suc m buffer stride))
              (IsChain-append (write looped last nullptr) buffer (addresses buffer stride m) last
                (last ∷ []) nullptr
                (IsChain-write looped last nullptr buffer (addresses buffer stride m) last
                  (addresses-IsFresh m buffer stride last (omega arith) pos) loop)
                (refl, ground arith, write-same looped last nullptr)))
    ]
