-- ===== src/Ring/Copy.antt =====
-- `operator=` of another buffer: where it copies the items, and where it loses them.
use prototype_bundle.Prelude.{
  ℕ, zero, suc, ◌+◌, ◌-◌, ◌^◌, ◌≤◌, ◌<◌, ◌≡◌, ◌≢◌, ◌∙◌, ◌==◌, ◌⊎◌, inl, inr, Bool-cases, true, ap,
  refl, Option, none, some, false, List, [], arith, ltb, leb, if◌then◌else◌, length, get_elem?, set,
  replicate, length-set, length-replicate, ℕ_discrete, dec_lt, lt→ltb,
}
use prototype_bundle.Ring.{
  Result, ok, fault, ◌>>=◌, Ring, construct, read, transpose_index, apply_range, fresh, copy_from,
  uninit_copy_range, assign,
}
use prototype_bundle.Ring.Refine.{slot, expected, get_elem?-set, get_elem?-none, Represents}
use prototype_bundle.Ring.Ranges.{
  within, IsLive, item_at, slot_at, first_place, apply_range_folded, apply_range_plain,
  destruct_lem,
}

pub get_elem?-replicate :
    {A : Type 0} (n i : ℕ) → i < n → get_elem? {A = Option A} (replicate n none) i ≡ some none
get_elem?-replicate zero i h = absurd (omega arith)
get_elem?-replicate (suc n) zero h = refl
get_elem?-replicate (suc n) (suc i) h = get_elem?-replicate n i (omega arith)

read-cases :
    {A : Type 0} (slots : List (Option A)) (i : ℕ)
    → (read slots i ≡ fault) ⊎ ((v : A) × (read slots i ≡ ok v))
unfolding read
read-cases slots i = go (get_elem? slots i) refl
  where
    go :
        (o : _) → get_elem? slots i ≡ o → (read slots i ≡ fault) ⊎ ((v : _) × (read slots i ≡ ok v))
    go none e = inl (rw (e, read) refl)
    go (some none) e = inl (rw (e, read) refl)
    go (some (some v)) e = inr (v, rw (e, read) refl)

construct-cases :
    {A : Type 0} (slots : List (Option A)) (i : ℕ) (v : A)
    → (construct slots i v ≡ fault) ⊎ ((out : List (Option A)) × (construct slots i v ≡ ok out))
unfolding construct
construct-cases slots i v = elim (Bool-cases (ltb i (length slots))) [
  | inl e ↦ inr (set slots i (some v), rw e refl)
  | inr e ↦ inl (rw e refl)
]

copy_from_lem :
    {A : Type 0} (source : List (Option A)) (n b d : ℕ) (slots : List (Option A))
    → ((k : ℕ) → b ≤ k → k < b + n → IsLive source k)
    → d + n ≤ length slots
    → (out : List (Option A)) × (copy_from source n b d slots ≡ ok out)
      × (length out ≡ length slots)
      × ((k : ℕ)
          → get_elem? out k
            ≡ (if within d (d + n) k then get_elem? source (b + (k - d)) else get_elem? slots k))
unfolding copy_from read construct
copy_from_lem source zero b d slots live room = (slots, refl, refl, λ k. ground arith)
copy_from_lem source (suc n) b d slots live room =
    let (v, here) = live b (omega arith) (omega arith) in
    let next = set slots d (some v) in
    let in_storage : d < length slots = omega arith in
    let (out, run, len, out_lem) =
      copy_from_lem source n (suc b) (suc d) next (λ k ge lt. live k (omega arith) (omega arith))
        (omega (arith, length-set slots d (some v))) in
    (
      out,
      rw (here, read) (rw (lt→ltb _ _ in_storage) run),
      len ∙ length-set slots d (some v),
      λ k. elim (ℕ_discrete d k) [
        | yes same ↦
            let from : b + (k - d) ≡ b = omega arith in
            rw from (ground (arith, out_lem k, get_elem?-set slots d k (some v) in_storage, here))
        | no other ↦ rw (out_lem k) (moved v in_storage k other)
      ],
    )
  where
    moved :
        (v : _)
        → d < length slots
        → (k : ℕ) → d ≢ k
        → (if within (suc d) (suc d + n) k
            then get_elem? source (suc b + (k - suc d))
            else get_elem? (set slots d (some v)) k)
          ≡ (if within d (d + suc n) k then get_elem? source (b + (k - d)) else get_elem? slots k)
    moved v in_storage k other = elim (dec_lt k d) [
      | yes before ↦ ground (arith, get_elem?-set slots d k (some v) in_storage)
      | no after ↦
          let from : suc b + (k - suc d) ≡ b + (k - d) = omega arith in
          rw from (ground (arith, get_elem?-set slots d k (some v) in_storage))
    ]

-- A copy throws nothing.
copy_from-cases :
    {A : Type 0} (source : List (Option A)) (n b d : ℕ) (slots : List (Option A))
    → (copy_from source n b d slots ≡ fault)
      ⊎ ((out : List (Option A)) × (copy_from source n b d slots ≡ ok out))
unfolding copy_from
copy_from-cases source zero b d slots = inr (slots, refl)
copy_from-cases source (suc n) b d slots = elim (read-cases source b) [
  | inl failed ↦ inl (rw failed refl)
  | inr (v, there) ↦ elim (construct-cases slots d v) [
    | inl failed ↦ inl (rw (there, failed) refl)
    | inr (next, made) ↦ rw (there, made) (copy_from-cases source n (suc b) (suc d) next)
  ]
]

pub fresh-Represents :
    {A : Type 0} (capacity : ℕ)
    → 0 < capacity
    → capacity < 2 ^ 63
    → Represents {A = A} capacity (fresh capacity) []
fresh-Represents capacity pos small = record {
  storage = length-replicate capacity none;
  small = small;
  begin_in = pos;
  counted = refl;
  fits = omega arith;
  items = λ i lt. get_elem?-replicate capacity (slot capacity 0 i) (ground arith);
}

module _ {A : Type 0} (capacity : ℕ) {self origin : Ring A} (p q : List A)
    (v : Represents capacity self p) (w : Represents capacity origin q) where
  abbrev raw : List (Option A)
  raw = replicate capacity none

  abbrev finish : Option ℕ × List (Option A) → Result (Ring A)
  finish s = ok (record { slots = s.1; begin = 0; count = origin.count })

  abbrev copies : Option ℕ → Result (Option ℕ × List (Option A))
  copies d = apply_range capacity origin (uninit_copy_range origin.slots) (d, raw)

  -- What `operator=` does once the old items are destroyed.
  assign-copies : assign capacity false self origin ≡ (copies (some self.begin) >>= finish)
  unfolding assign
  assign-copies =
      ap
        (λ s. s >>= λ slots.
          apply_range capacity origin (uninit_copy_range origin.slots)
            (some (transpose_index capacity self 0), slots)
          >>= finish)
        (destruct_lem capacity p v)
      ∙ ap (λ d. copies (some d) >>= finish) (first_place capacity p v)

  IsLive-item :
      (k : ℕ)
      → origin.begin ≤ k
      → k < capacity
      → k < origin.begin + length q
      → IsLive origin.slots k
  IsLive-item k ge lt held =
      let (x, e) = item_at q (k - origin.begin) (omega arith) in
      let at_k : (if leb origin.begin k then k - origin.begin else k + capacity - origin.begin)
          ≡ k - origin.begin =
        ground arith in
      (x, slot_at capacity q w k lt ∙ ap (expected q) at_k ∙ ap some e)

  IsLive-low_item :
      (k : ℕ) → k < origin.begin → k + capacity < origin.begin + length q → IsLive origin.slots k
  IsLive-low_item k lt held =
      let (x, e) = item_at q (k + capacity - origin.begin) (omega arith) in
      let at_k : (if leb origin.begin k then k - origin.begin else k + capacity - origin.begin)
          ≡ k + capacity - origin.begin =
        ground arith in
      (x, slot_at capacity q w k (omega (arith, w.begin_in)) ∙ ap (expected q) at_k ∙ ap some e)

  length-raw : length raw ≡ capacity
  length-raw = length-replicate capacity none

  Represents-copy :
      (out : List (Option A))
      → length out ≡ capacity
      → ((k : ℕ)
          → k < capacity
          → get_elem? out k
            ≡ (if ltb k (length q) then get_elem? origin.slots (origin.begin + k) else some none))
      → origin.begin + length q ≤ capacity
      → Represents capacity (record { slots = out; begin = 0; count = origin.count }) q
  Represents-copy out len at_out straight = record {
    storage = len;
    small = w.small;
    begin_in = omega (arith, w.begin_in);
    counted = w.counted;
    fits = w.fits;
    items = λ i lt.
        let place : slot capacity 0 i ≡ i = ground arith in rw (place, at_out i lt) (copied i lt);
  }
    where
      copied :
          (i : ℕ)
          → i < capacity
          → (if ltb i (length q) then get_elem? origin.slots (origin.begin + i) else some none)
            ≡ expected q i
      copied i lt = elim (dec_lt i (length q)) [
        | yes held ↦
            let here : (if leb origin.begin (origin.begin + i)
                  then origin.begin + i - origin.begin
                  else origin.begin + i + capacity - origin.begin)
                ≡ i =
              ground arith in
            let there : get_elem? origin.slots (origin.begin + i) ≡ expected q i =
              slot_at capacity q w (origin.begin + i) (omega arith) ∙ ap (expected q) here in
            ground (arith, there)
        | no past ↦ ground (arith, get_elem?-none q i (omega arith))
      ]

  assign_plain :
      self.begin ≡ 0
      → origin.begin + length q < capacity
      → (r : Ring A) × (assign capacity false self origin ≡ ok r) × Represents capacity r q
  unfolding uninit_copy_range
  assign_plain at_0 h =
      let n = origin.begin + length q - origin.begin in
      let (out, run, len, out_lem) =
        copy_from_lem origin.slots n origin.begin 0 raw
          (λ k ge lt. IsLive-item k ge (omega arith) (omega arith)) (omega (arith, length-raw)) in
      (
        record { slots = out; begin = 0; count = origin.count },
        assign-copies
            ∙ ap (λ d. copies (some d) >>= finish) at_0
            ∙ ap (λ s. s >>= finish)
                (apply_range_plain capacity q w (uninit_copy_range origin.slots) (some 0, raw) h
                  ∙ ap (λ s. s >>= λ out. ok (none, out)) run),
        Represents-copy out (len ∙ length-raw)
            (λ k lt. ground (arith, out_lem k, get_elem?-replicate {A = A} capacity k lt))
            (omega arith),
      )

  -- The end of the origin's storage is reached: its items are copied in two runs, and the second one
  -- has no destination.
  abbrev two_runs : ℕ → Result (Option ℕ × List (Option A))
  two_runs d =
      uninit_copy_range origin.slots origin.begin capacity (some d, raw)
      >>= uninit_copy_range origin.slots 0 (origin.begin + length q - capacity)

  assign-two_runs :
      capacity ≤ origin.begin + length q
      → assign capacity false self origin ≡ (two_runs self.begin >>= finish)
  assign-two_runs h =
      assign-copies
      ∙ ap (λ s. s >>= finish)
          (apply_range_folded capacity q w (uninit_copy_range origin.slots) (some self.begin, raw)
            h)

  assign_reached :
      self.begin ≡ 0
      → origin.begin + length q ≡ capacity
      → (r : Ring A) × (assign capacity false self origin ≡ ok r) × Represents capacity r q
  unfolding uninit_copy_range
  assign_reached at_0 e =
      let (out, run, len, out_lem) =
        copy_from_lem origin.slots (capacity - origin.begin) origin.begin 0 raw
          (λ k ge lt. IsLive-item k ge (omega arith) (omega arith)) (omega (arith, length-raw)) in
      let nothing : (origin.begin + length q - capacity - 0 == 0) ≡ true = ground arith in
      (
        record { slots = out; begin = 0; count = origin.count },
        assign-two_runs (omega arith)
            ∙ ap (λ d. two_runs d >>= finish) at_0
            ∙ ap
                (λ s.
                  s
                  >>= (λ out. ok (none, out))
                  >>= uninit_copy_range origin.slots 0 (origin.begin + length q - capacity)
                  >>= finish)
                run
            ∙ rw nothing refl,
        Represents-copy out (len ∙ length-raw)
            (λ k lt. ground (arith, out_lem k, get_elem?-replicate {A = A} capacity k lt))
            (omega arith),
      )

  -- `operator=` of a valid buffer whose items are folded over the end of its storage, to any valid
  -- buffer of objects, constructs at a null pointer.
  pub assign_folded : capacity < origin.begin + length q → assign capacity false self origin ≡ fault
  unfolding uninit_copy_range
  assign_folded lost =
      let more : (origin.begin + length q - capacity - 0 == 0) ≡ false = ground arith in
      assign-two_runs (omega arith)
      ∙ elim (copy_from-cases origin.slots (capacity - origin.begin) origin.begin self.begin raw) [
        | inl failed ↦ rw failed refl
        | inr (out, run) ↦ rw (run, more) refl
      ]

  -- `operator=` copies the items of a valid buffer that are not folded over the end of its storage
  -- into a valid buffer of objects that begins at its first slot.
  pub assign_lem :
      self.begin ≡ 0
      → origin.begin + length q ≤ capacity
      → (r : Ring A) × (assign capacity false self origin ≡ ok r) × Represents capacity r q
  assign_lem at_0 h = elim (dec_lt (origin.begin + length q) capacity) [
    | yes plain ↦ assign_plain at_0 plain
    | no reached ↦ assign_reached at_0 (omega arith)
  ]
