-- ===== src/Ring/Ranges.antt =====
-- The ranges of a valid buffer, and its destruction.
use prototype_bundle.Prelude.{
  ℕ, zero, suc, ◌+◌, ◌-◌, ◌≤◌, ◌<◌, ◌≡◌, ◌∙◌, ap, ap₂, refl, Option, none, some, Bool, true, false,
  ◌&&◌, List, [], ◌∷◌, arith, ltb, leb, if◌then◌else◌, length, get_elem?, set, replicate,
  length-set, dec_lt, subst,
}
use prototype_bundle.Ring.{
  Result, ok, ◌>>=◌, Ring, destroy, transpose_index, is_folded, apply_range, destroy_from,
  destroy_range, destruct,
}
use prototype_bundle.Ring.Refine.{
  slot, expected, get_elem?-set, get_elem?-none, Represents, transpose_index-slot,
}

-- The address `k` lies in the range from `b` to `e`.
abbrev pub within : ℕ → ℕ → ℕ → Bool
within b e k = leb b k && ltb k e

abbrev pub IsLive : {A : Type 0} → List (Option A) → ℕ → Type 0
IsLive {A} slots k = (v : A) × (get_elem? slots k ≡ some (some v))

destroy_from_lem :
    {A : Type 0} (n b : ℕ) (slots : List (Option A))
    → ((k : ℕ) → b ≤ k → k < b + n → IsLive slots k)
    → (out : List (Option A)) × (destroy_from n b slots ≡ ok out)
      × (length out ≡ length slots)
      × ((k : ℕ) → get_elem? out k ≡ (if within b (b + n) k then some none else get_elem? slots k))
unfolding destroy_from destroy
destroy_from_lem zero b slots live = (slots, refl, refl, λ k. ground arith)
destroy_from_lem (suc n) b slots live =
    let (v, here) = live b (omega arith) (omega arith) in
    let next = set slots b none in
    let (out, run, len, out_lem) = destroy_from_lem n (suc b) next (still v here) in
    (
      out,
      rw (here, destroy) run,
      len ∙ length-set slots b none,
      λ k. ground (arith, out_lem k, get_elem?-set slots b k none (in_storage v here)),
    )
  where
    in_storage : (v : _) → get_elem? slots b ≡ some (some v) → b < length slots
    in_storage v here = elim (dec_lt b (length slots)) [
      | yes lt ↦ lt
      | no past ↦ absurd (absent (get_elem?-none slots b (omega arith)))
    ]
      where
        absent : get_elem? slots b ≡ none → ⊥
        absent gone = cc

    still :
        (v : _)
        → get_elem? slots b ≡ some (some v)
        → (k : ℕ) → suc b ≤ k
        → k < suc b + n
        → IsLive (set slots b none) k
    still v here k ge lt =
        let (w, there) = live k (omega arith) (omega arith) in
        (w, ground (arith, there, get_elem?-set slots b k none (in_storage v here)))

pub item_at : {A : Type 0} (q : List A) (i : ℕ) → i < length q → (x : A) × (get_elem? q i ≡ some x)
item_at [] i h = absurd (omega arith)
item_at (x ∷ q) zero h = (x, refl)
item_at (x ∷ q) (suc i) h = item_at q i (omega arith)

pub raw_slots :
    {A : Type 0} (capacity : ℕ) (slots : List (Option A))
    → length slots ≡ capacity
    → ((k : ℕ) → k < capacity → get_elem? slots k ≡ some none)
    → slots ≡ replicate capacity none
raw_slots zero [] len raw = refl
raw_slots zero (s ∷ slots) len raw = absurd (omega arith)
raw_slots (suc capacity) [] len raw = absurd (omega arith)
raw_slots (suc capacity) (s ∷ slots) len raw =
    ap₂ ◌∷◌ head (raw_slots capacity slots (omega arith) (λ k lt. raw (suc k) (omega arith)))
  where
    head : s ≡ none
    head = let here = raw 0 (omega arith) in cc

module _ {A : Type 0} (capacity : ℕ) {r : Ring A} (q : List A) (v : Represents capacity r q) where
  -- The slot at an address, as an item of the queue.
  pub slot_at :
      (k : ℕ)
      → k < capacity
      → get_elem? r.slots k
        ≡ expected q (if leb r.begin k then k - r.begin else k + capacity - r.begin)
  slot_at k lt =
      let i = if leb r.begin k then k - r.begin else k + capacity - r.begin in
      let small : i < capacity = ground (arith, v.begin_in) in
      let place : slot capacity r.begin i ≡ k = ground (arith, v.begin_in) in
      subst (λ t. get_elem? r.slots t ≡ expected q i) place (v.items i small)

  IsLive-at :
      (k : ℕ)
      → k < capacity
      → (if leb r.begin k then k - r.begin else k + capacity - r.begin) < length q
      → IsLive r.slots k
  IsLive-at k lt held = let (x, e) = item_at q _ held in (x, slot_at k lt ∙ ap some e)

  pub first_place : transpose_index capacity r 0 ≡ r.begin
  first_place = transpose_index-slot capacity v 0 (omega arith) ∙ ground (arith, v.begin_in)

  pub end_place : transpose_index capacity r r.count ≡ slot capacity r.begin (length q)
  end_place =
      ap (transpose_index capacity r) v.counted ∙ transpose_index-slot capacity v (length q) v.fits

  pub folded_lem : is_folded capacity r ≡ leb capacity (r.begin + length q)
  folded_lem = ap (leb capacity) (omega (arith, v.begin_in, v.counted, v.fits, v.small))

  module _ {S : Type 0} (func : ℕ → ℕ → S → Result S) (s : S) where
    abbrev ranges : Bool → ℕ → ℕ → Result S
    ranges folded first last =
        if folded then (func first capacity s >>= λ s'. func 0 last s') else func first last s

    apply_range-ranges :
        apply_range capacity r func s
        ≡ ranges (leb capacity (r.begin + length q)) r.begin (slot capacity r.begin (length q))
    unfolding apply_range
    apply_range-ranges =
        ap (λ b. ranges b (transpose_index capacity r 0) (transpose_index capacity r r.count))
          folded_lem
        ∙ ap₂ (ranges (leb capacity (r.begin + length q))) first_place end_place

    -- The ranges of a buffer whose items reach the end of the storage.
    pub apply_range_folded :
        capacity ≤ r.begin + length q
        → apply_range capacity r func s
          ≡ (func r.begin capacity s >>= λ s'. func 0 (r.begin + length q - capacity) s')
    apply_range_folded h =
        let folded : leb capacity (r.begin + length q) ≡ true = ground arith in
        let last : slot capacity r.begin (length q) ≡ r.begin + length q - capacity =
          ground arith in
        apply_range-ranges ∙ ap₂ (λ b. ranges b r.begin) folded last

    -- The one range of any other buffer.
    pub apply_range_plain :
        r.begin + length q < capacity
        → apply_range capacity r func s ≡ func r.begin (r.begin + length q) s
    apply_range_plain h =
        let plain : leb capacity (r.begin + length q) ≡ false = ground arith in
        let last : slot capacity r.begin (length q) ≡ r.begin + length q = ground arith in
        apply_range-ranges ∙ ap₂ (λ b. ranges b r.begin) plain last

  destruct_folded :
      capacity ≤ r.begin + length q → destruct capacity false r ≡ ok (replicate capacity none)
  unfolding destruct destroy_range
  destruct_folded h =
      let (mid, run, len, mid_lem) = destroy_from_lem (capacity - r.begin) r.begin r.slots upper in
      let (out, run', len', out_lem) =
        destroy_from_lem (r.begin + length q - capacity - 0) 0 mid (lower mid mid_lem) in
      apply_range_folded (destroy_range false) r.slots h
      ∙ rw run (
          run'
          ∙ ap ok
              (raw_slots capacity out (len' ∙ len ∙ v.storage) (all_raw mid out mid_lem out_lem)))
    where
      upper : (k : ℕ) → r.begin ≤ k → k < r.begin + (capacity - r.begin) → IsLive r.slots k
      upper k ge lt = IsLive-at k (omega arith) (ground (arith, v.begin_in))

      lower :
          (mid : List (Option A))
          → ((k : ℕ)
              → get_elem? mid k ≡ (
                  if within r.begin (r.begin + (capacity - r.begin)) k
                  then some none
                  else get_elem? r.slots k))
          → (k : ℕ) → 0 ≤ k
          → k < 0 + (r.begin + length q - capacity - 0)
          → IsLive mid k
      lower mid mid_lem k ge lt =
          let (x, e) =
            IsLive-at k (omega (arith, v.begin_in, v.fits)) (ground (arith, v.begin_in, v.fits)) in
          (x, ground (arith, mid_lem k, e, v.begin_in, v.fits))

      all_raw :
          (mid out : List (Option A))
          → ((k : ℕ)
              → get_elem? mid k ≡ (
                  if within r.begin (r.begin + (capacity - r.begin)) k
                  then some none
                  else get_elem? r.slots k))
          → ((k : ℕ)
              → get_elem? out k ≡ (
                  if within 0 (0 + (r.begin + length q - capacity - 0)) k
                  then some none
                  else get_elem? mid k))
          → (k : ℕ) → k < capacity
          → get_elem? out k ≡ some none
      all_raw mid out mid_lem out_lem k lt = ground (
        arith,
        out_lem k,
        mid_lem k,
        slot_at k lt,
        get_elem?-none q (k + capacity - r.begin),
        v.begin_in,
        v.fits,
      )

  destruct_plain :
      r.begin + length q < capacity → destruct capacity false r ≡ ok (replicate capacity none)
  unfolding destruct destroy_range
  destruct_plain h =
      let (out, run, len, out_lem) =
        destroy_from_lem (r.begin + length q - r.begin) r.begin r.slots
          (λ k ge lt. IsLive-at k (omega arith) (ground arith)) in
      apply_range_plain (destroy_range false) r.slots h
      ∙ run
      ∙ ap ok (raw_slots capacity out (len ∙ v.storage) (all_raw out out_lem))
    where
      all_raw :
          (out : List (Option A))
          → ((k : ℕ)
              → get_elem? out k ≡ (
                  if within r.begin (r.begin + (r.begin + length q - r.begin)) k
                  then some none
                  else get_elem? r.slots k))
          → (k : ℕ) → k < capacity
          → get_elem? out k ≡ some none
      all_raw out out_lem k lt = ground (
        arith,
        out_lem k,
        slot_at k lt,
        get_elem?-none q (k + capacity - r.begin),
        get_elem?-none q (k - r.begin),
        v.begin_in,
        v.fits,
      )

  -- The destructor of a valid buffer of objects destroys every item once, destroys nothing else, and
  -- leaves raw memory.
  pub destruct_lem : destruct capacity false r ≡ ok (replicate capacity none)
  destruct_lem = elim (dec_lt (r.begin + length q) capacity) [
    | yes plain ↦ destruct_plain plain
    | no folded ↦ destruct_folded (omega arith)
  ]
