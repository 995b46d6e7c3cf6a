-- ===== src/Ring/Refine.antt =====
-- A valid buffer behaves as the double-ended queue of the objects that it holds.
use prototype_bundle.Prelude.{
  ℕ, zero, suc, ◌+◌, ◌-◌, ◌^◌, ◌≤◌, ◌<◌, ◌≡◌, ◌≢◌, ◌∙◌, ap, refl, Option, none, some, true, false,
  List, [], ◌∷◌, ◌++◌, arith, ltb, ◌==◌, if◌then◌else◌, length, get_elem?, set, length-append,
  length-set, get_elem?-set_self, get_elem?-set_ne, lt→ltb, ℕ_discrete,
}
use prototype_bundle.Ring.{
  ok, throws, Ring, construct, destroy, read, transpose_index, push_back, add_size,
}

-- The slot of the item with index `i` in a buffer that begins at `b`.
abbrev pub slot : ℕ → ℕ → ℕ → ℕ
slot capacity b i = if ltb (b + i) capacity then b + i else b + i - capacity

pub slot-lt : (capacity b i : ℕ) → b < capacity → i < capacity → slot capacity b i < capacity
slot-lt capacity b i hb hi = ground arith

pub slot-ne :
    (capacity b i j : ℕ)
    → b < capacity
    → i < capacity
    → j < capacity
    → i ≢ j
    → slot capacity b i ≢ slot capacity b j
slot-ne capacity b i j hb hi hj ne = ground arith

module _ {ℓ} {A : Type ℓ} where
  -- What the queue `q` says of the slot with index `i`: its item, or raw memory past the last.
  abbrev pub expected : List A → ℕ → Option (Option A)
  expected q i = some (get_elem? q i)

  pub get_elem?-set :
      (xs : List (Option A)) (i j : ℕ) (v : Option A)
      → i < length xs
      → get_elem? (set xs i v) j ≡ (if i == j then some v else get_elem? xs j)
  get_elem?-set xs i j v lt = elim (ℕ_discrete i j) [
    | yes p ↦ ground (arith, get_elem?-set_self xs i v lt)
    | no p ↦ ground (arith, get_elem?-set_ne xs v p)
  ]

  pub get_elem?-none : (q : List A) (i : ℕ) → length q ≤ i → get_elem? q i ≡ none
  get_elem?-none [] i h = refl
  get_elem?-none (x ∷ q) zero h = absurd (omega arith)
  get_elem?-none (x ∷ q) (suc i) h = get_elem?-none q i (omega arith)

  get_elem?-push :
      (q : List A) (v : A) (i : ℕ)
      → get_elem? (q ++ v ∷ []) i ≡ (if length q == i then some v else get_elem? q i)
  get_elem?-push [] v zero = refl
  get_elem?-push [] v (suc i) = ground arith
  get_elem?-push (x ∷ q) v zero = ground arith
  get_elem?-push (x ∷ q) v (suc i) = ground (arith, get_elem?-push q v i)

-- The buffer `r` holds the items of `q`, in their order, and its other slots are raw.
pub record Represents {ℓ} {A : Type ℓ} (capacity : ℕ) (r : Ring A) (q : List A) : Type ℓ where
  pub storage : length r.slots ≡ capacity
  pub small : capacity < 2 ^ 63
  pub begin_in : r.begin < capacity
  pub counted : r.count ≡ length q
  pub fits : length q ≤ capacity
  pub items : (i : ℕ) → i < capacity → get_elem? r.slots (slot capacity r.begin i) ≡ expected q i

module _ {ℓ} {A : Type ℓ} (capacity : ℕ) {r : Ring A} {q : List A}
    (v : Represents capacity r q) where
  pub transpose_index-slot :
      (i : ℕ) → i ≤ capacity → transpose_index capacity r i ≡ slot capacity r.begin i
  transpose_index-slot i h = ground (arith, v.small, v.begin_in)

  pub read-item :
      (i : ℕ) (x : A)
      → i < capacity
      → get_elem? q i ≡ some x
      → read r.slots (slot capacity r.begin i) ≡ ok x
  unfolding read
  read-item i x lt e = rw (v.items i lt ∙ ap some e, read)

  pub destroy-item :
      (i : ℕ) (x : A)
      → i < capacity
      → get_elem? q i ≡ some x
      → destroy r.slots (slot capacity r.begin i) ≡ ok (set r.slots (slot capacity r.begin i) none)
  unfolding destroy
  destroy-item i x lt e = rw (v.items i lt ∙ ap some e, destroy)

  -- One slot has been written: the items are those of another queue, from the same place.
  pub Represents-set :
      (i : ℕ) (o : Option A) (q' : List A)
      → i < capacity
      → length q' ≤ capacity
      → ((j : ℕ) → get_elem? q' j ≡ (if i == j then o else get_elem? q j))
      → Represents capacity
          (record {
            slots = set r.slots (slot capacity r.begin i) o;
            begin = r.begin;
            count = length q';
          })
          q'
  Represents-set i o q' lt fits' items' = record {
    storage = length-set r.slots (slot capacity r.begin i) o ∙ v.storage;
    small = v.small;
    begin_in = v.begin_in;
    counted = refl;
    fits = fits';
    items = λ j lt_j. elim (ℕ_discrete i j) [
      | yes same ↦ ground (
        arith,
        get_elem?-set r.slots (slot capacity r.begin i) (slot capacity r.begin j) o
            (in_storage i lt),
        items' j,
      )
      | no other ↦ ground (
        arith,
        get_elem?-set r.slots (slot capacity r.begin i) (slot capacity r.begin j) o
            (in_storage i lt),
        slot-ne capacity r.begin i j v.begin_in lt lt_j other,
        v.items j lt_j,
        items' j,
      )
    ];
  }
    where
      in_storage : (k : ℕ) → k < capacity → slot capacity r.begin k < length r.slots
      in_storage k h = omega (arith, slot-lt capacity r.begin k v.begin_in h, v.storage)

  pub push_back_room :
      (x : A)
      → length q < capacity
      → (r' : Ring A) × (push_back capacity r x ≡ ok r') × Represents capacity r' (q ++ x ∷ [])
  unfolding push_back construct
  push_back_room x room = (
    _,
    rw (not_full, place, lt→ltb _ _ inside, count'),
    Represents-set (length q) (some x) (q ++ x ∷ []) room (omega (arith, longer))
        (get_elem?-push q x),
  )
    where
      longer : length (q ++ x ∷ []) ≡ length q + 1
      longer = length-append q (x ∷ [])

      not_full : (r.count == capacity) ≡ false
      not_full = ground (arith, v.counted)

      place : transpose_index capacity r r.count ≡ slot capacity r.begin (length q)
      place =
          ap (transpose_index capacity r) v.counted
          ∙ transpose_index-slot (length q) (omega (arith, v.fits))

      inside : slot capacity r.begin (length q) < length r.slots
      inside = omega (arith, slot-lt capacity r.begin (length q) v.begin_in room, v.storage)

      count' : add_size r.count 1 ≡ length (q ++ x ∷ [])
      count' = omega (arith, longer, v.counted, v.small)

  pub push_back_full : (x : A) → length q ≡ capacity → push_back capacity r x ≡ throws
  unfolding push_back
  push_back_full x full = let e : (r.count == capacity) ≡ true = ground (arith, v.counted) in rw e
