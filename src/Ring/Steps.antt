-- ===== src/Ring/Steps.antt =====
-- Each operation of a valid buffer does what the queue's operation does, and leaves a valid buffer.
use prototype_bundle.Prelude.{
  ℕ, zero, suc, ◌+◌, ◌-◌, ◌^◌, ◌≤◌, ◌<◌, ◌≡◌, ◌∙◌, sym, ap, refl, Option, none, some, true, false,
  List, [], ◌∷◌, arith, ◌==◌, if◌then◌else◌, length, get_elem?, set, length-set, get_elem?-set_ne,
  get_elem?-set_self, subst, ℕ_discrete, dec_lt,
}
use prototype_bundle.Ring.{
  Result, ok, throws, fault, ◌>>=◌, Ring, read, transpose_index, push_back, pop_front, pop_back,
  front, back, add_size, sub_size, Op, push, drop_front, drop_back, step, run,
}
use prototype_bundle.Ring.Refine.{
  slot, slot-lt, slot-ne, get_elem?-none, Represents, transpose_index-slot, read-item, destroy-item,
  Represents-set, push_back_room, push_back_full,
}
use prototype_bundle.Ring.Deque
use prototype_bundle.Ring.Deque.{drop_last}

-- A buffer operation came out as the queue's: both returned, and the buffer holds the queue, or
-- both threw. A fault matches nothing.
pub data Matches {ℓ} {A : Type ℓ} (capacity : ℕ) : Result (Ring A) → Result (List A) → Type ℓ where
  both_ok : {r : Ring A} {q : List A} → Represents capacity r q → Matches capacity (ok r) (ok q)
  both_throw : Matches capacity throws throws

get_elem?-drop_last {ℓ} :
    {A : Type ℓ} (x : A) (q : List A) (j : ℕ)
    → get_elem? (drop_last (x ∷ q)) j ≡ (if length q == j then none else get_elem? (x ∷ q) j)
get_elem?-drop_last x [] zero = refl
get_elem?-drop_last x [] (suc j) = ground arith
get_elem?-drop_last x (y ∷ q) zero = ground arith
get_elem?-drop_last x (y ∷ q) (suc j) = ground (arith, get_elem?-drop_last y q j)

length-drop_last {ℓ} : {A : Type ℓ} (x : A) (q : List A) → length (drop_last (x ∷ q)) ≡ length q
length-drop_last x [] = refl
length-drop_last x (y ∷ q) = ap suc (length-drop_last y q)

back-last {ℓ} :
    {A : Type ℓ} (x : A) (q : List A)
    → (z : A) × (Deque.back (x ∷ q) ≡ ok z) × (get_elem? (x ∷ q) (length q) ≡ some z)
unfolding Deque.back
back-last x [] = (x, refl, refl)
back-last x (y ∷ q) = back-last y q

module _ {ℓ} {A : Type ℓ} (capacity : ℕ) {r : Ring A} where
  -- `push_back` of a valid buffer throws when the buffer is full, and then only; otherwise the buffer
  -- holds the new item after the others.
  pub push_back_refines :
      {q : List A} (x : A)
      → Represents capacity r q
      → Matches capacity (push_back capacity r x) (Deque.push_back capacity q x)
  unfolding Deque.push_back
  push_back_refines {q} x v = elim (ℕ_discrete (length q) capacity) [
    | yes full ↦
        let e : (length q == capacity) ≡ true = ground arith in
        rw (e, push_back_full capacity v x full) both_throw
    | no other ↦
        let e : (length q == capacity) ≡ false = ground arith in
        let (r', run, v') = push_back_room capacity v x (omega (arith, v.fits)) in
        rw (e, run) (both_ok v')
  ]

  -- The slots after `pop_front`, seen from the next item.
  Represents-pop_front :
      (x : A) (q : List A) (b : ℕ)
      → Represents capacity r (x ∷ q)
      → b ≡ (if r.begin + 1 == capacity then 0 else r.begin + 1)
      → Represents capacity
          (record {
            slots = set r.slots (slot capacity r.begin 0) none;
            begin = b;
            count = length q;
          })
          q
  Represents-pop_front x q b v e = record {
    storage = length-set r.slots (slot capacity r.begin 0) none ∙ v.storage;
    small = v.small;
    begin_in = ground (arith, v.begin_in);
    counted = refl;
    fits = omega (arith, v.fits);
    items = λ j lt. elim (dec_lt (suc j) capacity) [
      | yes inner ↦
          let place : slot capacity b j ≡ slot capacity r.begin (suc j) =
            ground (arith, v.begin_in) in
          rw place (
            get_elem?-set_ne r.slots none
              (slot-ne capacity r.begin 0 (suc j) v.begin_in (omega arith) inner (omega arith))
            ∙ v.items (suc j) inner)
      | no last ↦
          let place : slot capacity b j ≡ slot capacity r.begin 0 = ground (arith, v.begin_in) in
          rw (place, get_elem?-none q j (omega (arith, v.fits)))
            (get_elem?-set_self r.slots (slot capacity r.begin 0) none in_storage)
    ];
  }
    where
      in_storage : slot capacity r.begin 0 < length r.slots
      in_storage = omega (arith, slot-lt capacity r.begin 0 v.begin_in, v.storage, v.begin_in)

  -- `pop_front` of a valid buffer destroys the first item, if there is one, and never faults.
  pub pop_front_refines :
      (q : List A)
      → Represents capacity r q
      → Matches capacity (pop_front capacity r) (ok (Deque.pop_front q))
  unfolding pop_front Deque.pop_front
  pop_front_refines [] v =
      let e : (r.count == 0) ≡ true = ground (arith, v.counted) in rw e (both_ok v)
  pop_front_refines (x ∷ q) v =
      rw (some_item, place, destroy-item capacity v 0 x (omega (arith, v.begin_in)) refl, count')
        (both_ok (Represents-pop_front x q _ v begin'))
    where
      some_item : (r.count == 0) ≡ false
      some_item = ground (arith, v.counted)

      place : transpose_index capacity r 0 ≡ slot capacity r.begin 0
      place = transpose_index-slot capacity v 0 (omega arith)

      count' : sub_size r.count 1 ≡ length q
      count' = omega (arith, v.counted, v.fits, v.small)

      next : add_size r.begin 1 ≡ r.begin + 1
      next = omega (arith, v.begin_in, v.small)

      begin' :
          (if add_size r.begin 1 == capacity then 0 else add_size r.begin 1)
          ≡ (if r.begin + 1 == capacity then 0 else r.begin + 1)
      begin' = rw next

  -- `pop_back` of a valid buffer destroys the last item, if there is one, and never faults.
  pub pop_back_refines :
      (q : List A)
      → Represents capacity r q
      → Matches capacity (pop_back capacity r) (ok (drop_last q))
  unfolding pop_back
  pop_back_refines [] v =
      let e : (r.count == 0) ≡ true = ground (arith, v.counted) in rw e (both_ok v)
  pop_back_refines (x ∷ q) v =
      let (z, _, last) = back-last x q in
      rw
        (
          some_item,
          count',
          place,
          destroy-item capacity v (length q) z (omega (arith, v.fits)) last,
        )
        (subst
          (λ n.
            Matches capacity (ok (record { slots = written; begin = r.begin; count = n }))
              (ok (drop_last (x ∷ q))))
          (length-drop_last x q)
          (both_ok (
            Represents-set capacity v (length q) none (drop_last (x ∷ q)) (omega (arith, v.fits))
              (omega (arith, length-drop_last x q, v.fits)) (get_elem?-drop_last x q))))
    where
      written : List (Option A)
      written = set r.slots (slot capacity r.begin (length q)) none

      some_item : (r.count == 0) ≡ false
      some_item = ground (arith, v.counted)

      count' : sub_size r.count 1 ≡ length q
      count' = omega (arith, v.counted, v.fits, v.small)

      place : transpose_index capacity r (length q) ≡ slot capacity r.begin (length q)
      place = transpose_index-slot capacity v (length q) (omega (arith, v.fits))

  -- `back` of an empty buffer reads the slot before the first one, or outside the storage.
  read_before_first :
      Represents capacity r []
      → read r.slots (transpose_index capacity r (sub_size r.count 1)) ≡ fault
  unfolding read
  read_before_first v = elim (dec_lt 0 r.begin) [
    | yes inner ↦
        let place : transpose_index capacity r (sub_size r.count 1)
            ≡ slot capacity r.begin (capacity - 1) =
          ground (arith, v.begin_in, v.small, v.counted) in
        rw (place, v.items (capacity - 1) (omega (arith, v.begin_in)), read)
    | no first ↦
        let place : transpose_index capacity r (sub_size r.count 1) ≡ 2 ^ 64 - 1 - capacity =
          ground (arith, v.begin_in, v.small, v.counted) in
        rw (
          place,
          get_elem?-none r.slots (2 ^ 64 - 1 - capacity) (omega (arith, v.storage, v.small)),
          read,
        )
  ]

  -- `front` and `back` of a valid buffer read its first and its last item; on an empty one they read
  -- raw memory.
  pub front-back_refine :
      (q : List A)
      → Represents capacity r q
      → (front capacity r ≡ Deque.front q) × (back capacity r ≡ Deque.back q)
  unfolding front back read Deque.front Deque.back
  front-back_refine [] v = (
    rw (transpose_index-slot capacity v 0 (omega arith))
        (rw (v.items 0 (omega (arith, v.begin_in)), read)),
    read_before_first v,
  )
  front-back_refine (x ∷ q) v =
      let (z, last_z, last) = back-last x q in
      (
        rw (place 0 (omega arith)) (read-item capacity v 0 x (omega (arith, v.fits)) refl),
        rw (count', place (length q) (omega (arith, v.fits)))
            (read-item capacity v (length q) z (omega (arith, v.fits)) last ∙ sym last_z),
      )
    where
      count' : sub_size r.count 1 ≡ length q
      count' = omega (arith, v.counted, v.fits, v.small)

      place : (i : ℕ) → i ≤ capacity → transpose_index capacity r i ≡ slot capacity r.begin i
      place i h = transpose_index-slot capacity v i h

module _ {ℓ} {A : Type ℓ} (capacity : ℕ) where
  step_refines :
      (op : Op A) {r : Ring A} (q : List A)
      → Represents capacity r q
      → Matches capacity (step capacity r op) (Deque.step capacity q op)
  step_refines (push x) q v = push_back_refines capacity x v
  step_refines drop_front q v = pop_front_refines capacity q v
  step_refines drop_back q v = pop_back_refines capacity q v

  bind_refines :
      {f : Ring A → Result (Ring A)} {g : List A → Result (List A)} {m : Result (Ring A)}
      {n : Result (List A)}
      → Matches capacity m n
      → ((r : Ring A) (q : List A) → Represents capacity r q → Matches capacity (f r) (g q))
      → Matches capacity (m >>= f) (n >>= g)
  bind_refines (both_ok {r} {q} v) next = next r q v
  bind_refines both_throw next = both_throw

  -- No sequence of pushes and pops tells a valid buffer from the bounded queue of its items: it ends
  -- in an exception when the queue's does, never faults, and otherwise leaves the queue's items.
  pub run_refines :
      (ops : List (Op A)) {r : Ring A} (q : List A)
      → Represents capacity r q
      → Matches capacity (run capacity r ops) (Deque.run capacity q ops)
  unfolding run Deque.run
  run_refines [] q v = both_ok v
  run_refines (op ∷ ops) q v =
      bind_refines (step_refines op q v) (λ r' q' v'. run_refines ops q' v')
