-- ===== src/Ring.antt =====
-- `static_ring_buffer` of benchmarks/static_ring_buffer.hpp. The storage is a list of slots: `none`
-- is raw memory, `some v` an object. Reading or destroying what is no object, any access outside the
-- storage, and constructing at a null pointer are undefined in the source and a `fault` here; an
-- exception is `throws`.
pub mod Refine
pub mod Deque
pub mod Steps
pub mod Ranges
pub mod Copy
pub mod Copies
mod Tests
use prototype_bundle.Prelude.{
  ℕ, zero, suc, ◌+◌, ◌-◌, ◌%◌, ◌^◌, Option, none, some, Bool, true, false, List, [], ◌∷◌, ltb, leb,
  ◌==◌, if◌then◌else◌, length, get_elem?, set, replicate,
}

pub data Result {ℓ} (A : Type ℓ) : Type ℓ where
  ok : A → Result A
  throws : Result A
  fault : Result A

infixl 5 ◌>>=◌
abbrev pub ◌>>=◌ {ℓ κ} : {A : Type ℓ} {B : Type κ} → Result A → (A → Result B) → Result B
ok a >>= f = f a
throws >>= f = throws
fault >>= f = fault

-- `std::size_t` addition and subtraction
abbrev pub add_size : ℕ → ℕ → ℕ
add_size a b = (a + b) % 2 ^ 64

abbrev pub sub_size : ℕ → ℕ → ℕ
sub_size a b = (a + 2 ^ 64 - b) % 2 ^ 64

pub record Ring {ℓ} (A : Type ℓ) : Type ℓ where
  pub slots : List (Option A)
  pub begin : ℕ
  pub count : ℕ

module _ {ℓ} {A : Type ℓ} where
  -- `new (address) value_type(v)`
  pub construct : List (Option A) → ℕ → A → Result (List (Option A))
  construct slots i v = if ltb i (length slots) then ok (set slots i (some v)) else fault

  -- `address->~value_type()`
  pub destroy : List (Option A) → ℕ → Result (List (Option A))
  destroy slots i = elim (get_elem? slots i) [
    | none ↦ fault
    | some none ↦ fault
    | some (some v) ↦ ok (set slots i none)
  ]

  -- `*address`
  pub read : List (Option A) → ℕ → Result A
  read slots i = elim (get_elem? slots i) [
    | none ↦ fault
    | some none ↦ fault
    | some (some v) ↦ ok v
  ]

module _ {ℓ} {A : Type ℓ} (capacity : ℕ) where
  -- the default constructor
  abbrev pub fresh : Ring A
  fresh = record { slots = replicate capacity none; begin = 0; count = 0 }

  abbrev pub is_full : Ring A → Bool
  is_full r = r.count == capacity

  abbrev pub is_empty : Ring A → Bool
  is_empty r = r.count == 0

  abbrev pub is_folded : Ring A → Bool
  is_folded r = leb capacity (add_size r.begin r.count)

  abbrev pub transpose_index : Ring A → ℕ → ℕ
  transpose_index r index =
      let offset = add_size r.begin index in
      if leb capacity offset then sub_size offset capacity else offset

  -- `push_back` by copy, `push_back` by move and `emplace_back`: they construct `v` in place
  pub push_back : Ring A → A → Result (Ring A)
  push_back r v =
      if is_full r
      then throws
      else (construct r.slots (transpose_index r r.count) v >>= λ slots.
          ok (record { slots = slots; begin = r.begin; count = add_size r.count 1 }))

  pub pop_front : Ring A → Result (Ring A)
  pop_front r =
      let begin' = add_size r.begin 1 in
      if is_empty r
      then ok r
      else (destroy r.slots (transpose_index r 0) >>= λ slots. ok (record {
        slots = slots;
        begin = if begin' == capacity then 0 else begin';
        count = sub_size r.count 1;
      }))

  pub pop_back : Ring A → Result (Ring A)
  pop_back r =
      if is_empty r
      then ok r
      else (destroy r.slots (transpose_index r (sub_size r.count 1)) >>= λ slots.
          ok (record { slots = slots; begin = r.begin; count = sub_size r.count 1 }))

  pub front : Ring A → Result A
  front r = read r.slots (transpose_index r 0)

  pub back : Ring A → Result A
  back r = read r.slots (transpose_index r (sub_size r.count 1))

  -- `apply_range`: one range, or two for a buffer whose end is reached
  pub apply_range {κ} : {S : Type κ} → Ring A → (ℕ → ℕ → S → Result S) → S → Result S
  apply_range r func s =
      if is_folded r
      then (func (transpose_index r 0) capacity s >>= λ s'. func 0 (transpose_index r r.count) s')
      else func (transpose_index r 0) (transpose_index r r.count) s

module _ {ℓ} {A : Type ℓ} where
  -- `while (b < e)` of `destroy_range`, by the rounds that it makes
  destroy_from : ℕ → ℕ → List (Option A) → Result (List (Option A))
  destroy_from zero b slots = ok slots
  destroy_from (suc n) b slots = destroy slots b >>= destroy_from n (suc b)

  -- `destroy_range`: nothing is destroyed in a buffer of pointers
  pub destroy_range : Bool → ℕ → ℕ → List (Option A) → Result (List (Option A))
  destroy_range is_pointer b e slots = if is_pointer then ok slots else destroy_from (e - b) b slots

  -- `std::uninitialized_copy(b, e, d)` from the slots `source`
  copy_from : List (Option A) → ℕ → ℕ → ℕ → List (Option A) → Result (List (Option A))
  copy_from source zero b d slots = ok slots
  copy_from source (suc n) b d slots =
      read source b >>= λ v. construct slots d v >>= copy_from source n (suc b) (suc d)

  -- `uninit_copy_range` from the slots `source`, with the destination that it is given and the slots.
  -- `apply_range` forwards the destination as an rvalue, and the move constructor of `aligned_ptr`
  -- swaps it with null: `none`, at which no item can be constructed.
  pub uninit_copy_range :
      List (Option A) → ℕ → ℕ → Option ℕ × List (Option A) → Result (Option ℕ × List (Option A))
  uninit_copy_range source b e (some d, slots) =
      copy_from source (e - b) b d slots >>= λ out. ok (none, out)
  uninit_copy_range source b e (none, slots) = if e - b == 0 then ok (none, slots) else fault

module _ {ℓ} {A : Type ℓ} (capacity : ℕ) (is_pointer : Bool) where
  -- the destructor, with the slots that it leaves
  pub destruct : Ring A → Result (List (Option A))
  destruct r = apply_range capacity r (destroy_range is_pointer) r.slots

  -- `operator=` of `self` and another buffer
  pub assign : Ring A → Ring A → Result (Ring A)
  assign self origin = destruct self >>= λ slots.
      apply_range capacity origin (uninit_copy_range origin.slots)
        (some (transpose_index capacity self 0), slots)
      >>= λ s. ok (record { slots = s.1; begin = 0; count = origin.count })

  -- `operator=` of a buffer and itself: what is copied has just been destroyed
  pub assign_self : Ring A → Result (Ring A)
  assign_self self = destruct self >>= λ slots.
      apply_range capacity self (uninit_copy_range slots)
        (some (transpose_index capacity self 0), slots)
      >>= λ s. ok (record { slots = s.1; begin = 0; count = self.count })

  -- the copy constructor
  pub copy_construct : Ring A → Result (Ring A)
  copy_construct origin = assign (fresh capacity) origin

-- A client's calls of the operations that change a buffer.
pub data Op {ℓ} (A : Type ℓ) : Type ℓ where
  push : A → Op A
  drop_front : Op A
  drop_back : Op A

module _ {ℓ} {A : Type ℓ} (capacity : ℕ) where
  abbrev pub step : Ring A → Op A → Result (Ring A)
  step r (push x) = push_back capacity r x
  step r drop_front = pop_front capacity r
  step r drop_back = pop_back capacity r

  -- The calls in order; an exception ends them.
  pub run : Ring A → List (Op A) → Result (Ring A)
  run r [] = ok r
  run r (op ∷ ops) = step r op >>= λ r'. run r' ops
