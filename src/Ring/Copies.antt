-- ===== src/Ring/Copies.antt =====
-- The copy constructor, and `operator=` of a buffer to itself.
use prototype_bundle.Prelude.{
  ℕ, zero, suc, ◌+◌, ◌-◌, ◌≤◌, ◌<◌, ◌≡◌, ◌∙◌, ap, refl, Option, none, some, false, List, [], arith,
  length, get_elem?, replicate, dec_lt,
}
use prototype_bundle.Ring.{
  Result, ok, fault, ◌>>=◌, Ring, read, transpose_index, apply_range, fresh, copy_from,
  uninit_copy_range, assign_self, copy_construct,
}
use prototype_bundle.Ring.Refine.{Represents}
use prototype_bundle.Ring.Ranges.{apply_range_folded, apply_range_plain, destruct_lem}
use prototype_bundle.Ring.Copy.{get_elem?-replicate, fresh-Represents, assign_lem, assign_folded}

module _ {A : Type 0} (capacity : ℕ) {origin : Ring A} (q : List A)
    (w : Represents capacity origin q) where
  empty : Represents {A = A} capacity (fresh capacity) []
  empty = fresh-Represents capacity (omega (arith, w.begin_in)) w.small

  -- The copy constructor copies a valid buffer of objects whose items are not folded over the end of
  -- its storage.
  pub copy_construct_lem :
      origin.begin + length q ≤ capacity
      → (r : Ring A) × (copy_construct capacity false origin ≡ ok r) × Represents capacity r q
  unfolding copy_construct
  copy_construct_lem h = assign_lem capacity [] q empty w refl h

  -- Of a valid buffer of objects whose items are folded over the end of its storage, the copy
  -- constructor constructs at a null pointer.
  pub copy_construct_folded :
      capacity < origin.begin + length q → copy_construct capacity false origin ≡ fault
  unfolding copy_construct
  copy_construct_folded lost = assign_folded capacity [] q empty w lost

copy_from-raw :
    {A : Type 0} (source : List (Option A)) (n b d : ℕ) (slots : List (Option A))
    → 0 < n
    → get_elem? source b ≡ some none
    → copy_from source n b d slots ≡ fault
unfolding copy_from read
copy_from-raw source zero b d slots pos e = absurd (omega arith)
copy_from-raw source (suc n) b d slots pos e = rw (e, read)

-- Assigned to itself, a valid buffer that holds an object copies from what it has just destroyed.
pub assign_self_faults :
    {A : Type 0} (capacity : ℕ) {self : Ring A} (q : List A)
    → Represents capacity self q
    → 0 < length q
    → assign_self capacity false self ≡ fault
unfolding assign_self uninit_copy_range
assign_self_faults {A} capacity {self} q v some_item =
    let place = transpose_index capacity self 0 in
    ap (λ s. s >>= copies) (destruct_lem capacity q v)
    ∙ ap (λ s. s >>= finished)
        (elim (dec_lt (self.begin + length q) capacity) [
          | yes plain ↦
              apply_range_plain capacity q v (uninit_copy_range gone) (some place, gone) plain
              ∙ ap (λ s. s >>= λ out. ok (none, out))
                  (copy_from-raw gone _ self.begin _ gone (omega (arith, some_item)) first_gone)
          | no folded ↦
              apply_range_folded capacity q v (uninit_copy_range gone) (some place, gone)
                (omega arith)
              ∙ ap
                  (λ s.
                    s
                    >>= (λ out. ok (none, out))
                    >>= uninit_copy_range gone 0 (self.begin + length q - capacity))
                  (copy_from-raw gone _ self.begin _ gone (omega (arith, v.begin_in)) first_gone)
        ])
  where
    gone : List (Option A)
    gone = replicate capacity none

    finished : Option ℕ × List (Option A) → Result (Ring A)
    finished s = ok (record { slots = s.1; begin = 0; count = self.count })

    copies : List (Option A) → Result (Ring A)
    copies slots =
        apply_range capacity self (uninit_copy_range slots)
          (some (transpose_index capacity self 0), slots)
        >>= finished

    first_gone : get_elem? gone self.begin ≡ some none
    first_gone = get_elem?-replicate capacity self.begin v.begin_in
