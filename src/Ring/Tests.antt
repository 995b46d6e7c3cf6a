-- ===== src/Ring/Tests.antt =====
-- Runs of a buffer of three slots, and the theorems at it.
use prototype_bundle.Prelude.{
  ℕ, zero, suc, ◌<◌, ◌≡◌, refl, none, some, false, [], ◌∷◌, arith, get_elem?, replicate,
}
use prototype_bundle.Ring.{
  ok, throws, fault, Ring, construct, destroy, read, fresh, push_back, pop_front, pop_back,
  destruct, assign, assign_self, copy_construct, apply_range, uninit_copy_range, destroy_range,
  destroy_from, copy_from, push, drop_front, drop_back, run,
}
use prototype_bundle.Ring.Refine.{slot, expected, Represents}
use prototype_bundle.Ring.Deque
use prototype_bundle.Ring.Deque.{drop_last}
use prototype_bundle.Ring.Steps.{Matches, run_refines}
use prototype_bundle.Ring.Ranges.{destruct_lem}
use prototype_bundle.Ring.Copy.{fresh-Represents, assign_lem}
use prototype_bundle.Ring.Copies.{copy_construct_folded, assign_self_faults}

-- 8, then 9, folded over the end of the storage
abbrev folded : Ring ℕ
folded = record { slots = some 9 ∷ none ∷ some 8 ∷ []; begin = 2; count = 2 }

abbrev straight : Ring ℕ
straight = record { slots = none ∷ some 8 ∷ some 9 ∷ []; begin = 1; count = 2 }

folded-Represents : Represents 3 folded (8 ∷ 9 ∷ [])
folded-Represents = record {
  storage = refl;
  small = omega arith;
  begin_in = omega arith;
  counted = refl;
  fits = omega arith;
  items = at_slot;
}
  where
    at_slot : (i : ℕ) → i < 3 → get_elem? folded.slots (slot 3 2 i) ≡ expected (8 ∷ 9 ∷ []) i
    at_slot zero lt = refl
    at_slot (suc zero) lt = refl
    at_slot (suc (suc zero)) lt = refl
    at_slot (suc (suc (suc i))) lt = absurd (omega arith)

straight-Represents : Represents 3 straight (8 ∷ 9 ∷ [])
straight-Represents = record {
  storage = refl;
  small = omega arith;
  begin_in = omega arith;
  counted = refl;
  fits = omega arith;
  items = at_slot;
}
  where
    at_slot : (i : ℕ) → i < 3 → get_elem? straight.slots (slot 3 1 i) ≡ expected (8 ∷ 9 ∷ []) i
    at_slot zero lt = refl
    at_slot (suc zero) lt = refl
    at_slot (suc (suc zero)) lt = refl
    at_slot (suc (suc (suc i))) lt = absurd (omega arith)

folded-run :
    run 3 folded (push 1 ∷ drop_front ∷ drop_back ∷ [])
    ≡ ok (record { slots = some 9 ∷ none ∷ none ∷ []; begin = 0; count = 1 })
unfolding run push_back pop_front pop_back construct destroy
folded-run = refl

full_run : run 3 folded (push 1 ∷ push 2 ∷ []) ≡ throws
unfolding run push_back construct
full_run = refl

-- The copy of 8, 9 is written to a null pointer, that of a buffer that is not folded is not.
folded_copy : copy_construct 3 false folded ≡ fault
unfolding copy_construct assign destruct apply_range destroy_range destroy_from uninit_copy_range
    copy_from construct read
folded_copy = refl

straight_copy :
    copy_construct 3 false straight
    ≡ ok (record { slots = some 8 ∷ some 9 ∷ none ∷ []; begin = 0; count = 2 })
unfolding copy_construct assign destruct apply_range destroy_range destroy_from uninit_copy_range
    copy_from construct read
straight_copy = refl

-- Into a buffer that begins at its second slot an item is copied to that slot, and the buffer then
-- begins at the first one, which is raw memory.
misplaced_copy :
    assign 3 false straight (record { slots = some 5 ∷ none ∷ none ∷ []; begin = 0; count = 1 })
    ≡ ok (record { slots = none ∷ some 5 ∷ none ∷ []; begin = 0; count = 1 })
unfolding assign destruct apply_range destroy_range destroy_from destroy uninit_copy_range copy_from
    construct read
misplaced_copy = refl

run_refines_example :
    Matches 3
      (run 3 folded (push 1 ∷ drop_front ∷ push 2 ∷ push 3 ∷ []))
      (Deque.run 3 (8 ∷ 9 ∷ []) (push 1 ∷ drop_front ∷ push 2 ∷ push 3 ∷ []))
run_refines_example =
    run_refines 3 (push 1 ∷ drop_front ∷ push 2 ∷ push 3 ∷ []) (8 ∷ 9 ∷ []) folded-Represents

destruct_lem_example : destruct 3 false folded ≡ ok (replicate 3 none)
destruct_lem_example = destruct_lem 3 (8 ∷ 9 ∷ []) folded-Represents

assign_lem_example :
    (r : Ring ℕ) × (assign 3 false (fresh 3) straight ≡ ok r) × Represents 3 r (8 ∷ 9 ∷ [])
assign_lem_example =
    assign_lem 3 [] (8 ∷ 9 ∷ []) (fresh-Represents 3 (omega arith) (omega arith))
      straight-Represents refl (omega arith)

copy_construct_folded_example : copy_construct 3 false folded ≡ fault
copy_construct_folded_example = copy_construct_folded 3 (8 ∷ 9 ∷ []) folded-Represents (omega arith)

assign_self_faults_example : assign_self 3 false folded ≡ fault
assign_self_faults_example = assign_self_faults 3 (8 ∷ 9 ∷ []) folded-Represents (omega arith)
