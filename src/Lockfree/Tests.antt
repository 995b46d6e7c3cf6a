-- ===== src/Lockfree/Tests.antt =====
-- Two threads on one stack, and the theorems at their steps.
use prototype_bundle.Prelude.{
  ◌-◌, ◌==◌, if◌then◌else◌, ◌^◌, none, some, true, ℕ, false, ◌≡◌, ◌≢◌, refl, arith, [], ◌∷◌, ◌++◌,
}
use prototype_bundle.Binalloc.Stack.{nullptr, write}
use prototype_bundle.Binalloc.Stack.Chain.{IsChain}
use prototype_bundle.Lockfree.{
  event, idle, pushing, State, push_load, push_swap, Step, starts_push, swaps_push,
}
use prototype_bundle.Lockfree.Refine.{IsLocal, Represents}
use prototype_bundle.Lockfree.Interleaving.{Steps, stop, later}
use prototype_bundle.Lockfree.Container.{
  Container, empty, push_value, pop_value, unhook, try_collect, clear,
}
use prototype_bundle.Lockfree.Container.Kept.{IsKept, pop_value_lem}
use prototype_bundle.Lockfree.Container.Laws.{IsStored, Contains, pop_value_underflows}

abbrev start : State
start = record { next = λ a. 0; head = 0; threads = λ t. idle; published = λ a. false }

start-Represents : Represents start []
unfolding IsChain IsLocal
start-Represents = record {
  chain = refl;
  listed = tt;
  locals = λ t. tt;
  apart = λ t u node different e. absurd (never node e);
}
  where
    never : (node : ℕ) → idle ≢ pushing node
    never node e = cc

-- Thread 0 pushes the node 8 while thread 1 pushes 16: the swap of 0 fails, and the next succeeds.
abbrev both_loaded : State
both_loaded = push_load (push_load start 0 8) 1 16

abbrev second_done : State
second_done = push_swap both_loaded 1 16 false

abbrev first_retried : State
first_retried = push_swap second_done 0 8 false

abbrev first_done : State
first_done = push_swap first_retried 0 8 false

heads :
    (second_done.head ≡ 16)
    × (first_retried.head ≡ 16)
    × (first_done.head ≡ 8)
    × (first_done.next 8 ≡ 16)
unfolding push_swap write
heads = (refl, refl, refl, refl)

loads_first : Step start (push_load start 0 8)
loads_first = starts_push 0 8 refl (ground arith) refl (λ u e. cc)

swaps_first : Step (push_load start 0 8) (push_swap (push_load start 0 8) 0 8 false)
swaps_first = swaps_push 0 8 false refl

first_push :
    Steps start
      (([] ++ event loads_first ∷ []) ++ event swaps_first ∷ [])
      (push_swap (push_load start 0 8) 0 8 false)
first_push = later _ _ _ (later _ _ _ stop loads_first) swaps_first

abbrev empty_container : Container ℕ
empty_container = record {
  links = λ a. 0;
  values = λ a. none;
  top_node = 0;
  stack_size = 0;
  collection_head = 0;
  critical_clients = 0;
  deleted = [];
}

empty_container-Contains : Contains empty_container []
unfolding IsStored
empty_container-Contains = (refl, refl)

-- The values 5 and 7 in the nodes 8 and 16, with the node 24 in the collector; 32 has been deleted.
abbrev two_values : Container ℕ
two_values = record {
  links = λ a. if a == 8 then 16 else 0;
  values = λ a. if a == 8 then some 5 else if a == 16 then some 7 else none;
  top_node = 8;
  stack_size = 2;
  collection_head = 24;
  critical_clients = 0;
  deleted = 32 ∷ [];
}

two_values-IsKept : IsKept two_values ((8, 5) ∷ (16, 7) ∷ []) (24 ∷ [])
unfolding IsStored IsChain
two_values-IsKept = record {
  stored = ((refl, ground arith, refl, (refl, ground arith, refl, refl)), refl);
  waiting = (refl, ground arith, refl);
  not_waiting = ((ground arith, tt), ((ground arith, tt), tt));
  not_deleted = ((ground arith, tt), ((ground arith, tt), tt));
}

pop_value_lem_example :
    ((pop_value false 9 two_values).0 ≡ some 5)
    × IsKept (pop_value false 9 two_values).1 ((16, 7) ∷ []) []
    × ((pop_value false 9 two_values).1.deleted ≡ 32 ∷ 8 ∷ 24 ∷ [])
pop_value_lem_example =
    pop_value_lem false 9 two_values 8 5 ((16, 7) ∷ []) (24 ∷ []) two_values-IsKept
      (ground arith, tt) (omega arith) (omega arith)

pop_value_underflows_example :
    ((pop_value true 9 empty_container).0 ≡ none)
    × ((pop_value true 9 empty_container).1.top_node ≡ nullptr)
    × ((pop_value true 9 empty_container).1.stack_size ≡ 2 ^ 64 - 1)
pop_value_underflows_example = pop_value_underflows true 9 empty_container empty_container-Contains

cleared :
    ((clear false 9 (push_value empty_container 8 5)).stack_size ≡ 1)
    × (empty (clear false 9 (push_value empty_container 8 5)) ≡ true)
    × ((clear false 9 (push_value empty_container 8 5)).deleted ≡ 8 ∷ [])
unfolding clear try_collect write prototype_bundle.Binalloc.Stack.find_tail_loop
    prototype_bundle.Lockfree.Container.delete_nodes
cleared = (refl, refl, refl)
