-- ===== src/Lockfree/CollectorTests.antt =====
-- A push and a pop with its collection by one thread, and the theorems at it.
use prototype_bundle.Prelude.{ℕ, false, ◌≡◌, refl, arith, List, [], ◌∷◌, ◌++◌}
use prototype_bundle.Binalloc.Stack.{nullptr, write}
use prototype_bundle.Binalloc.Stack.Chain.{IsChain}
use prototype_bundle.Lockfree.Collector.{
  deleted, guarded, deleting, State, Event, quiet, Steps, stop, later, start, push_load, push_swap,
  push_event, enter, pop_load, pop_read, pop_swap, collection_load, collection_swap,
  collectable_load, clients_load, collectable_swap, delete_node, loads_push, swaps_push,
}
use prototype_bundle.Lockfree.Collector.Safety.{
  ListSteps, IsSafe, stack_linearizes, never_uses_deleted,
}

abbrev loading : State
loading = push_load start 0 8

abbrev one_node : State
one_node = push_swap loading 0 8 false

-- Thread 1 pops the node, finds itself alone and deletes it.
abbrev popped : State
popped = pop_swap (pop_read (pop_load (enter one_node 1 guarded) 1) 1 8) 1 8 0 false

abbrev gathered : State
gathered = collection_swap (collection_load popped 1 8 8) 1 8 8 false

abbrev freed : State
freed =
    delete_node (collectable_swap (clients_load (collectable_load gathered 1) 1 8) 1 8 false) 1 8

heads :
    (one_node.head ≡ 8)
    × (popped.head ≡ 0)
    × (gathered.collection_head ≡ 8)
    × (freed.collection_head ≡ 0)
unfolding write
heads = (refl, refl, refl, refl)

freed_once :
    (freed.stages 8 ≡ deleted) × (freed.threads 1 ≡ deleting 0) × (freed.critical_clients ≡ 1)
unfolding write
freed_once = (refl, refl, refl)

abbrev two_events : List Event
two_events = ([] ++ quiet ∷ []) ++ push_event loading 8 false ∷ []

pushes : Steps false start two_events one_node
pushes =
    later ([] ++ quiet ∷ []) _ loading one_node
      (later [] _ start loading stop (loads_push 0 8 refl (ground arith) tt (λ u e. cc)))
      (swaps_push 0 8 false refl)

stack_linearizes_example :
    (l : List ℕ) × IsChain one_node.next one_node.head l nullptr × ListSteps [] two_events l
stack_linearizes_example = stack_linearizes one_node two_events pushes

never_uses_deleted_example : IsSafe one_node
never_uses_deleted_example = never_uses_deleted one_node two_events pushes
