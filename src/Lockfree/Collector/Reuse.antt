-- ===== src/Lockfree/Collector/Reuse.antt =====
-- The collector with an allocator that gives out the addresses of deleted nodes again.
use prototype_bundle.Prelude.{ℕ, true, false, ◌≡◌, ◌≢◌, ◌==◌, refl, arith, List, ℕ_discrete}
use prototype_bundle.Binalloc.Stack.{write}
use prototype_bundle.Lockfree.Collector.{
  deleted, pushing, guarded, loaded, State, Event, Step, Steps, quiet, stop, later, start,
  push_load, push_swap, enter, pop_load, pop_read, pop_swap, collection_load, collection_swap,
  collectable_load, clients_load, collectable_swap, delete_node, leave, loads_push, swaps_push,
  enters_pop, loads_pop, reads_pop, swaps_pop, loads_collection, swaps_collection,
  loads_collectable, loads_clients, swaps_collectable, deletes, leaves,
}

-- A state that steps lead to
Reachable : State → Type 0
Reachable s = (events : List Event) × Steps true start events s

then_step : (s : State) {m : State} (e : Event) → Reachable m → Step true m e s → Reachable s
unfolding Reachable
then_step s {m} e (events, steps) step = (_, later events e m s steps step)

-- Thread 0 pushes node 8, and thread 1 pops it and has it in the collection.
abbrev s1 : State
s1 = push_swap (push_load start 0 8) 0 8 false

abbrev s2 : State
s2 = pop_swap (pop_read (pop_load (enter s1 1 guarded) 1) 1 8) 1 8 0 false

abbrev s3 : State
s3 = collection_swap (collection_load s2 1 8 8) 1 8 8 false

-- Thread 1 finds itself alone with node 8; thread 2, whose pop finds no node, has loaded the
-- collection too when thread 1 deletes node 8.
abbrev s4 : State
s4 = clients_load (collectable_load s3 1) 1 8

abbrev s5 : State
s5 = collectable_load (pop_load (enter s4 2 guarded) 2) 2

abbrev s6 : State
s6 = leave (delete_node (delete_node (collectable_swap s5 1 8 false) 1 8) 1 0) 1

-- Thread 0 is given node 8 again and pushes it; thread 2 finds itself alone.
abbrev s7 : State
s7 = push_swap (push_load s6 0 8) 0 8 false

abbrev s8 : State
s8 = clients_load s7 2 8

-- Thread 3 loads node 8, thread 1 pops it into the collection, and thread 2 deletes it.
abbrev s9 : State
s9 = pop_load (enter s8 3 guarded) 3

abbrev s10 : State
s10 = pop_swap (pop_read (pop_load (enter s9 1 guarded) 1) 1 8) 1 8 0 false

abbrev s11 : State
s11 = collection_swap (collection_load s10 1 8 8) 1 8 8 false

abbrev s12 : State
s12 = delete_node (collectable_swap s11 2 8 false) 2 8

holds_deleted : (s12.threads 3 ≡ loaded 8) × (s12.stages 8 ≡ deleted)
unfolding write
holds_deleted = (refl, refl)

free-starts : (node : ℕ) (u : ℕ) → start.threads u ≢ pushing node
free-starts node u e = cc

s1-Reachable : Reachable s1
unfolding Reachable write
s1-Reachable =
    then_step s1 _
      (then_step (push_load start 0 8) _ (_, stop)
        (loads_push 0 8 refl (ground arith) tt (free-starts 8)))
      (swaps_push 0 8 false refl)

s2-Reachable : Reachable s2
unfolding write
s2-Reachable =
    then_step s2 _
      (then_step (pop_read (pop_load (enter s1 1 guarded) 1) 1 8) _
        (then_step (pop_load (enter s1 1 guarded) 1) _
          (then_step (enter s1 1 guarded) _ s1-Reachable (enters_pop 1 refl)) (loads_pop 1 refl))
        (reads_pop 1 8 refl))
      (swaps_pop 1 8 0 false refl)

s3-Reachable : Reachable s3
unfolding write
s3-Reachable =
    then_step s3 _
      (then_step (collection_load s2 1 8 8) _ s2-Reachable (loads_collection 1 8 8 refl))
      (swaps_collection 1 8 8 false refl)

s4-Reachable : Reachable s4
unfolding write
s4-Reachable =
    then_step s4 _ (then_step (collectable_load s3 1) _ s3-Reachable (loads_collectable 1 refl))
      (loads_clients 1 8 refl)

s5-Reachable : Reachable s5
unfolding write
s5-Reachable =
    then_step s5 _
      (then_step (pop_load (enter s4 2 guarded) 2) _
        (then_step (enter s4 2 guarded) _ s4-Reachable (enters_pop 2 refl)) (loads_pop 2 refl))
      (loads_collectable 2 refl)

s6-Reachable : Reachable s6
unfolding write
s6-Reachable =
    then_step s6 _
      (then_step (delete_node (delete_node (collectable_swap s5 1 8 false) 1 8) 1 0) _
        (then_step (delete_node (collectable_swap s5 1 8 false) 1 8) _
          (then_step (collectable_swap s5 1 8 false) _ s5-Reachable
            (swaps_collectable 1 8 false refl))
          (deletes 1 8 refl))
        (deletes 1 0 refl))
      (leaves 1 refl)

none_pushes : (u : ℕ) → s6.threads u ≢ pushing 8
unfolding write
none_pushes u = elim (ℕ_discrete u 0) [
  | yes e ↦ rw e (λ h. cc)
  | no n0 ↦ elim (ℕ_discrete u 1) [
    | yes e ↦ rw e (λ h. cc)
    | no n1 ↦ elim (ℕ_discrete u 2) [
      | yes e ↦ rw e (λ h. cc)
      | no n2 ↦
          let e0 : (u == 0) ≡ false = ground arith in
          let e1 : (u == 1) ≡ false = ground arith in
          let e2 : (u == 2) ≡ false = ground arith in rw (e0, e1, e2) (λ h. cc)
    ]
  ]
]

s7-Reachable : Reachable s7
unfolding write
s7-Reachable =
    then_step s7 _
      (then_step (push_load s6 0 8) _ s6-Reachable
        (loads_push 0 8 refl (ground arith) tt none_pushes))
      (swaps_push 0 8 false refl)

s8-Reachable : Reachable s8
unfolding write
s8-Reachable = then_step s8 _ s7-Reachable (loads_clients 2 8 refl)

s9-Reachable : Reachable s9
unfolding write
s9-Reachable =
    then_step s9 _ (then_step (enter s8 3 guarded) _ s8-Reachable (enters_pop 3 refl))
      (loads_pop 3 refl)

s10-Reachable : Reachable s10
unfolding write
s10-Reachable =
    then_step s10 _
      (then_step (pop_read (pop_load (enter s9 1 guarded) 1) 1 8) _
        (then_step (pop_load (enter s9 1 guarded) 1) _
          (then_step (enter s9 1 guarded) _ s9-Reachable (enters_pop 1 refl)) (loads_pop 1 refl))
        (reads_pop 1 8 refl))
      (swaps_pop 1 8 0 false refl)

s11-Reachable : Reachable s11
unfolding write
s11-Reachable =
    then_step s11 _
      (then_step (collection_load s10 1 8 8) _ s10-Reachable (loads_collection 1 8 8 refl))
      (swaps_collection 1 8 8 false refl)

s12-Reachable : Reachable s12
unfolding write
s12-Reachable =
    then_step s12 _
      (then_step (collectable_swap s11 2 8 false) _ s11-Reachable
        (swaps_collectable 2 8 false refl))
      (deletes 2 8 refl)

-- With an allocator that gives out the addresses of deleted nodes again, some interleaving of
-- pushes, pops and clears, from the empty stack on, leads to a state where a thread inside `pop` has
-- loaded a node that has been deleted, and reads its `next` at its next step.
pub reuse_uses_deleted :
    (s : State) × (events : List Event) × (t : ℕ) × (node : ℕ) × Steps true start events s
    × (s.threads t ≡ loaded node)
    × (s.stages node ≡ deleted)
    × Step true s quiet (pop_read s t node)
unfolding Reachable
reuse_uses_deleted =
    let (events, steps) = s12-Reachable in
    (s12, events, 3, 8, steps, holds_deleted.0, holds_deleted.1, reads_pop 3 8 holds_deleted.0)
