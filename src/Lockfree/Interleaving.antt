-- ===== src/Lockfree/Interleaving.antt =====
-- Each step of a thread is a step of the list, whatever the other threads do between.
use prototype_bundle.Prelude.{ℕ, List, [], ◌∷◌, ◌++◌}
use prototype_bundle.Lockfree.{
  Event, event, State, Step, starts_push, swaps_push, starts_pop, reads_pop, swaps_pop,
}
use prototype_bundle.Lockfree.Refine.{Represents, ListStep, keeps, Simulates}
use prototype_bundle.Lockfree.Pushes.{push_load_lem, push_swap_lem}
use prototype_bundle.Lockfree.Pops.{pop_load_lem, pop_read_lem, pop_swap_lem}

-- A step of a thread, from a state that stands for a list, gives a state that stands for the list
-- after the step's event: a `push` that succeeds puts its node on top, a `pop` that succeeds returns
-- the top and takes it off, and every other step keeps the list.
pub step_refines :
    (s s' : State) (l : List ℕ) (step : Step s s') → Represents s l → Simulates s' l (event step)
unfolding event
step_refines s s' l (starts_push t node_ptr at there new free) r =
    (l, push_load_lem s l t node_ptr r there new free, keeps)
step_refines s s' l (swaps_push t node_ptr fails at) r = push_swap_lem s l t node_ptr fails r at
step_refines s s' l (starts_pop t at) r = (l, pop_load_lem s l t r, keeps)
step_refines s s' l (reads_pop t old_head at) r = (l, pop_read_lem s l t old_head r at, keeps)
step_refines s s' l (swaps_pop t old_head next fails at) r =
    pop_swap_lem s l t old_head next fails r at

-- The steps of all threads, one after the other, with their events
pub data Steps (s : State) : List Event → State → Type 0 where
  stop : Steps s [] s
  later :
      (events : List Event) (m e : State)
      → Steps s events m
      → (step : Step m e) → Steps s (events ++ event step ∷ []) e

-- The events on a list, one after the other
pub data ListSteps (l : List ℕ) : List Event → List ℕ → Type 0 where
  list_stop : ListSteps l [] l
  list_later :
      (events : List Event) (e : Event) (m l' : List ℕ)
      → ListSteps l events m
      → ListStep m e l'
      → ListSteps l (events ++ e ∷ []) l'

-- From a state that stands for a list, any interleaving of the steps of the threads leaves a state
-- that stands for a list, to which the events of the steps lead, one after the other in the order in
-- which they happen.
pub linearizes :
    (s s' : State) (l : List ℕ) (events : List Event)
    → Steps s events s'
    → Represents s l
    → (l' : List ℕ) × Represents s' l' × ListSteps l events l'
linearizes s s' l _ stop r = (l, r, list_stop)
linearizes s s' l _ (later events m e before step) r =
    let (l1, r1, h1) = linearizes s m l events before r in
    let (l2, r2, h2) = step_refines m s' l1 step r1 in
    (l2, r2, list_later events (event step) l1 l2 h1 h2)
