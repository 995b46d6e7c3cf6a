-- ===== src/Lockfree.antt =====
-- `lf::atomics` of lockfree_stack.h: threads that push and pop nodes of one linked list, by the
-- accesses to its head and its links that they make one at a time.
pub mod Refine
pub mod Pushes
pub mod Pops
pub mod Interleaving
pub mod Container
pub mod Collector
mod Tests
mod CollectorTests
use prototype_bundle.Prelude.{ℕ, Bool, true, false, not, ◌&&◌, ◌==◌, ◌≡◌, ◌≢◌, if◌then◌else◌}
use prototype_bundle.Prelude.Places.{update_at}
use prototype_bundle.Binalloc.Stack.{nullptr, NextFields, write}

-- Where a thread is: outside, in `push` of a node whose `next` is the head it expects, in `pop` with
-- the `old_head` that it has loaded, or with its `next` read too, before the compare and swap.
pub data Thread : Type 0 where
  idle : Thread
  pushing : ℕ → Thread
  loaded : ℕ → Thread
  popping : ℕ → ℕ → Thread

-- The links, the head, the threads by their numbers, and the nodes that have been on the list
pub record State : Type 0 where
  pub next : NextFields
  pub head : ℕ
  pub threads : ℕ → Thread
  pub published : ℕ → Bool

-- `node_ptr->next = head.load()`
abbrev pub push_load : State → ℕ → ℕ → State
push_load s t node_ptr = record {
  next = write s.next node_ptr s.head;
  head = s.head;
  threads = update_at s.threads t (pushing node_ptr);
  published = s.published;
}

-- `compare_and_swap (head, node_ptr->next, node_ptr)`; it may fail for no reason, and writes the head
-- to `node_ptr->next` when it fails.
unfoldable pub push_swap : State → ℕ → ℕ → Bool → State
push_swap s t node_ptr fails =
    if (s.head == s.next node_ptr) && not fails
    then record {
      next = s.next;
      head = node_ptr;
      threads = update_at s.threads t idle;
      published = λ a. if a == node_ptr then true else s.published a;
    }
    else record {
      next = write s.next node_ptr s.head;
      head = s.head;
      threads = s.threads;
      published = s.published;
    }

-- The thread with `old_head`, which is done when that is null
abbrev pub with_head : State → ℕ → ℕ → State
with_head s t old_head = record {
  next = s.next;
  head = s.head;
  threads = update_at s.threads t (if old_head == nullptr then idle else loaded old_head);
  published = s.published;
}

-- `old_head = head.load ()`
abbrev pub pop_load : State → ℕ → State
pop_load s t = with_head s t s.head

-- the argument `old_head->next`
abbrev pub pop_read : State → ℕ → ℕ → State
pop_read s t old_head = record {
  next = s.next;
  head = s.head;
  threads = update_at s.threads t (popping old_head (s.next old_head));
  published = s.published;
}

-- `compare_and_swap (head, old_head, old_head->next)`, which sets `old_head` when it fails
unfoldable pub pop_swap : State → ℕ → ℕ → ℕ → Bool → State
pop_swap s t old_head next fails =
    if (s.head == old_head) && not fails
    then record {
      next = s.next;
      head = next;
      threads = update_at s.threads t idle;
      published = s.published;
    }
    else with_head s t s.head

-- A step of one thread. A node to push is new: not null, never on the list, and pushed by no other
-- thread. The collector of the stack keeps a node from being reused while a pop may hold it.
pub data Step (s : State) : State → Type 0 where
  starts_push :
      (t node_ptr : ℕ)
      → s.threads t ≡ idle
      → node_ptr ≢ nullptr
      → s.published node_ptr ≡ false
      → ((u : ℕ) → s.threads u ≢ pushing node_ptr)
      → Step s (push_load s t node_ptr)
  swaps_push :
      (t node_ptr : ℕ) (fails : Bool)
      → s.threads t ≡ pushing node_ptr
      → Step s (push_swap s t node_ptr fails)
  starts_pop : (t : ℕ) → s.threads t ≡ idle → Step s (pop_load s t)
  reads_pop : (t old_head : ℕ) → s.threads t ≡ loaded old_head → Step s (pop_read s t old_head)
  swaps_pop :
      (t old_head next : ℕ) (fails : Bool)
      → s.threads t ≡ popping old_head next
      → Step s (pop_swap s t old_head next fails)

-- What the step does for the callers: nothing yet, the `push` of a node, or the `pop` that returns
-- one
pub data Event : Type 0 where
  quiet : Event
  put : ℕ → Event
  took : ℕ → Event

unfoldable pub push_event : State → ℕ → Bool → Event
push_event s node_ptr fails =
    if (s.head == s.next node_ptr) && not fails then put node_ptr else quiet

unfoldable pub pop_event : State → ℕ → Bool → Event
pop_event s old_head fails = if (s.head == old_head) && not fails then took old_head else quiet

unfoldable pub event : {s s' : State} → Step s s' → Event
event (starts_push t node_ptr at there new free) = quiet
event {s} (swaps_push t node_ptr fails at) = push_event s node_ptr fails
event (starts_pop t at) = quiet
event (reads_pop t old_head at) = quiet
event {s} (swaps_pop t old_head next fails at) = pop_event s old_head fails
