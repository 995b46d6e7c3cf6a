-- ===== src/Lockfree/Collector.antt =====
-- `lf::stack` of lockfree_stack.h between threads: `push`, `pop` and `clear` with the guard of critical
-- clients and the collector that deletes nodes, by their accesses to the memory one at a time.
pub mod Stages
pub mod Locals
pub mod Chains
pub mod Sound
pub mod Maps
pub mod Nodes
pub mod Pushes
pub mod Pops
pub mod Clears
pub mod Collections
pub mod Deletions
pub mod Safety
pub mod Reuse
use prototype_bundle.Prelude.{
  ℕ, ◌+◌, ◌-◌, Bool, true, false, not, ◌&&◌, ◌==◌, ◌≡◌, ◌≢◌, if◌then◌else◌, List, [], ◌∷◌, ◌++◌,
}
use prototype_bundle.Binalloc.Stack.{nullptr, NextFields, write}
use prototype_bundle.Prelude.Places.{update_at}

-- What has become of a node: allocated for a push, on the list, taken off it by a thread, in the
-- collection, taken out of that by a thread, deleted
pub data Stage : Type 0 where
  fresh : Stage
  listed : Stage
  unhooked : ℕ → Stage
  collected : Stage
  condemned : ℕ → Stage
  deleted : Stage

-- Where a thread is in its call, with its variables:
-- `push` before its compare and swap; `pop` before it loads the head, before it reads
-- `old_head->next`, and before its compare and swap; `clear` before the exchange, and in `find_tail`;
-- `collector::push` of a chain before it loads the collection, and before its compare and swap;
-- `try_collect` before it loads the collection, before it loads the number of clients, before its
-- compare and swap, and in its loop; and before the end of the guard.
pub data Thread : Type 0 where
  idle : Thread
  pushing : ℕ → Thread
  guarded : Thread
  loaded : ℕ → Thread
  popping : ℕ → ℕ → Thread
  clearing : Thread
  walking : ℕ → ℕ → Thread
  holding_chain : ℕ → ℕ → Thread
  collecting : ℕ → ℕ → Thread
  trying : Thread
  found : ℕ → Thread
  alone : ℕ → Thread
  deleting : ℕ → Thread
  leaving : Thread

-- `_head`, the links, `_collection_head`, `_critical_clients`, the threads by their numbers, and the
-- stages of the nodes
pub record State : Type 0 where
  pub next : NextFields
  pub head : ℕ
  pub collection_head : ℕ
  pub critical_clients : ℕ
  pub threads : ℕ → Thread
  pub stages : ℕ → Stage

abbrev pub at_node : (ℕ → Stage) → ℕ → Stage → ℕ → Stage
at_node stages node stage a = if a == node then stage else stages a

-- The nodes that a step moves on from one stage to the next: the list, what the thread has taken off
-- it, and the collection
abbrev pub unhook_listed : ℕ → Stage → Stage
unhook_listed t listed = unhooked t
unhook_listed t stage = stage

abbrev pub collect_unhooked : ℕ → Stage → Stage
collect_unhooked t fresh = fresh
collect_unhooked t listed = listed
collect_unhooked t (unhooked u) = if u == t then collected else unhooked u
collect_unhooked t collected = collected
collect_unhooked t (condemned u) = condemned u
collect_unhooked t deleted = deleted

abbrev pub condemn_collected : ℕ → Stage → Stage
condemn_collected t collected = condemned t
condemn_collected t stage = stage

-- The accesses of `atomics::push` to the list
abbrev pub push_load : State → ℕ → ℕ → State
push_load s t node_ptr = record s {
  next = write s.next node_ptr s.head;
  threads = update_at s.threads t (pushing node_ptr);
  stages = at_node s.stages node_ptr fresh;
}

abbrev pub push_swap : State → ℕ → ℕ → Bool → State
push_swap s t node_ptr fails =
    if (s.head == s.next node_ptr) && not fails
    then record s {
      head = node_ptr;
      threads = update_at s.threads t idle;
      stages = at_node s.stages node_ptr listed;
    }
    else record s {
      next = write s.next node_ptr s.head;
      threads = update_at s.threads t (pushing node_ptr);
    }

-- `++_counter` of the guard, at the start of `pop` and of `clear`
abbrev pub enter : State → ℕ → Thread → State
enter s t thread = record s {
  critical_clients = s.critical_clients + 1;
  threads = update_at s.threads t thread;
}

-- The accesses of `atomics::pop`
abbrev pub pop_load : State → ℕ → State
pop_load s t = record s {
  threads = update_at s.threads t (if s.head == nullptr then trying else loaded s.head);
}

abbrev pub pop_read : State → ℕ → ℕ → State
pop_read s t old_head = record s {
  threads = update_at s.threads t (popping old_head (s.next old_head));
}

abbrev pub pop_swap : State → ℕ → ℕ → ℕ → Bool → State
pop_swap s t old_head next fails =
    if (s.head == old_head) && not fails
    then record s {
      head = next;
      threads = update_at s.threads t (holding_chain old_head old_head);
      stages = at_node s.stages old_head (unhooked t);
    }
    else pop_load s t

-- `atomics::detach`, and `find_tail` node by node
abbrev pub detach : State → ℕ → State
detach s t = record s {
  head = nullptr;
  threads = update_at s.threads t (if s.head == nullptr then trying else walking s.head s.head);
  stages = λ a. unhook_listed t (s.stages a);
}

abbrev pub walk : State → ℕ → ℕ → ℕ → State
walk s t first tail = record s {
  threads =
      update_at s.threads t
        (if s.next tail == nullptr then holding_chain first tail else walking first (s.next tail));
}

-- The accesses of `atomics::push` of a chain to the collection
abbrev pub collection_load : State → ℕ → ℕ → ℕ → State
collection_load s t first last = record s {
  next = write s.next last s.collection_head;
  threads = update_at s.threads t (collecting first last);
}

abbrev pub collection_swap : State → ℕ → ℕ → ℕ → Bool → State
collection_swap s t first last fails =
    if (s.collection_head == s.next last) && not fails
    then record s {
      collection_head = first;
      threads = update_at s.threads t trying;
      stages = λ a. collect_unhooked t (s.stages a);
    }
    else record s {
      next = write s.next last s.collection_head;
      threads = update_at s.threads t (collecting first last);
    }

-- The accesses of `try_collect`
abbrev pub collectable_load : State → ℕ → State
collectable_load s t = record s { threads = update_at s.threads t (found s.collection_head) }

abbrev pub clients_load : State → ℕ → ℕ → State
clients_load s t collectable = record s {
  threads = update_at s.threads t (if s.critical_clients == 1 then alone collectable else leaving);
}

abbrev pub collectable_swap : State → ℕ → ℕ → Bool → State
collectable_swap s t collectable fails =
    if (s.collection_head == collectable) && not fails
    then record s {
      collection_head = nullptr;
      threads = update_at s.threads t (deleting collectable);
      stages = λ a. condemn_collected t (s.stages a);
    }
    else record s { threads = update_at s.threads t leaving }

abbrev pub delete_node : State → ℕ → ℕ → State
delete_node s t collectable =
    if collectable == nullptr
    then record s { threads = update_at s.threads t leaving }
    else record s {
      threads = update_at s.threads t (deleting (s.next collectable));
      stages = at_node s.stages collectable deleted;
    }

-- `--_counter` of the guard
abbrev pub leave : State → ℕ → State
leave s t = record s {
  critical_clients = s.critical_clients - 1;
  threads = update_at s.threads t idle;
}

-- Whether the allocator may give out a node of this stage: a new address, or, where it reuses
-- addresses, one that has been deleted
abbrev pub MayAllocate : Bool → Stage → Type 0
MayAllocate reuse fresh = Unit {0}
MayAllocate true deleted = Unit {0}
MayAllocate reuse stage = ⊥

-- What a step does for the callers
pub data Event : Type 0 where
  quiet : Event
  put : ℕ → Event
  took : ℕ → Event
  cleared : Event

abbrev pub push_event : State → ℕ → Bool → Event
push_event s node_ptr fails =
    if (s.head == s.next node_ptr) && not fails then put node_ptr else quiet

abbrev pub pop_event : State → ℕ → Bool → Event
pop_event s old_head fails = if (s.head == old_head) && not fails then took old_head else quiet

-- A step of one thread, with its event; a compare and swap may fail for no reason.
pub data Step (reuse : Bool) (s : State) : Event → State → Type 0 where
  loads_push :
      (t node_ptr : ℕ)
      → s.threads t ≡ idle
      → node_ptr ≢ nullptr
      → MayAllocate reuse (s.stages node_ptr)
      → ((u : ℕ) → s.threads u ≢ pushing node_ptr)
      → Step reuse s quiet (push_load s t node_ptr)
  swaps_push :
      (t node_ptr : ℕ) (fails : Bool)
      → s.threads t ≡ pushing node_ptr
      → Step reuse s (push_event s node_ptr fails) (push_swap s t node_ptr fails)
  enters_pop : (t : ℕ) → s.threads t ≡ idle → Step reuse s quiet (enter s t guarded)
  enters_clear : (t : ℕ) → s.threads t ≡ idle → Step reuse s quiet (enter s t clearing)
  loads_pop : (t : ℕ) → s.threads t ≡ guarded → Step reuse s quiet (pop_load s t)
  reads_pop :
      (t old_head : ℕ) → s.threads t ≡ loaded old_head → Step reuse s quiet (pop_read s t old_head)
  swaps_pop :
      (t old_head next : ℕ) (fails : Bool)
      → s.threads t ≡ popping old_head next
      → Step reuse s (pop_event s old_head fails) (pop_swap s t old_head next fails)
  detaches : (t : ℕ) → s.threads t ≡ clearing → Step reuse s cleared (detach s t)
  walks :
      (t first tail : ℕ)
      → s.threads t ≡ walking first tail
      → Step reuse s quiet (walk s t first tail)
  loads_collection :
      (t first last : ℕ)
      → s.threads t ≡ holding_chain first last
      → Step reuse s quiet (collection_load s t first last)
  swaps_collection :
      (t first last : ℕ) (fails : Bool)
      → s.threads t ≡ collecting first last
      → Step reuse s quiet (collection_swap s t first last fails)
  loads_collectable : (t : ℕ) → s.threads t ≡ trying → Step reuse s quiet (collectable_load s t)
  loads_clients :
      (t collectable : ℕ)
      → s.threads t ≡ found collectable
      → Step reuse s quiet (clients_load s t collectable)
  swaps_collectable :
      (t collectable : ℕ) (fails : Bool)
      → s.threads t ≡ alone collectable
      → Step reuse s quiet (collectable_swap s t collectable fails)
  deletes :
      (t collectable : ℕ)
      → s.threads t ≡ deleting collectable
      → Step reuse s quiet (delete_node s t collectable)
  leaves : (t : ℕ) → s.threads t ≡ leaving → Step reuse s quiet (leave s t)

-- The steps of all threads, one after the other, with their events
pub data Steps (reuse : Bool) (s : State) : List Event → State → Type 0 where
  stop : Steps reuse s [] s
  later :
      (events : List Event) (e : Event) (m f : State)
      → Steps reuse s events m
      → Step reuse m e f
      → Steps reuse s (events ++ e ∷ []) f

-- A stack that is made, with no thread in a call
abbrev pub start : State
start = record {
  next = λ a. nullptr;
  head = nullptr;
  collection_head = nullptr;
  critical_clients = 0;
  threads = λ t. idle;
  stages = λ a. fresh;
}
