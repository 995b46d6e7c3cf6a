-- ===== src/Lockfree/Collector/Safety.antt =====
-- The runs of all threads, where the allocator gives new addresses only: the list that they lead to,
-- and the nodes that they use.
use prototype_bundle.Prelude.{ℕ, false, ◌≡◌, ◌≢◌, List, [], ◌∷◌, ◌++◌, refl, sym, ◌∙◌, subst}
use prototype_bundle.Binalloc.Stack.{nullptr}
use prototype_bundle.Binalloc.Stack.Chain.{IsChain}
use prototype_bundle.Lockfree.Collector.{
  Stage, fresh, unhooked, condemned, deleted, idle, pushing, guarded, loaded, clearing, walking,
  holding_chain, collecting, deleting, State, Event, quiet, Step,
}
use prototype_bundle.Lockfree.Collector.Locals.{AllAt, HasChain, IsWalking, IsDeleting, IsLocal}
use prototype_bundle.Lockfree.Collector.Sound.{IsInside, IsSound, ListStep, keeps, Simulates}
use prototype_bundle.Lockfree.Collector.{
  Steps, stop, later, start, loads_push, swaps_push, enters_pop, enters_clear, loads_pop, reads_pop,
  swaps_pop, detaches, walks, loads_collection, swaps_collection, loads_collectable, loads_clients,
  swaps_collectable, deletes, leaves,
}
use prototype_bundle.Lockfree.Collector.Pushes.{push_load_lem, push_swap_lem}
use prototype_bundle.Lockfree.Collector.Pops.{pop_load_lem, pop_read_lem, pop_swap_lem}
use prototype_bundle.Lockfree.Collector.Clears.{enter_lem, detach_lem, walk_lem}
use prototype_bundle.Lockfree.Collector.Collections.{collection_load_lem, collection_swap_lem}
use prototype_bundle.Lockfree.Collector.Deletions.{
  collectable_load_lem, clients_load_lem, collectable_swap_lem, delete_node_lem, leave_lem,
}

quietly : {s : State} {l c guards : List ℕ} → IsSound s l c guards → Simulates s l quiet
quietly {s} {l} {c} {guards} sound = record {
  list = l;
  collection = c;
  guards = guards;
  sound = sound;
  effect = keeps;
}

-- Each step of a thread keeps the invariant, and does to the list what its event says.
pub step-IsSound :
    (s s' : State) {l c guards : List ℕ} (e : Event)
    → Step false s e s'
    → IsSound s l c guards
    → Simulates s' l e
unfolding IsLocal IsInside
step-IsSound s s' e (loads_push t node_ptr at there may free) sound =
    push_load_lem s sound t node_ptr there may free
step-IsSound s s' e (swaps_push t node_ptr fails at) sound =
    push_swap_lem s sound t node_ptr fails at
step-IsSound s s' e (enters_pop t at) sound =
    quietly (enter_lem s sound t guarded tt (λ node h. cc) (λ a h. cc))
step-IsSound s s' e (enters_clear t at) sound =
    quietly (enter_lem s sound t clearing tt (λ node h. cc) (λ a h. cc))
step-IsSound s s' e (loads_pop t at) sound = quietly (pop_load_lem s sound t (rw at tt))
step-IsSound s s' e (reads_pop t old_head at) sound = quietly (pop_read_lem s sound t old_head at)
step-IsSound s s' e (swaps_pop t old_head next fails at) sound =
    pop_swap_lem s sound t old_head next fails at
step-IsSound s s' {l} e (detaches t at) sound = detach_lem s l sound t at
step-IsSound s s' e (walks t first tail at) sound = quietly (walk_lem s sound t first tail at)
step-IsSound s s' e (loads_collection t first last at) sound =
    quietly (collection_load_lem s sound t first last at)
step-IsSound s s' e (swaps_collection t first last fails at) sound =
    collection_swap_lem s sound t first last fails at
step-IsSound s s' e (loads_collectable t at) sound = quietly (collectable_load_lem s sound t at)
step-IsSound s s' e (loads_clients t collectable at) sound =
    quietly (clients_load_lem s sound t collectable at)
step-IsSound s s' e (swaps_collectable t collectable fails at) sound =
    collectable_swap_lem s sound t collectable fails at
step-IsSound s s' e (deletes t collectable at) sound =
    quietly (delete_node_lem s sound t collectable at)
step-IsSound s s' e (leaves t at) sound = quietly (leave_lem s sound t at)

-- The events on a list, one after the other
pub data ListSteps (l : List ℕ) : List Event → List ℕ → Type 0 where
  list_stop : ListSteps l [] l
  list_later :
      (events : List Event) (e : Event) (m l' : List ℕ)
      → ListSteps l events m
      → ListStep m e l'
      → ListSteps l (events ++ e ∷ []) l'

pub record Reached (s : State) (events : List Event) : Type 0 where
  pub list : List ℕ
  pub collection : List ℕ
  pub guards : List ℕ
  pub sound : IsSound s list collection guards
  pub effects : ListSteps [] events list

start-IsSound : IsSound start [] [] []
unfolding IsChain IsLocal IsInside
start-IsSound = record {
  chain = refl;
  listing = tt;
  collection = refl;
  collects_all = tt;
  locals = λ t. tt;
  apart = λ t u node other e f. absurd (clash node e);
  counted = refl;
  inside = λ t now. absurd now;
}
  where
    clash : (node : ℕ) → idle ≢ pushing node
    clash node e = cc

pub Reached-always :
    (s : State) (events : List Event) → Steps false start events s → Reached s events
Reached-always s _ stop = record {
  list = [];
  collection = [];
  guards = [];
  sound = start-IsSound;
  effects = list_stop;
}
Reached-always s _ (later events e m f before step) =
    let r = Reached-always m events before in
    let now = step-IsSound m s e step r.sound in
    record {
      list = now.list;
      collection = now.collection;
      guards = now.guards;
      sound = now.sound;
      effects = list_later events e r.list now.list r.effects now.effect;
    }

-- After any interleaving of pushes, pops and clears of a stack whose allocator gives new addresses
-- only, the nodes from the head are those to which the events lead from an empty list, each event at
-- its time: a push puts its node on top, a pop takes the top, and a clear leaves none.
pub stack_linearizes :
    (s : State) (events : List Event)
    → Steps false start events s
    → (l : List ℕ) × IsChain s.next s.head l nullptr × ListSteps [] events l
stack_linearizes s events steps =
    let r = Reached-always s events steps in (r.list, r.sound.chain, r.effects)

-- No thread is about to read, write or delete a node that has been deleted.
pub record IsSafe (s : State) : Type 0 where
  pub reads : (t old : ℕ) → s.threads t ≡ loaded old → s.stages old ≢ deleted
  pub writes_new : (t node : ℕ) → s.threads t ≡ pushing node → s.stages node ≢ deleted
  pub walks_on : (t first tail : ℕ) → s.threads t ≡ walking first tail → s.stages tail ≢ deleted
  pub writes_held :
      (t first last : ℕ) → s.threads t ≡ holding_chain first last → s.stages last ≢ deleted
  pub writes_last :
      (t first last : ℕ) → s.threads t ≡ collecting first last → s.stages last ≢ deleted
  pub deletes_once :
      (t node : ℕ) → s.threads t ≡ deleting node → node ≢ nullptr → s.stages node ≢ deleted

last-alive :
    (stages : ℕ → Stage) (t last : ℕ) (l : List ℕ)
    → AllAt stages (unhooked t) (l ++ last ∷ [])
    → stages last ≢ deleted
last-alive stages t last [] h e = absurd (clash (sym h.0 ∙ e))
  where
    clash : unhooked t ≢ deleted
    clash e = cc
last-alive stages t last (a ∷ l) h e = last-alive stages t last l h.1 e

IsSafe-of : (s : State) {l c guards : List ℕ} → IsSound s l c guards → IsSafe s
unfolding IsLocal IsChain
IsSafe-of s sound = record {
  reads = λ t old e. (subst (IsLocal s.next s.stages s.threads t) e (sound.locals t)).alive;
  writes_new = λ t node e dead. absurd (
      fresh_deleted
        (sym (subst (IsLocal s.next s.stages s.threads t) e (sound.locals t)).new ∙ dead));
  walks_on = λ t first tail e dead.
      let here : IsWalking s.next s.stages t first tail =
        subst (IsLocal s.next s.stages s.threads t) e (sound.locals t) in
      absurd (unhooked_deleted t (sym here.mine_after.0 ∙ dead));
  writes_held = λ t first last e.
      let here : HasChain s.next s.stages t first last =
        subst (IsLocal s.next s.stages s.threads t) e (sound.locals t) in
      last-alive s.stages t last here.before here.mine;
  writes_last = λ t first last e.
      let here : HasChain s.next s.stages t first last =
        subst (IsLocal s.next s.stages s.threads t) e (sound.locals t) in
      last-alive s.stages t last here.before here.mine;
  deletes_once = λ t node e there.
      let here : IsDeleting s.next s.stages s.threads t node =
        subst (IsLocal s.next s.stages s.threads t) e (sound.locals t) in
      first_condemned t node there here.nodes here.chain here.mine;
}
  where
    fresh_deleted : fresh ≢ deleted
    fresh_deleted e = cc

    unhooked_deleted : (t : ℕ) → unhooked t ≢ deleted
    unhooked_deleted t e = cc

    condemned_deleted : (t : ℕ) → condemned t ≢ deleted
    condemned_deleted t e = cc

    first_condemned :
        (t node : ℕ)
        → node ≢ nullptr
        → (nodes : List ℕ) → IsChain s.next node nodes nullptr
        → AllAt s.stages (condemned t) nodes
        → s.stages node ≢ deleted
    first_condemned t node there [] chain mine dead = absurd (there chain)
    first_condemned t node there (a ∷ nodes) chain mine dead =
        condemned_deleted t (sym mine.0 ∙ subst (λ b. s.stages b ≡ deleted) chain.0 dead)

-- After any interleaving of pushes, pops and clears of a stack whose allocator gives new addresses
-- only, no thread is about to use a node that has been deleted, or to delete one twice.
pub never_uses_deleted : (s : State) (events : List Event) → Steps false start events s → IsSafe s
never_uses_deleted s events steps = IsSafe-of s (Reached-always s events steps).sound
