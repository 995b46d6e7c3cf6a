-- ===== src/Lockfree/Collector/Sound.antt =====
-- The invariant of the stack: the list, the collection, the threads and their number in a guard.
use prototype_bundle.Prelude.{
  length, ℕ, true, false, ◌≡◌, ◌≢◌, ◌==◌, List, [], ◌∷◌, inl, refl, sym, ◌∙◌, subst, arith,
  ℕ_discrete,
}
use prototype_bundle.Binalloc.Stack.{nullptr, NextFields, write}
use prototype_bundle.Binalloc.Stack.Chain.{IsChain}
use prototype_bundle.Lockfree.Collector.{
  Stage, listed, collected, Thread, idle, pushing, guarded, loaded, popping, clearing, walking,
  holding_chain, collecting, trying, found, alone, deleting, leaving, State, Event, quiet, put,
  took, cleared,
}
use prototype_bundle.Prelude.Places.{update_at, update_at-all, Has}
use prototype_bundle.Lockfree.Collector.Locals.{AllAt, IsLocal, Respects, IsLocal-kept, All-map}
use prototype_bundle.Lockfree.Collector.Stages.{
  stays, IsOwn, not-IsOwn-listed, not-IsOwn-collected, IsChain-kept, write-WritesOwn,
}

-- Whether a thread is between the start and the end of its guard
unfoldable pub IsInside : Thread → Type 0
IsInside idle = ⊥
IsInside (pushing node) = ⊥
IsInside guarded = Unit {0}
IsInside (loaded old) = Unit {0}
IsInside (popping old after) = Unit {0}
IsInside clearing = Unit {0}
IsInside (walking first tail) = Unit {0}
IsInside (holding_chain first last) = Unit {0}
IsInside (collecting first last) = Unit {0}
IsInside trying = Unit {0}
IsInside (found c) = Unit {0}
IsInside (alone c) = Unit {0}
IsInside (deleting c) = Unit {0}
IsInside leaving = Unit {0}

-- No two threads push one node.
abbrev pub AreApart : (ℕ → Thread) → Type 0
AreApart threads = (t u node : ℕ) → t ≢ u → threads t ≡ pushing node → threads u ≢ pushing node

-- The nodes `l` are on the list and `c` in the collection, and `guards` are the threads in a guard.
pub record IsSound (s : State) (l c guards : List ℕ) : Type 0 where
  pub chain : IsChain s.next s.head l nullptr
  pub listing : AllAt s.stages listed l
  pub collection : IsChain s.next s.collection_head c nullptr
  pub collects_all : AllAt s.stages collected c
  pub locals : (t : ℕ) → IsLocal s.next s.stages s.threads t (s.threads t)
  pub apart : AreApart s.threads
  pub counted : length guards ≡ s.critical_clients
  pub inside : (t : ℕ) → IsInside (s.threads t) → Has t guards

-- What an event does to the list
pub data ListStep (l : List ℕ) : Event → List ℕ → Type 0 where
  keeps : ListStep l quiet l
  puts : (a : ℕ) → ListStep l (put a) (a ∷ l)
  takes : (a : ℕ) (l' : List ℕ) → l ≡ a ∷ l' → ListStep l (took a) l'
  clears : ListStep l cleared []

-- The state is sound after an event, with the list that the event leads to.
pub record Simulates (s : State) (l : List ℕ) (e : Event) : Type 0 where
  pub list : List ℕ
  pub collection : List ℕ
  pub guards : List ℕ
  pub sound : IsSound s list collection guards
  pub effect : ListStep l e list

-- The threads after a step of `t`
pub locals-step :
    (s : State) {l c guards : List ℕ} (sound : IsSound s l c guards) (t : ℕ) (thread : Thread)
    (next' : NextFields) (stages' : ℕ → Stage)
    → Respects t s.next next' s.stages stages' s.threads thread
    → IsLocal next' stages' (update_at s.threads t thread) t thread
    → (u : ℕ)
    → IsLocal next' stages' (update_at s.threads t thread) u (update_at s.threads t thread u)
locals-step s sound t thread next' stages' r here u =
    update_at-all (IsLocal next' stages' (update_at s.threads t thread)) s.threads t thread here
      (λ v other.
        IsLocal-kept t v s.next next' s.stages stages' s.threads thread other r (s.threads v) refl
          (sound.locals v))
      u

pub apart-step :
    (threads : ℕ → Thread) (t : ℕ) (thread : Thread)
    → AreApart threads
    → ((u node : ℕ) → u ≢ t → thread ≡ pushing node → threads u ≢ pushing node)
    → AreApart (update_at threads t thread)
apart-step threads t thread apart new a b node different e f = elim (ℕ_discrete a t) [
  | yes here ↦
      let x : (a == t) ≡ true = ground arith in
      let away : b ≢ t = λ same. different (here ∙ sym same) in
      let y : (b == t) ≡ false = ground arith in new b node away (rw x at e) (rw y at f)
  | no away ↦
      let x : (a == t) ≡ false = ground arith in
      elim (ℕ_discrete b t) [
        | yes here ↦
            let y : (b == t) ≡ true = ground arith in new a node away (rw y at f) (rw x at e)
        | no other ↦
            let y : (b == t) ≡ false = ground arith in
            apart a b node different (rw x at e) (rw y at f)
      ]
]

pub inside-step :
    (threads : ℕ → Thread) (t : ℕ) (thread : Thread) (guards guards' : List ℕ)
    → ((u : ℕ) → u ≢ t → IsInside (threads u) → Has u guards')
    → (IsInside thread → Has t guards')
    → (u : ℕ) → IsInside (update_at threads t thread u)
    → Has u guards'
inside-step threads t thread guards guards' others here =
    update_at-all (λ u thread. IsInside thread → Has u guards') threads t thread here others

-- A step of a thread in its guard
pub advance :
    (s : State) {l c guards : List ℕ} (sound : IsSound s l c guards) (t : ℕ) (thread : Thread)
    (next' : NextFields) (stages' : ℕ → Stage) (head' collection_head' : ℕ) (l' c' : List ℕ)
    → IsInside (s.threads t)
    → ((node : ℕ) → thread ≢ pushing node)
    → Respects t s.next next' s.stages stages' s.threads thread
    → IsLocal next' stages' (update_at s.threads t thread) t thread
    → IsChain next' head' l' nullptr
    → AllAt stages' listed l'
    → IsChain next' collection_head' c' nullptr
    → AllAt stages' collected c'
    → IsSound
        (record {
          next = next';
          head = head';
          collection_head = collection_head';
          critical_clients = s.critical_clients;
          threads = update_at s.threads t thread;
          stages = stages';
        })
        l'
        c'
        guards
advance s {l} {c} {guards} sound t thread next' stages' head' collection_head' l' c' in_guard never
      r here chain listing collection all =
    record {
      chain = chain;
      listing = listing;
      collection = collection;
      collects_all = all;
      locals = locals-step s sound t thread next' stages' r here;
      apart = apart-step s.threads t thread sound.apart (λ u node other e. absurd (never node e));
      counted = sound.counted;
      inside =
          inside-step s.threads t thread guards guards (λ u other. sound.inside u)
            (λ now. sound.inside t in_guard);
    }

-- The parts that a step leaves as they are
pub Respects-same :
    (s : State) {l c guards : List ℕ} (sound : IsSound s l c guards) (t : ℕ) (thread : Thread)
    → ((a : ℕ) → thread ≡ loaded a → s.stages a ≡ listed)
    → Respects t s.next s.next s.stages s.stages s.threads thread
unfolding IsLocal
Respects-same s sound t thread loads = record {
  writes = λ a. inl refl;
  moves = λ a. stays refl;
  pushes = λ u a other e. refl;
  spares = λ u a other e. (subst (IsLocal s.next s.stages s.threads u) e (sound.locals u)).alive;
  loads = loads;
}

pub Respects-write :
    (s : State) {l c guards : List ℕ} (sound : IsSound s l c guards) (t node value : ℕ)
    (thread : Thread)
    → IsOwn t (s.stages node)
    → ((a : ℕ) → thread ≢ loaded a)
    → Respects t s.next (write s.next node value) s.stages s.stages s.threads thread
unfolding IsLocal
Respects-write s sound t node value thread own never = record {
  writes = write-WritesOwn t s.stages s.next node value own;
  moves = λ a. stays refl;
  pushes = λ u a other e. refl;
  spares = λ u a other e. (subst (IsLocal s.next s.stages s.threads u) e (sound.locals u)).alive;
  loads = λ a e. absurd (never a e);
}

-- A step that changes nothing but where its thread is
pub advance-thread :
    (s : State) {l c guards : List ℕ} (sound : IsSound s l c guards) (t : ℕ) (thread : Thread)
    → IsInside (s.threads t)
    → ((node : ℕ) → thread ≢ pushing node)
    → ((a : ℕ) → thread ≡ loaded a → s.stages a ≡ listed)
    → IsLocal s.next s.stages (update_at s.threads t thread) t thread
    → IsSound (record s { threads = update_at s.threads t thread }) l c guards
advance-thread s {l} {c} sound t thread in_guard never loads here =
    advance s sound t thread s.next s.stages s.head s.collection_head l c in_guard never
      (Respects-same s sound t thread loads) here sound.chain sound.listing sound.collection
      sound.collects_all

-- The lists under a write to a node of the thread's own
pub listing-write :
    (s : State) {l c guards : List ℕ} (sound : IsSound s l c guards) (t node value : ℕ)
    → IsOwn t (s.stages node)
    → IsChain (write s.next node value) s.head l nullptr
      × IsChain (write s.next node value) s.collection_head c nullptr
listing-write s {l} {c} sound t node value own =
    let writes = write-WritesOwn t s.stages s.next node value own in
    (
      IsChain-kept t s.stages s.next (write s.next node value) s.head l nullptr writes
          (All-map l (λ a h. not-IsOwn-listed t (s.stages a) h) sound.listing) sound.chain,
      IsChain-kept t s.stages s.next (write s.next node value) s.collection_head c nullptr writes
          (All-map c (λ a h. not-IsOwn-collected t (s.stages a) h) sound.collects_all)
          sound.collection,
    )
