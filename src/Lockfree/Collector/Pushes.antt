-- ===== src/Lockfree/Collector/Pushes.antt =====
-- The steps of `push` keep the invariant.
use prototype_bundle.Prelude.{
  not, ◌&&◌, Bool-cases, ℕ, Bool, false, ◌≡◌, ◌≢◌, ◌==◌, List, ◌∷◌, inl, inr, refl, sym, ◌∙◌, subst,
  arith,
}
use prototype_bundle.Binalloc.Stack.{nullptr, write}
use prototype_bundle.Binalloc.Stack.Chain.{IsChain}
use prototype_bundle.Lockfree.Collector.{
  Stage, fresh, listed, unhooked, collected, condemned, deleted, idle, pushing, State, quiet,
  at_node, MayAllocate, push_load, push_swap, push_event,
}
use prototype_bundle.Prelude.Places.{update_at}
use prototype_bundle.Lockfree.Collector.Locals.{IsPushing, IsLocal}
use prototype_bundle.Lockfree.Collector.Stages.{lists, own_fresh}
use prototype_bundle.Lockfree.Collector.Sound.{
  IsInside, IsSound, keeps, puts, Simulates, locals-step, apart-step, inside-step, Respects-write,
  listing-write,
}
use prototype_bundle.Lockfree.Collector.Nodes.{
  at_node-kept, at_node-node, AllAt-other, AllAt-joined, Respects-node,
}

MayAllocate-fresh : (stage : Stage) → MayAllocate false stage → stage ≡ fresh
MayAllocate-fresh fresh h = refl
MayAllocate-fresh listed h = absurd h
MayAllocate-fresh (unhooked t) h = absurd h
MayAllocate-fresh collected h = absurd h
MayAllocate-fresh (condemned t) h = absurd h
MayAllocate-fresh deleted h = absurd h

-- A thread outside its guard that pushes a node writes its link.
pushing-IsSound :
    (s : State) {l c guards : List ℕ} (sound : IsSound s l c guards) (t node : ℕ)
    → node ≢ nullptr
    → s.stages node ≡ fresh
    → ((u : ℕ) → u ≢ t → s.threads u ≢ pushing node)
    → IsSound
        (record s {
          next = write s.next node s.head;
          threads = update_at s.threads t (pushing node);
        })
        l
        c
        guards
unfolding IsLocal IsInside
pushing-IsSound s {l} {c} {guards} sound t node there new free =
    let own = own_fresh new in
    let lists = listing-write s sound t node s.head own in
    record {
      chain = lists.0;
      listing = sound.listing;
      collection = lists.1;
      collects_all = sound.collects_all;
      locals =
          locals-step s sound t (pushing node) (write s.next node s.head) s.stages
            (Respects-write s sound t node s.head (pushing node) own (λ a e. cc))
            (record { there = there; new = new });
      apart =
          apart-step s.threads t (pushing node) sound.apart
            (λ u other away e. free_of u other away e);
      counted = sound.counted;
      inside =
          inside-step s.threads t (pushing node) guards guards (λ u other. sound.inside u)
            (λ now. absurd now);
    }
  where
    free_of : (u other : ℕ) → u ≢ t → pushing node ≡ pushing other → s.threads u ≢ pushing other
    free_of u other away e at = free u away (at ∙ sym e)

pub push_load_lem :
    (s : State) {l c guards : List ℕ} (sound : IsSound s l c guards) (t node : ℕ)
    → node ≢ nullptr
    → MayAllocate false (s.stages node)
    → ((u : ℕ) → s.threads u ≢ pushing node)
    → Simulates (push_load s t node) l quiet
push_load_lem s {l} {c} {guards} sound t node there may free = record {
  list = l;
  collection = c;
  guards = guards;
  sound =
      subst
        (λ stages.
          IsSound
            (record s {
              next = write s.next node s.head;
              threads = update_at s.threads t (pushing node);
              stages = stages;
            })
            l c guards)
        (sym (at_node-kept s.stages node fresh (MayAllocate-fresh (s.stages node) may)))
        (pushing-IsSound s sound t node there (MayAllocate-fresh (s.stages node) may)
          (λ u other. free u));
  effect = keeps;
}

push_swap-done :
    (s : State) {l c guards : List ℕ} (sound : IsSound s l c guards) (t node : ℕ)
    → s.threads t ≡ pushing node
    → s.head ≡ s.next node
    → IsSound
        (record s {
          head = node;
          threads = update_at s.threads t idle;
          stages = at_node s.stages node listed;
        })
        (node ∷ l)
        c
        guards
unfolding IsLocal IsInside IsChain
push_swap-done s {l} {c} {guards} sound t node at same =
    let here : IsPushing s.stages node =
      subst (IsLocal s.next s.stages s.threads t) at (sound.locals t) in
    record {
      chain = (refl, here.there, subst (λ h. IsChain s.next h l nullptr) same sound.chain);
      listing =
          (at_node-node s.stages node listed, AllAt-joined s.stages node listed l sound.listing);
      collection = sound.collection;
      collects_all =
          AllAt-other s.stages node listed collected c (λ e. absurd (clash (sym here.new ∙ e)))
            sound.collects_all;
      locals =
          locals-step s sound t idle s.next (at_node s.stages node listed)
            (Respects-node s sound t node listed idle (lists here.new refl)
              (λ u other e. absurd (sound.apart t u node (λ back. other (sym back)) at e))
              (λ u other e. λ gone. cc) (λ a e. cc))
            tt;
      apart = apart-step s.threads t idle sound.apart (λ u other away e. cc);
      counted = sound.counted;
      inside =
          inside-step s.threads t idle guards guards (λ u other. sound.inside u)
            (λ now. absurd now);
    }
  where
    clash : fresh ≢ collected
    clash e = cc

pub push_swap_lem :
    (s : State) {l c guards : List ℕ} (sound : IsSound s l c guards) (t node : ℕ) (fails : Bool)
    → s.threads t ≡ pushing node
    → Simulates (push_swap s t node fails) l (push_event s node fails)
unfolding IsLocal
push_swap_lem s {l} {c} {guards} sound t node fails at =
    elim (Bool-cases ((s.head == s.next node) && not fails)) [
      | inl e ↦
          let same : s.head ≡ s.next node = ground arith in
          rw e (record {
            list = node ∷ l;
            collection = c;
            guards = guards;
            sound = push_swap-done s sound t node at same;
            effect = puts node;
          })
      | inr e ↦
          let here : IsPushing s.stages node =
            subst (IsLocal s.next s.stages s.threads t) at (sound.locals t) in
          rw e (record {
            list = l;
            collection = c;
            guards = guards;
            sound =
                pushing-IsSound s sound t node here.there here.new
                  (λ u other. sound.apart t u node (λ back. other (sym back)) at);
            effect = keeps;
          })
    ]
