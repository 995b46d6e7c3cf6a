-- ===== src/Lockfree/Collector/Collections.antt =====
-- The push of a chain to the collection keeps the invariant.
use prototype_bundle.Prelude.{
  not, ◌&&◌, Bool-cases, ℕ, Bool, true, ◌≡◌, ◌==◌, List, [], ◌∷◌, ◌++◌, inl, inr, refl, subst,
  arith,
}
use prototype_bundle.Binalloc.Stack.{nullptr, write}
use prototype_bundle.Binalloc.Stack.Chain.{IsChain, IsChain-write, IsChain-append}
use prototype_bundle.Lockfree.Collector.{
  Stage, listed, unhooked, collected, holding_chain, collecting, trying, State, quiet,
  collect_unhooked, collection_load, collection_swap,
}
use prototype_bundle.Prelude.Places.{update_at}
use prototype_bundle.Lockfree.Collector.Locals.{AllAt, HasChain, IsLocal}
use prototype_bundle.Lockfree.Collector.Stages.{own_unhooked}
use prototype_bundle.Lockfree.Collector.Sound.{
  IsInside, IsSound, keeps, Simulates, advance, Respects-write, listing-write,
}
use prototype_bundle.Lockfree.Collector.Maps.{
  Respects-map, AllAt-map, collect-Moves, collect_deleted,
}
use prototype_bundle.Binalloc.Stack.Chain.{IsChain-append}

last-mine :
    (stages : ℕ → Stage) (t last : ℕ) (l : List ℕ)
    → AllAt stages (unhooked t) (l ++ last ∷ [])
    → stages last ≡ unhooked t
last-mine stages t last [] h = h.0
last-mine stages t last (a ∷ l) h = last-mine stages t last l h.1

-- A thread that holds a chain writes the link of its last node.
chain_load_lem :
    (s : State) {l c guards : List ℕ} (sound : IsSound s l c guards) (t first last : ℕ)
    → IsInside (s.threads t)
    → HasChain s.next s.stages t first last
    → IsSound (collection_load s t first last) l c guards
unfolding IsLocal
chain_load_lem s {l} {c} {guards} sound t first last in_guard here =
    let own = own_unhooked (last-mine s.stages t last here.before here.mine) in
    let lists = listing-write s sound t last s.collection_head own in
    advance s sound t (collecting first last) (write s.next last s.collection_head) s.stages s.head
      s.collection_head l c in_guard (λ node h. cc)
      (Respects-write s sound t last s.collection_head (collecting first last) own (λ a h. cc))
      (record {
        before = here.before;
        chain =
            IsChain-write s.next last s.collection_head first here.before last here.apart
              here.chain;
        there = here.there;
        apart = here.apart;
        mine = here.mine;
      })
      lists.0 sound.listing lists.1 sound.collects_all

pub collection_load_lem :
    (s : State) {l c guards : List ℕ} (sound : IsSound s l c guards) (t first last : ℕ)
    → s.threads t ≡ holding_chain first last
    → IsSound (collection_load s t first last) l c guards
unfolding IsLocal IsInside
collection_load_lem s sound t first last at =
    chain_load_lem s sound t first last (rw at tt)
      (subst (IsLocal s.next s.stages s.threads t) at (sound.locals t))

collected_chain :
    (s : State) {l c guards : List ℕ} (sound : IsSound s l c guards) (t first last : ℕ)
    → s.threads t ≡ collecting first last
    → s.collection_head ≡ s.next last
    → (here : HasChain s.next s.stages t first last)
    → IsSound
        (record s {
          collection_head = first;
          threads = update_at s.threads t trying;
          stages = λ a. collect_unhooked t (s.stages a);
        })
        l
        (here.before ++ last ∷ c)
        guards
unfolding IsLocal IsInside IsChain
collected_chain s {l} {c} {guards} sound t first last at same here =
    let m = collect_unhooked t in
    let mine : m (unhooked t) ≡ collected = let e : (t == t) ≡ true = ground arith in rw e refl in
    let moved =
      AllAt-map s.stages m (unhooked t) collected (here.before ++ last ∷ []) mine here.mine in
    let stages' : ℕ → Stage = λ a. m (s.stages a) in
    advance s sound t trying s.next stages' s.head first l (here.before ++ last ∷ c) (rw at tt)
      (λ node h. cc)
      (Respects-map s sound t m trying (collect-Moves t) refl (collect_deleted t) (λ a h. cc)) tt
      sound.chain (AllAt-map s.stages m listed listed l refl sound.listing)
      (IsChain-append s.next first here.before last (last ∷ c) nullptr here.chain
        (refl, here.there, subst (λ h. IsChain s.next h c nullptr) same sound.collection))
      (joined here.before moved
        (AllAt-map s.stages m collected collected c refl sound.collects_all))
  where
    joined :
        (l : List ℕ)
        → AllAt (λ a. collect_unhooked t (s.stages a)) collected (l ++ last ∷ [])
        → AllAt (λ a. collect_unhooked t (s.stages a)) collected c
        → AllAt (λ a. collect_unhooked t (s.stages a)) collected (l ++ last ∷ c)
    joined [] h k = (h.0, k)
    joined (a ∷ l) h k = (h.0, joined l h.1 k)

pub collection_swap_lem :
    (s : State) {l c guards : List ℕ} (sound : IsSound s l c guards) (t first last : ℕ)
    (fails : Bool)
    → s.threads t ≡ collecting first last
    → Simulates (collection_swap s t first last fails) l quiet
unfolding IsLocal IsInside
collection_swap_lem s {l} {c} {guards} sound t first last fails at =
    let here : HasChain s.next s.stages t first last =
      subst (IsLocal s.next s.stages s.threads t) at (sound.locals t) in
    elim (Bool-cases ((s.collection_head == s.next last) && not fails)) [
      | inl e ↦
          let same : s.collection_head ≡ s.next last = ground arith in
          rw e (record {
            list = l;
            collection = here.before ++ last ∷ c;
            guards = guards;
            sound = collected_chain s sound t first last at same here;
            effect = keeps;
          })
      | inr e ↦ rw e (record {
        list = l;
        collection = c;
        guards = guards;
        sound = chain_load_lem s sound t first last (rw at tt) here;
        effect = keeps;
      })
    ]
