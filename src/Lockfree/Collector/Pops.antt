-- ===== src/Lockfree/Collector/Pops.antt =====
-- The steps of `atomics::pop` keep the invariant.
use prototype_bundle.Prelude.{
  not, ◌&&◌, Bool-cases, ℕ, Bool, true, false, ◌≡◌, ◌≢◌, ◌==◌, List, [], ◌∷◌, inl, inr, refl, sym,
  ◌∙◌, ap, subst, arith, ℕ_discrete,
}
use prototype_bundle.Binalloc.Stack.{nullptr}
use prototype_bundle.Binalloc.Stack.Chain.{IsChain, IsFresh}
use prototype_bundle.Lockfree.Collector.{
  Stage, fresh, listed, unhooked, collected, deleted, loaded, popping, holding_chain, trying, State,
  took, at_node, pop_load, pop_read, pop_swap, pop_event,
}
use prototype_bundle.Prelude.Places.{update_at}
use prototype_bundle.Lockfree.Collector.Locals.{AllAt, HasLoaded, IsPopping, IsLocal}
use prototype_bundle.Lockfree.Collector.Stages.{unhooks}
use prototype_bundle.Lockfree.Collector.Sound.{
  IsInside, IsSound, keeps, takes, Simulates, advance, advance-thread,
}
use prototype_bundle.Lockfree.Collector.Nodes.{
  at_node-node, AllAt-other, Respects-node, AllAt-apart,
}
use prototype_bundle.Lockfree.Collector.Chains.{IsChain-apart}

head-listed :
    (s : State) {l c guards : List ℕ} (sound : IsSound s l c guards)
    → s.head ≢ nullptr
    → s.stages s.head ≡ listed
unfolding IsChain
head-listed s {l} sound there = go l sound.chain sound.listing
  where
    go :
        (l : List ℕ)
        → IsChain s.next s.head l nullptr
        → AllAt s.stages listed l
        → s.stages s.head ≡ listed
    go [] h all = absurd (there h)
    go (a ∷ l) h all = rw h.0 all.0

stage_clash : {f : Stage} → f ≡ listed → (f ≢ fresh) × (f ≢ deleted) × (f ≢ collected)
stage_clash on = (
  (λ e. clash_fresh (sym on ∙ e)),
  (λ e. clash_deleted (sym on ∙ e)),
  (λ e. clash_collected (sym on ∙ e)),
)
  where
    clash_fresh : listed ≢ fresh
    clash_fresh e = cc

    clash_deleted : listed ≢ deleted
    clash_deleted e = cc

    clash_collected : listed ≢ collected
    clash_collected e = cc

loaded_inj : {a b : ℕ} → loaded a ≡ loaded b → a ≡ b
loaded_inj e = cc

-- A load of the head, also after a compare and swap that has failed
pub pop_load_lem :
    (s : State) {l c guards : List ℕ} (sound : IsSound s l c guards) (t : ℕ)
    → IsInside (s.threads t)
    → IsSound (pop_load s t) l c guards
unfolding IsLocal
pop_load_lem s sound t in_guard = elim (ℕ_discrete s.head nullptr) [
  | yes none_left ↦
      let e : (s.head == nullptr) ≡ true = ground arith in
      rw e (advance-thread s sound t trying in_guard (λ node h. cc) (λ a h. absurd (cc)) tt)
  | no there ↦
      let e : (s.head == nullptr) ≡ false = ground arith in
      let on = head-listed s sound there in
      rw e (
        advance-thread s sound t (loaded s.head) in_guard (λ node h. cc)
          (λ a h. subst (λ b. s.stages b ≡ listed) (loaded_inj h) on)
          (record { there = there; known = (stage_clash on).0; alive = (stage_clash on).1 }))
]

pub pop_read_lem :
    (s : State) {l c guards : List ℕ} (sound : IsSound s l c guards) (t old_head : ℕ)
    → s.threads t ≡ loaded old_head
    → IsSound (pop_read s t old_head) l c guards
unfolding IsLocal IsInside
pop_read_lem s sound t old_head at =
    let here : HasLoaded s.stages old_head =
      subst (IsLocal s.next s.stages s.threads t) at (sound.locals t) in
    advance-thread s sound t (popping old_head (s.next old_head)) (rw at tt) (λ node h. cc)
      (λ a h. absurd (cc)) (record { there = here.there; known = here.known; link = λ on. refl })

-- The compare and swap of a pop that finds the head it has loaded
taken :
    (s : State) {c guards : List ℕ} (l : List ℕ) (sound : IsSound s l c guards)
    (t old_head after : ℕ)
    → s.threads t ≡ popping old_head after
    → s.head ≡ old_head
    → Simulates
        (record s {
          head = after;
          threads = update_at s.threads t (holding_chain old_head old_head);
          stages = at_node s.stages old_head (unhooked t);
        })
        l
        (took old_head)
unfolding IsLocal IsInside IsChain
taken s [] sound t old_head after at same =
    let here : IsPopping s.next s.stages old_head after =
      subst (IsLocal s.next s.stages s.threads t) at (sound.locals t) in
    absurd (here.there (sym same ∙ sound.chain))
taken s {c} {guards} (a ∷ l) sound t old_head after at same =
    let here : IsPopping s.next s.stages old_head after =
      subst (IsLocal s.next s.stages s.threads t) at (sound.locals t) in
    let node : a ≡ old_head = sym sound.chain.0 ∙ same in
    let on : s.stages old_head ≡ listed = subst (λ b. s.stages b ≡ listed) node sound.listing.0 in
    let to : s.next a ≡ after = ap s.next node ∙ here.link on in
    let stages' = at_node s.stages old_head (unhooked t) in
    let off : IsFresh old_head l =
      subst (λ b. IsFresh b l) node
        (IsChain-apart s.next a l (refl, sound.chain.1, sound.chain.2)) in
    record {
      list = l;
      collection = c;
      guards = guards;
      sound =
          advance s sound t (holding_chain old_head old_head) s.next stages' after s.collection_head
            l c (rw at tt) (λ b h. cc)
            (Respects-node s sound t old_head (unhooked t) (holding_chain old_head old_head)
              (unhooks on refl)
              (λ u other e. absurd (
                (stage_clash on).0
                  (subst (IsLocal s.next s.stages s.threads u) e (sound.locals u)).new))
              (λ u other e gone. cc) (λ b h. cc))
            (record {
              before = [];
              chain = refl;
              there = here.there;
              apart = tt;
              mine = (at_node-node s.stages old_head (unhooked t), tt);
            })
            (subst (λ h. IsChain s.next h l nullptr) to sound.chain.2)
            (AllAt-apart s.stages old_head (unhooked t) listed l off sound.listing.1)
            sound.collection
            (AllAt-other s.stages old_head (unhooked t) collected c (stage_clash on).2
              sound.collects_all);
      effect = takes old_head l (ap (λ b. b ∷ l) node);
    }

pub pop_swap_lem :
    (s : State) {l c guards : List ℕ} (sound : IsSound s l c guards) (t old_head after : ℕ)
    (fails : Bool)
    → s.threads t ≡ popping old_head after
    → Simulates (pop_swap s t old_head after fails) l (pop_event s old_head fails)
unfolding IsInside
pop_swap_lem s {l} {c} {guards} sound t old_head after fails at =
    elim (Bool-cases ((s.head == old_head) && not fails)) [
      | inl e ↦
          let same : s.head ≡ old_head = ground arith in
          rw e (taken s l sound t old_head after at same)
      | inr e ↦ rw e (record {
        list = l;
        collection = c;
        guards = guards;
        sound = pop_load_lem s sound t (rw at tt);
        effect = keeps;
      })
    ]
