-- ===== src/Lockfree/Collector/Deletions.antt =====
-- The steps of `try_collect`, and the end of a guard, keep the invariant.
use prototype_bundle.Prelude.{
  not, ◌&&◌, Bool-cases, ℕ, Bool, true, false, ◌≡◌, ◌≢◌, ◌==◌, List, [], ◌∷◌, inl, inr, refl, sym,
  ◌∙◌, subst, arith, ℕ_discrete,
}
use prototype_bundle.Binalloc.Stack.{nullptr}
use prototype_bundle.Binalloc.Stack.Chain.{IsChain, IsFresh}
use prototype_bundle.Lockfree.Collector.{
  Stage, fresh, listed, collected, condemned, deleted, Thread, idle, loaded, trying, found, alone,
  deleting, leaving, State, quiet, at_node, condemn_collected, collectable_load, clients_load,
  collectable_swap, delete_node, leave,
}
use prototype_bundle.Prelude.Places.{update_at, without, Has-one, Has-without, length-without}
use prototype_bundle.Lockfree.Collector.Locals.{
  IsUnheld, AllAt, HasFound, IsAlone, IsDeleting, IsLocal, All-map,
}
use prototype_bundle.Lockfree.Collector.Stages.{deletes, IsRetired}
use prototype_bundle.Lockfree.Collector.Sound.{
  IsInside, IsSound, keeps, Simulates, locals-step, apart-step, inside-step, advance, Respects-same,
  advance-thread,
}
use prototype_bundle.Lockfree.Collector.Nodes.{AllAt-other, Respects-node, AllAt-apart}
use prototype_bundle.Lockfree.Collector.Chains.{IsChain-unique, IsChain-apart}
use prototype_bundle.Lockfree.Collector.Maps.{
  Respects-map, AllAt-map, condemn-Moves, condemn_deleted,
}

pub collectable_load_lem :
    (s : State) {l c guards : List ℕ} (sound : IsSound s l c guards) (t : ℕ)
    → s.threads t ≡ trying
    → IsSound (collectable_load s t) l c guards
unfolding IsLocal IsInside IsRetired
collectable_load_lem s {l} {c} sound t at =
    advance-thread s sound t (found s.collection_head) (rw at tt) (λ node h. cc)
      (λ a h. absurd (cc))
      (record {
        nodes = c;
        chain = sound.collection;
        retired = All-map c (λ a h. subst IsRetired (sym h) tt) sound.collects_all;
      })

-- With one client, which is the thread, no other thread is in a guard.
only_client :
    (s : State) {l c : List ℕ} (guards : List ℕ) (sound : IsSound s l c guards) (t u : ℕ)
    → s.critical_clients ≡ 1
    → IsInside (s.threads t)
    → IsInside (s.threads u)
    → u ≡ t
only_client s [] sound t u one here there = absurd (omega (arith, one, sound.counted))
only_client s (g ∷ []) sound t u one here there =
    Has-one u g (sound.inside u there) ∙ sym (Has-one t g (sound.inside t here))
only_client s (g ∷ h ∷ guards) sound t u one here there = absurd (omega (arith, one, sound.counted))

IsUnheld-moved :
    (threads : ℕ → Thread) (t : ℕ) (thread : Thread) (l : List ℕ)
    → ((a : ℕ) → thread ≢ loaded a)
    → ((u old : ℕ) → u ≢ t → threads u ≡ loaded old → IsFresh old l)
    → IsUnheld (update_at threads t thread) l
IsUnheld-moved threads t thread l never others u old e = elim (ℕ_discrete u t) [
  | yes same ↦ let h : (u == t) ≡ true = ground arith in absurd (never old (rw h at e))
  | no away ↦ let h : (u == t) ≡ false = ground arith in others u old away (rw h at e)
]

pub clients_load_lem :
    (s : State) {l c guards : List ℕ} (sound : IsSound s l c guards) (t collectable : ℕ)
    → s.threads t ≡ found collectable
    → IsSound (clients_load s t collectable) l c guards
unfolding IsLocal IsInside
clients_load_lem s {l} {c} {guards} sound t collectable at =
    let here : HasFound s.next s.stages collectable =
      subst (IsLocal s.next s.stages s.threads t) at (sound.locals t) in
    let in_guard : IsInside (s.threads t) = rw at tt in
    elim (ℕ_discrete s.critical_clients 1) [
      | yes one ↦
          let e : (s.critical_clients == 1) ≡ true = ground arith in
          rw e (
            advance-thread s sound t (alone collectable) in_guard (λ node h. cc)
              (λ a h. absurd (cc))
              (record {
                nodes = here.nodes;
                chain = here.chain;
                retired = here.retired;
                unheld =
                    IsUnheld-moved s.threads t (alone collectable) here.nodes (λ a h. cc)
                      (λ u old away h.
                        absurd (away (only_client s guards sound t u one in_guard (rw h tt))));
              }))
      | no more ↦
          let e : (s.critical_clients == 1) ≡ false = ground arith in
          rw e (advance-thread s sound t leaving in_guard (λ node h. cc) (λ a h. absurd (cc)) tt)
    ]

condemned_chain :
    (s : State) {l c guards : List ℕ} (sound : IsSound s l c guards) (t collectable : ℕ)
    → s.threads t ≡ alone collectable
    → s.collection_head ≡ collectable
    → IsSound
        (record s {
          collection_head = nullptr;
          threads = update_at s.threads t (deleting collectable);
          stages = λ a. condemn_collected t (s.stages a);
        })
        l
        []
        guards
unfolding IsLocal IsInside IsChain
condemned_chain s {l} {c} {guards} sound t collectable at same =
    let here : IsAlone s.next s.stages s.threads collectable =
      subst (IsLocal s.next s.stages s.threads t) at (sound.locals t) in
    let m = condemn_collected t in
    let chain = subst (λ h. IsChain s.next h c nullptr) same sound.collection in
    let nodes : here.nodes ≡ c = IsChain-unique s.next collectable here.nodes c here.chain chain in
    advance s sound t (deleting collectable) s.next (λ a. m (s.stages a)) s.head nullptr l []
      (rw at tt) (λ node h. cc)
      (Respects-map s sound t m (deleting collectable) (condemn-Moves t) refl (condemn_deleted t)
        (λ a h. cc))
      (record {
        nodes = c;
        chain = chain;
        mine = AllAt-map s.stages m collected (condemned t) c refl sound.collects_all;
        unheld =
            IsUnheld-moved s.threads t (deleting collectable) c (λ a h. cc)
              (λ u old away h. subst (IsFresh old) nodes (here.unheld u old h));
      })
      sound.chain (AllAt-map s.stages m listed listed l refl sound.listing) refl tt

pub collectable_swap_lem :
    (s : State) {l c guards : List ℕ} (sound : IsSound s l c guards) (t collectable : ℕ)
    (fails : Bool)
    → s.threads t ≡ alone collectable
    → Simulates (collectable_swap s t collectable fails) l quiet
unfolding IsLocal IsInside
collectable_swap_lem s {l} {c} {guards} sound t collectable fails at =
    elim (Bool-cases ((s.collection_head == collectable) && not fails)) [
      | inl e ↦
          let same : s.collection_head ≡ collectable = ground arith in
          rw e (record {
            list = l;
            collection = [];
            guards = guards;
            sound = condemned_chain s sound t collectable at same;
            effect = keeps;
          })
      | inr e ↦ rw e (record {
        list = l;
        collection = c;
        guards = guards;
        sound = advance-thread s sound t leaving (rw at tt) (λ node h. cc) (λ a h. absurd (cc)) tt;
        effect = keeps;
      })
    ]

stage_clash : {t : ℕ} {f : Stage} → f ≡ condemned t → (f ≢ fresh) × (f ≢ listed) × (f ≢ collected)
stage_clash {t} on = (
  (λ e. clash_fresh (sym on ∙ e)),
  (λ e. clash_listed (sym on ∙ e)),
  (λ e. clash_collected (sym on ∙ e)),
)
  where
    clash_fresh : condemned t ≢ fresh
    clash_fresh e = cc

    clash_listed : condemned t ≢ listed
    clash_listed e = cc

    clash_collected : condemned t ≢ collected
    clash_collected e = cc

deleted_node :
    (s : State) {l c guards : List ℕ} (sound : IsSound s l c guards) (t node : ℕ)
    → s.threads t ≡ deleting node
    → node ≢ nullptr
    → (nodes : List ℕ) → IsChain s.next node nodes nullptr
    → AllAt s.stages (condemned t) nodes
    → IsUnheld s.threads nodes
    → IsSound
        (record s {
          threads = update_at s.threads t (deleting (s.next node));
          stages = at_node s.stages node deleted;
        })
        l
        c
        guards
unfolding IsLocal IsInside IsChain
deleted_node s sound t node at there [] chain mine unheld = absurd (there chain)
deleted_node s {l} {c} {guards} sound t node at there (a ∷ nodes) chain mine unheld =
    let same = sym chain.0 in
    let on : s.stages node ≡ condemned t = subst (λ b. s.stages b ≡ condemned t) same mine.0 in
    let off : IsFresh node nodes =
      subst (λ b. IsFresh b nodes) same (IsChain-apart s.next a nodes (refl, chain.1, chain.2)) in
    let stages' = at_node s.stages node deleted in
    let rest = subst (λ b. IsChain s.next (s.next b) nodes nullptr) same chain.2 in
    advance s sound t (deleting (s.next node)) s.next stages' s.head s.collection_head l c
      (rw at tt) (λ b h. cc)
      (Respects-node s sound t node deleted (deleting (s.next node)) (deletes on refl)
        (λ u other e.
          absurd (
            (stage_clash on).0
              (subst (IsLocal s.next s.stages s.threads u) e (sound.locals u)).new))
        (λ u other e. absurd ((unheld u node e).0 same)) (λ b h. cc))
      (record {
        nodes = nodes;
        chain = rest;
        mine = AllAt-apart s.stages node deleted (condemned t) nodes off mine.1;
        unheld =
            IsUnheld-moved s.threads t (deleting (s.next node)) nodes (λ b h. cc)
              (λ u old away h. (unheld u old h).1);
      })
      sound.chain (AllAt-other s.stages node deleted listed l (stage_clash on).1 sound.listing)
      sound.collection
      (AllAt-other s.stages node deleted collected c (stage_clash on).2 sound.collects_all)

pub delete_node_lem :
    (s : State) {l c guards : List ℕ} (sound : IsSound s l c guards) (t node : ℕ)
    → s.threads t ≡ deleting node
    → IsSound (delete_node s t node) l c guards
unfolding IsLocal IsInside
delete_node_lem s sound t node at =
    let here : IsDeleting s.next s.stages s.threads t node =
      subst (IsLocal s.next s.stages s.threads t) at (sound.locals t) in
    elim (ℕ_discrete node nullptr) [
      | yes done ↦
          let e : (node == nullptr) ≡ true = ground arith in
          rw e (advance-thread s sound t leaving (rw at tt) (λ b h. cc) (λ a h. absurd (cc)) tt)
      | no there ↦
          let e : (node == nullptr) ≡ false = ground arith in
          rw e (deleted_node s sound t node at there here.nodes here.chain here.mine here.unheld)
    ]

pub leave_lem :
    (s : State) {l c guards : List ℕ} (sound : IsSound s l c guards) (t : ℕ)
    → s.threads t ≡ leaving
    → IsSound (leave s t) l c (without t guards)
unfolding IsLocal IsInside
leave_lem s {l} {c} {guards} sound t at =
    let here = sound.inside t (rw at tt) in
    record {
      chain = sound.chain;
      listing = sound.listing;
      collection = sound.collection;
      collects_all = sound.collects_all;
      locals =
          locals-step s sound t idle s.next s.stages
            (Respects-same s sound t idle (λ a h. absurd (cc))) tt;
      apart = apart-step s.threads t idle sound.apart (λ u node other e. cc);
      counted = omega (arith, length-without t guards here, sound.counted);
      inside =
          inside-step s.threads t idle guards (without t guards)
            (λ u other now. Has-without u t guards other (sound.inside u now)) (λ now. absurd now);
    }
