-- ===== src/Lockfree/Collector/Clears.antt =====
-- The start of a guard, and the steps of `clear`, keep the invariant.
use prototype_bundle.Prelude.{
  length-append, length, ℕ, true, false, ◌≡◌, ◌≢◌, ◌==◌, List, [], ◌∷◌, ◌++◌, refl, sym, ◌∙◌, ap,
  subst, arith, ℕ_discrete,
}
use prototype_bundle.Binalloc.Stack.{nullptr, NextFields}
use prototype_bundle.Binalloc.Stack.Chain.{IsChain, IsFresh}
use prototype_bundle.Lockfree.Collector.{
  Stage, listed, unhooked, collected, Thread, pushing, loaded, clearing, walking, holding_chain,
  trying, State, cleared, unhook_listed, enter, detach, walk,
}
use prototype_bundle.Prelude.Places.{update_at, Has-here, Has-there}
use prototype_bundle.Lockfree.Collector.Locals.{AllAt, IsWalking, IsLocal}
use prototype_bundle.Lockfree.Collector.Sound.{
  IsInside, IsSound, clears, Simulates, locals-step, apart-step, inside-step, advance,
  Respects-same, advance-thread,
}
use prototype_bundle.Lockfree.Collector.Chains.{IsChain-unique}
use prototype_bundle.Lockfree.Collector.Maps.{
  Respects-map, AllAt-map, AllAt-append, unhook-Moves, unhook_deleted,
}
use prototype_bundle.Binalloc.Stack.Chain.{IsChain-append}

pub enter_lem :
    (s : State) {l c guards : List ℕ} (sound : IsSound s l c guards) (t : ℕ) (thread : Thread)
    → IsLocal s.next s.stages (update_at s.threads t thread) t thread
    → ((node : ℕ) → thread ≢ pushing node)
    → ((a : ℕ) → thread ≢ loaded a)
    → IsSound (enter s t thread) l c (t ∷ guards)
enter_lem s {l} {c} {guards} sound t thread here never_pushing never_loaded = record {
  chain = sound.chain;
  listing = sound.listing;
  collection = sound.collection;
  collects_all = sound.collects_all;
  locals =
      locals-step s sound t thread s.next s.stages
        (Respects-same s sound t thread (λ a e. absurd (never_loaded a e))) here;
  apart =
      apart-step s.threads t thread sound.apart (λ u node other e. absurd (never_pushing node e));
  counted = omega (arith, sound.counted);
  inside =
      inside-step s.threads t thread guards (t ∷ guards)
        (λ u other now. Has-there u t guards (sound.inside u now)) (λ now. Has-here t guards);
}

detached :
    (s : State) {c guards : List ℕ} (l : List ℕ) (sound : IsSound s l c guards) (t : ℕ)
    (thread : Thread)
    → IsInside (s.threads t)
    → IsLocal s.next (λ a. unhook_listed t (s.stages a)) (update_at s.threads t thread) t thread
    → ((node : ℕ) → thread ≢ pushing node)
    → ((a : ℕ) → thread ≢ loaded a)
    → Simulates
        (record s {
          head = nullptr;
          threads = update_at s.threads t thread;
          stages = λ a. unhook_listed t (s.stages a);
        })
        l
        cleared
unfolding IsChain
detached s {c} {guards} l sound t thread in_guard here never_pushing never_loaded = record {
  list = [];
  collection = c;
  guards = guards;
  sound =
      advance s sound t thread s.next (λ a. unhook_listed t (s.stages a)) nullptr s.collection_head
        [] c in_guard never_pushing
        (Respects-map s sound t (unhook_listed t) thread (unhook-Moves t) refl (unhook_deleted t)
          never_loaded)
        here refl tt sound.collection
        (AllAt-map s.stages (unhook_listed t) collected collected c refl sound.collects_all);
  effect = clears;
}

pub detach_lem :
    (s : State) {c guards : List ℕ} (l : List ℕ) (sound : IsSound s l c guards) (t : ℕ)
    → s.threads t ≡ clearing
    → Simulates (detach s t) l cleared
unfolding IsLocal IsInside IsChain
detach_lem s [] sound t at =
    let e : (s.head == nullptr) ≡ true = ground (arith, sound.chain) in
    rw e (detached s [] sound t trying (rw at tt) tt (λ node h. cc) (λ a h. cc))
detach_lem s (a ∷ l) sound t at =
    let there : s.head ≢ nullptr = λ none. sound.chain.1 (sym sound.chain.0 ∙ none) in
    let e : (s.head == nullptr) ≡ false = ground arith in
    let gone =
      AllAt-map s.stages (unhook_listed t) listed (unhooked t) (a ∷ l) refl sound.listing in
    let stages' : ℕ → Stage = λ b. unhook_listed t (s.stages b) in
    let on = sym sound.chain.0 in
    rw e (
      detached s (a ∷ l) sound t (walking s.head s.head) (rw at tt)
        (record {
          before = [];
          after = l;
          chain = refl;
          rest =
              subst (λ h. IsChain s.next h (h ∷ l) nullptr) on (refl, sound.chain.1, sound.chain.2);
          mine = tt;
          mine_after = subst (λ h. AllAt stages' (unhooked t) (h ∷ l)) on gone;
        })
        (λ node h. cc) (λ b h. cc))

-- The end of a chain is not before it.
end-apart :
    (next : NextFields) (first end : ℕ) (before after : List ℕ)
    → IsChain next first before end
    → IsChain next end after nullptr
    → IsFresh end before
unfolding IsChain
end-apart next first end [] after h k = tt
end-apart next first end (b ∷ before) after h k = (
  (λ same.
      let long = IsChain-append next first (b ∷ before) end after nullptr h k in
      let short = subst (λ x. IsChain next x after nullptr) (sym same ∙ sym h.0) k in
      absurd (
        omega (
          arith,
          length-append (b ∷ before) after,
          ap length (IsChain-unique next first ((b ∷ before) ++ after) after long short),
        ))),
  end-apart next (next b) end before after h.2 k,
)

pub walk_lem :
    (s : State) {l c guards : List ℕ} (sound : IsSound s l c guards) (t first tail : ℕ)
    → s.threads t ≡ walking first tail
    → IsSound (walk s t first tail) l c guards
unfolding IsLocal IsInside IsChain
walk_lem s {l} {c} {guards} sound t first tail at =
    let here : IsWalking s.next s.stages t first tail =
      subst (IsLocal s.next s.stages s.threads t) at (sound.locals t) in
    elim (ℕ_discrete (s.next tail) nullptr) [
      | yes last ↦
          let e : (s.next tail == nullptr) ≡ true = ground arith in
          rw e (
            advance-thread s sound t (holding_chain first tail) (rw at tt) (λ node h. cc)
              (λ a h. absurd (cc))
              (record {
                before = here.before;
                chain = here.chain;
                there = here.rest.1;
                apart =
                    end-apart s.next first tail here.before (tail ∷ here.after) here.chain
                      here.rest;
                mine =
                    AllAt-append s.stages (unhooked t) here.before (tail ∷ []) here.mine
                      (here.mine_after.0, tt);
              }))
      | no more ↦
          let e : (s.next tail == nullptr) ≡ false = ground arith in
          rw e (
            advance-thread s sound t (walking first (s.next tail)) (rw at tt) (λ node h. cc)
              (λ a h. absurd (cc)) (onwards here here.after here.rest.2 here.mine_after.1 more))
    ]
  where
    onwards :
        (here : IsWalking s.next s.stages t first tail) (after : List ℕ)
        → IsChain s.next (s.next tail) after nullptr
        → AllAt s.stages (unhooked t) after
        → s.next tail ≢ nullptr
        → IsWalking s.next s.stages t first (s.next tail)
    onwards here [] chain all more = absurd (more chain)
    onwards here (b ∷ after) chain all more = record {
      before = here.before ++ tail ∷ [];
      after = after;
      chain =
          IsChain-append s.next first here.before tail (tail ∷ []) (s.next tail) here.chain
            (refl, here.rest.1, refl);
      rest =
          subst (λ h. IsChain s.next h (h ∷ after) nullptr) (sym chain.0) (refl, chain.1, chain.2);
      mine =
          AllAt-append s.stages (unhooked t) here.before (tail ∷ []) here.mine
            (here.mine_after.0, tt);
      mine_after = subst (λ h. AllAt s.stages (unhooked t) (h ∷ after)) (sym chain.0) all;
    }
