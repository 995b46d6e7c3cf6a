-- ===== src/Lockfree/Collector/Maps.antt =====
-- The steps that move many nodes on at once.
use prototype_bundle.Prelude.{
  Bool-cases, ℕ, true, false, ◌≡◌, ◌≢◌, ◌==◌, List, [], ◌∷◌, ◌++◌, inl, inr, refl, sym, ◌∙◌, ap,
  subst, arith, ℕ_discrete,
}
use prototype_bundle.Lockfree.Collector.{
  Stage, fresh, listed, unhooked, collected, condemned, deleted, Thread, loaded, State,
  unhook_listed, collect_unhooked, condemn_collected,
}
use prototype_bundle.Lockfree.Collector.Locals.{AllAt, IsLocal, Respects, All-map}
use prototype_bundle.Lockfree.Collector.Stages.{Moves, stays, unhooks, collects, condemns}
use prototype_bundle.Lockfree.Collector.Sound.{IsSound}

pub AllAt-map :
    (stages : ℕ → Stage) (m : Stage → Stage) (from to : Stage) (l : List ℕ)
    → m from ≡ to
    → AllAt stages from l
    → AllAt (λ a. m (stages a)) to l
AllAt-map stages m from to l e = All-map l (λ a h. ap m h ∙ e)

pub AllAt-append :
    (stages : ℕ → Stage) (stage : Stage) (l m : List ℕ)
    → AllAt stages stage l
    → AllAt stages stage m
    → AllAt stages stage (l ++ m)
AllAt-append stages stage [] m h k = k
AllAt-append stages stage (a ∷ l) m h k = (h.0, AllAt-append stages stage l m h.1 k)

pub unhook-Moves : (t : ℕ) (f : Stage) → Moves t f (unhook_listed t f)
unhook-Moves t fresh = stays refl
unhook-Moves t listed = unhooks refl refl
unhook-Moves t (unhooked u) = stays refl
unhook-Moves t collected = stays refl
unhook-Moves t (condemned u) = stays refl
unhook-Moves t deleted = stays refl

pub unhook_deleted : (t : ℕ) (f : Stage) → unhook_listed t f ≡ deleted → f ≡ deleted
unhook_deleted t fresh e = e
unhook_deleted t listed e = cc
unhook_deleted t (unhooked u) e = e
unhook_deleted t collected e = e
unhook_deleted t (condemned u) e = e
unhook_deleted t deleted e = e

pub collect-Moves : (t : ℕ) (f : Stage) → Moves t f (collect_unhooked t f)
collect-Moves t fresh = stays refl
collect-Moves t listed = stays refl
collect-Moves t (unhooked u) = elim (ℕ_discrete u t) [
  | yes same ↦ let e : (u == t) ≡ true = ground arith in rw e (collects (ap unhooked same) refl)
  | no other ↦ let e : (u == t) ≡ false = ground arith in rw e (stays refl)
]
collect-Moves t collected = stays refl
collect-Moves t (condemned u) = stays refl
collect-Moves t deleted = stays refl

pub collect_deleted : (t : ℕ) (f : Stage) → collect_unhooked t f ≡ deleted → f ≡ deleted
collect_deleted t fresh e = e
collect_deleted t listed e = e
collect_deleted t (unhooked u) e = elim (Bool-cases (u == t)) [
  | inl same ↦ absurd (clash (rw same at e))
  | inr other ↦ rw other at e
]
  where
    clash : collected ≢ deleted
    clash h = cc
collect_deleted t collected e = e
collect_deleted t (condemned u) e = e
collect_deleted t deleted e = e

pub condemn-Moves : (t : ℕ) (f : Stage) → Moves t f (condemn_collected t f)
condemn-Moves t fresh = stays refl
condemn-Moves t listed = stays refl
condemn-Moves t (unhooked u) = stays refl
condemn-Moves t collected = condemns refl refl
condemn-Moves t (condemned u) = stays refl
condemn-Moves t deleted = stays refl

pub condemn_deleted : (t : ℕ) (f : Stage) → condemn_collected t f ≡ deleted → f ≡ deleted
condemn_deleted t fresh e = e
condemn_deleted t listed e = e
condemn_deleted t (unhooked u) e = e
condemn_deleted t collected e = cc
condemn_deleted t (condemned u) e = e
condemn_deleted t deleted e = e

-- A step that moves nodes on by their stages, and writes no link
pub Respects-map :
    (s : State) {l c guards : List ℕ} (sound : IsSound s l c guards) (t : ℕ) (m : Stage → Stage)
    (thread : Thread)
    → ((f : Stage) → Moves t f (m f))
    → m fresh ≡ fresh
    → ((f : Stage) → m f ≡ deleted → f ≡ deleted)
    → ((a : ℕ) → thread ≢ loaded a)
    → Respects t s.next s.next s.stages (λ a. m (s.stages a)) s.threads thread
unfolding IsLocal
Respects-map s sound t m thread moves new gone never = record {
  writes = λ a. inl refl;
  moves = λ a. moves (s.stages a);
  pushes = λ u a other at.
      let here = subst (IsLocal s.next s.stages s.threads u) at (sound.locals u) in
      ap m here.new ∙ new ∙ sym here.new;
  spares = λ u a other at dead.
      (subst (IsLocal s.next s.stages s.threads u) at (sound.locals u)).alive
        (gone (s.stages a) dead);
  loads = λ a e. absurd (never a e);
}
