-- ===== src/Lockfree/Collector/Nodes.antt =====
-- One node that goes on to another stage.
use prototype_bundle.Prelude.{
  ℕ, true, false, ◌≡◌, ◌≢◌, ◌==◌, List, [], ◌∷◌, inl, refl, sym, ◌∙◌, ap, subst, arith, ℕ_discrete,
}
use prototype_bundle.Binalloc.Stack.Chain.{IsFresh}
use prototype_bundle.Lockfree.Collector.{Stage, deleted, Thread, pushing, loaded, State, at_node}
use prototype_bundle.Lockfree.Collector.Locals.{AllAt, IsLocal, Respects}
use prototype_bundle.Lockfree.Collector.Stages.{Moves, stays}
use prototype_bundle.Lockfree.Collector.Sound.{IsSound}

pub at_node-node :
    (stages : ℕ → Stage) (node : ℕ) (stage : Stage) → at_node stages node stage node ≡ stage
at_node-node stages node stage = let e : (node == node) ≡ true = ground arith in rw e refl

pub at_node-other :
    (stages : ℕ → Stage) (node a : ℕ) (stage : Stage)
    → a ≢ node
    → at_node stages node stage a ≡ stages a
at_node-other stages node a stage other = let e : (a == node) ≡ false = ground arith in rw e refl

pub at_node-Moves :
    (t : ℕ) (stages : ℕ → Stage) (node : ℕ) (stage : Stage)
    → Moves t (stages node) stage
    → (a : ℕ) → Moves t (stages a) (at_node stages node stage a)
at_node-Moves t stages node stage moves a = elim (ℕ_discrete a node) [
  | yes same ↦
      let e : (a == node) ≡ true = ground arith in
      rw e (subst (λ b. Moves t (stages b) stage) (sym same) moves)
  | no other ↦ let e : (a == node) ≡ false = ground arith in rw e (stays refl)
]

-- A node that stays at its stage
pub at_node-kept :
    (stages : ℕ → Stage) (node : ℕ) (stage : Stage)
    → stages node ≡ stage
    → at_node stages node stage ≡ stages
at_node-kept stages node stage e = λ i a. same_at a i
  where
    same_at : (a : ℕ) → at_node stages node stage a ≡ stages a
    same_at a = elim (ℕ_discrete a node) [
      | yes same ↦ let t : (a == node) ≡ true = ground arith in rw t (sym e ∙ ap stages (sym same))
      | no other ↦ at_node-other stages node a stage other
    ]

-- The nodes at another stage than the one that goes on
pub AllAt-other :
    (stages : ℕ → Stage) (node : ℕ) (stage target : Stage) (l : List ℕ)
    → stages node ≢ target
    → AllAt stages target l
    → AllAt (at_node stages node stage) target l
AllAt-other stages node stage target [] off h = tt
AllAt-other stages node stage target (a ∷ l) off h =
    let other : a ≢ node = λ same. off (subst (λ b. stages b ≡ target) same h.0) in
    (at_node-other stages node a stage other ∙ h.0, AllAt-other stages node stage target l off h.1)

-- The nodes other than the one that goes on
pub AllAt-apart :
    (stages : ℕ → Stage) (node : ℕ) (stage target : Stage) (l : List ℕ)
    → IsFresh node l
    → AllAt stages target l
    → AllAt (at_node stages node stage) target l
AllAt-apart stages node stage target [] off h = tt
AllAt-apart stages node stage target (a ∷ l) off h = (
  at_node-other stages node a stage off.0 ∙ h.0,
  AllAt-apart stages node stage target l off.1 h.1,
)

-- The nodes at the stage that the one goes on to
pub AllAt-joined :
    (stages : ℕ → Stage) (node : ℕ) (stage : Stage) (l : List ℕ)
    → AllAt stages stage l
    → AllAt (at_node stages node stage) stage l
AllAt-joined stages node stage [] h = tt
AllAt-joined stages node stage (a ∷ l) h = (joined, AllAt-joined stages node stage l h.1)
  where
    joined : at_node stages node stage a ≡ stage
    joined = elim (ℕ_discrete a node) [
      | yes same ↦ let e : (a == node) ≡ true = ground arith in rw e refl
      | no other ↦ at_node-other stages node a stage other ∙ h.0
    ]

-- A step that moves one node on, and writes no link
pub Respects-node :
    (s : State) {l c guards : List ℕ} (sound : IsSound s l c guards) (t node : ℕ) (stage : Stage)
    (thread : Thread)
    → Moves t (s.stages node) stage
    → ((u : ℕ) → u ≢ t → s.threads u ≡ pushing node → stage ≡ s.stages node)
    → ((u : ℕ) → u ≢ t → s.threads u ≡ loaded node → stage ≢ deleted)
    → ((a : ℕ) → thread ≢ loaded a)
    → Respects t s.next s.next s.stages (at_node s.stages node stage) s.threads thread
unfolding IsLocal
Respects-node s sound t node stage thread moves pushes spares never = record {
  writes = λ a. inl refl;
  moves = at_node-Moves t s.stages node stage moves;
  pushes = λ u a other at. elim (ℕ_discrete a node) [
    | yes same ↦
        let e : (a == node) ≡ true = ground arith in
        rw e
          (pushes u other (subst (λ b. s.threads u ≡ pushing b) same at) ∙ ap s.stages (sym same))
    | no apart ↦ at_node-other s.stages node a stage apart
  ];
  spares = λ u a other at. elim (ℕ_discrete a node) [
    | yes same ↦
        let e : (a == node) ≡ true = ground arith in
        rw e (spares u other (subst (λ b. s.threads u ≡ loaded b) same at))
    | no apart ↦ λ gone.
        (subst (IsLocal s.next s.stages s.threads u) at (sound.locals u)).alive
          (sym (at_node-other s.stages node a stage apart) ∙ gone)
  ];
  loads = λ a e. absurd (never a e);
}
