-- ===== src/Marking/Collect.antt =====
-- `collect` on a table: marking, sweep and the removal of the objects.
use prototype_bundle.Prelude.{
  ℕ, suc, ◌+◌, ◌*◌, ◌≡◌, ◌≢◌, ◌↔◌, true, false, List, ◌∷◌, length, sym, ◌∙◌, ap, subst, inl, inr,
  Bool-cases, some,
}
use mathlib.Core.Option.{map as optional}
use prototype_bundle.Prelude.Places.{Has, Has-here, Has-there}
use prototype_bundle.Marking.{Marks, sweep, Table, swept, collect, Reaches, itself, follows}
use prototype_bundle.Marking.Rounds.{Has-cons}
use prototype_bundle.Marking.Reach.{mark_from_lem}
use prototype_bundle.Marking.Sweep.{
  Distinct, sweep-marked, sweep-unmarked, unmarked-swept, IsLeft, rem_obj_nodes-IsLeft,
}

-- The objects of a table are distinct, the root is none of them, references lead from the root and
-- from objects to these only, and at most the root is marked.
pub record IsTable (t : Table) : Type 0 where
  pub distinct : Distinct t.objects
  pub root_apart : ¬ Has t.root t.objects
  pub within :
      (x to : ℕ) → Has x (t.root ∷ t.objects) → Has to (t.ref_chain x) → Has to (t.root ∷ t.objects)
  pub only_root : (x : ℕ) → t.marked x ≡ true → x ≡ t.root

module _ (t : Table) (h : IsTable t) (last : Marks)
    (marks : (x : ℕ) → (last x ≡ true) ↔ Reaches t.ref_chain t.root x) where
  reached_within : (x : ℕ) → Reaches t.ref_chain t.root x → Has x (t.root ∷ t.objects)
  reached_within x itself = Has-here t.root t.objects
  reached_within x (follows node to before ref) = h.within node x (reached_within node before) ref

  abbrev garbage : List ℕ
  garbage = (sweep last t.objects).1

  left : IsLeft garbage (record t { marked = (sweep last t.objects).0 }) (swept t last)
  unfolding swept
  left = rem_obj_nodes-IsLeft garbage (record t { marked = (sweep last t.objects).0 }) h.distinct

  reached-not_garbage : (x : ℕ) → Reaches t.ref_chain t.root x → ¬ Has x garbage
  reached-not_garbage x reached there =
      clash (sym ((marks x).1 reached) ∙ (sweep-unmarked last t.objects x h.distinct there).1)
    where
      clash : true ≢ false
      clash e = cc

  kept-reached :
      (x : ℕ) → Has x (swept t last).objects → Has x t.objects × Reaches t.ref_chain t.root x
  kept-reached x there =
      let w = left.was x there in
      elim (Bool-cases (last x)) [
        | inl e ↦ (w.0, (marks x).0 e)
        | inr e ↦ absurd (w.1 (unmarked-swept last t.objects x h.distinct w.0 e))
      ]

  reached-kept :
      (x : ℕ) → Has x t.objects → Reaches t.ref_chain t.root x → Has x (swept t last).objects
  reached-kept x there reached = left.kept x there (reached-not_garbage x reached)

  swept-root : (swept t last).root ≡ t.root
  swept-root = left.same_root

  stays :
      (x : ℕ) → Has x ((swept t last).root ∷ (swept t last).objects) → Reaches t.ref_chain t.root x
  stays x there = elim (Has-cons x (swept t last).root (swept t last).objects there) [
    | inl same ↦ subst (Reaches t.ref_chain t.root) (sym (same ∙ swept-root)) itself
    | inr kept ↦ (kept-reached x kept).1
  ]

  swept-IsTable : IsTable (swept t last)
  swept-IsTable = record {
    distinct = left.distinct;
    root_apart = λ there.
        h.root_apart
          (subst (λ y. Has y t.objects) swept-root (kept-reached (swept t last).root there).0);
    within = λ x to from ref.
        let reached = stays x from in
        let ref_before =
          subst (λ l. Has to l) (left.kept_refs x (reached-not_garbage x reached)) ref in
        let to_reached = follows x to reached ref_before in
        elim (Has-cons to t.root t.objects (h.within x to (reached_within x reached) ref_before)) [
          | inl same ↦
              subst (λ y. Has y ((swept t last).root ∷ (swept t last).objects))
                (swept-root ∙ sym same) (Has-here (swept t last).root (swept t last).objects)
          | inr there ↦
              Has-there to (swept t last).root (swept t last).objects
                (reached-kept to there to_reached)
        ];
    only_root = λ x e.
        let r = sweep-marked last t.objects x (sym (ap (λ m. m x) left.same_marks) ∙ e) in
        elim (Has-cons x t.root t.objects (reached_within x ((marks x).0 r.0))) [
          | inl same ↦ same ∙ sym swept-root
          | inr there ↦ absurd (r.1 there)
        ];
  }

-- `collect` of a table, with fuel for two rounds for each object and three more, keeps the objects that
-- the root reaches, with their references, and no others, and leaves a table that it can collect again.
pub collect_lem :
    (t : Table)
    → IsTable t
    → (s : Table) × (collect (2 * suc (length t.objects) + 1) t ≡ some s)
      × ((x : ℕ) → Has x s.objects ↔ (Has x t.objects × Reaches t.ref_chain t.root x))
      × ((x : ℕ) → Has x s.objects → s.ref_chain x ≡ t.ref_chain x)
      × IsTable s
unfolding collect
collect_lem t h =
    let (last, ends, marks) =
      mark_from_lem t.ref_chain (t.root ∷ t.objects) h.within t.root t.marked
        (Has-here t.root t.objects) h.only_root in
    (
      swept t last,
      ap (optional (swept t)) ends,
      (λ x. (
        (λ kept. kept-reached t h last marks x kept),
        (λ both. reached-kept t h last marks x both.0 both.1),
      )),
      (λ x kept.
          (left t h last marks).kept_refs x
            (reached-not_garbage t h last marks x (kept-reached t h last marks x kept).1)),
      swept-IsTable t h last marks,
    )
