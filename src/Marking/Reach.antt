-- ===== src/Marking/Reach.antt =====
-- How the marking ends, and what it has marked then.
use prototype_bundle.Prelude.{
  ℕ, zero, suc, ◌+◌, ◌*◌, ◌≤◌, ◌<◌, ◌≡◌, ◌≢◌, ◌↔◌, ℕ_discrete, Bool, true, false, List, [], ◌∷◌,
  ◌++◌, length, refl, sym, ◌∙◌, ap, subst, arith, ◌⊎◌, inl, inr, Bool-cases, some, if◌then◌else◌,
}
use prototype_bundle.Prelude.Places.{Has, Has-here, Has-there, Has-one, update_at-other}
use prototype_bundle.Marking.{
  Marks, mark, unmarked_refs, round, mark_rounds, mark_from, Reaches, itself,
}
use prototype_bundle.Marking.Rounds.{
  Has-either, mark-grows, mark-here, unmarked_refs-Has, IsFollowed, mark_rounds-IsFollowed,
  reached-marked,
}

-- How many of the objects are not marked
pub unmarked : Marks → List ℕ → ℕ
unmarked m [] = 0
unmarked m (x ∷ nodes) = (if m x then 0 else 1) + unmarked m nodes

unmarked-le : (m : Marks) (nodes : List ℕ) → unmarked m nodes ≤ length nodes
unfolding unmarked
unmarked-le m [] = omega arith
unmarked-le m (x ∷ nodes) = elim (Bool-cases (m x)) [
  | inl e ↦ rw e (omega (arith, unmarked-le m nodes))
  | inr e ↦ rw e (omega (arith, unmarked-le m nodes))
]

one-le : (a b : Bool) → (a ≡ true → b ≡ true) → (if b then 0 else 1) ≤ (if a then 0 else 1)
one-le true b grows = rw (grows refl) (omega arith)
one-le false true grows = omega arith
one-le false false grows = omega arith

unmarked-grows :
    (m n : Marks) (nodes : List ℕ)
    → ((x : ℕ) → m x ≡ true → n x ≡ true)
    → unmarked n nodes ≤ unmarked m nodes
unfolding unmarked
unmarked-grows m n [] grows = omega arith
unmarked-grows m n (x ∷ nodes) grows =
    omega (arith, one-le (m x) (n x) (grows x), unmarked-grows m n nodes grows)

unmarked-less :
    (m n : Marks) (nodes : List ℕ) (x : ℕ)
    → ((x : ℕ) → m x ≡ true → n x ≡ true)
    → Has x nodes
    → m x ≡ false
    → n x ≡ true
    → unmarked n nodes < unmarked m nodes
unfolding unmarked Has
unmarked-less m n [] x grows here before after = absurd here
unmarked-less m n (y ∷ nodes) x grows (inl same) before after =
    let b : m y ≡ false = ap m (sym same) ∙ before in
    let a : n y ≡ true = ap n (sym same) ∙ after in
    rw (a, b) (omega (arith, unmarked-grows m n nodes grows))
unmarked-less m n (y ∷ nodes) x grows (inr there) before after =
    omega (arith, one-le (m y) (n y) (grows y), unmarked-less m n nodes x grows there before after)

-- Whether all of a list are marked
all_or_some :
    (m : Marks) (l : List ℕ)
    → ((x : ℕ) → Has x l → m x ≡ true) ⊎ ((x : ℕ) × Has x l × (m x ≡ false))
unfolding Has
all_or_some m [] = inl (λ x h. absurd h)
all_or_some m (y ∷ l) = elim (Bool-cases (m y)) [
  | inr e ↦ inr (y, inl refl, e)
  | inl e ↦ elim (all_or_some m l) [
    | inl all ↦ inl (λ x h. elim h [ inl same ↦ ap m same ∙ e | inr there ↦ all x there ])
    | inr (x, there, apart) ↦ inr (x, inr there, apart)
  ]
]

Has-nil : (x : ℕ) → Has x [] → ⊥
unfolding Has
Has-nil x h = h

clash : true ≢ false
clash e = cc

-- To mark an object that is marked changes nothing.
mark-same : (m : Marks) (node : ℕ) → m node ≡ true → mark m node ≡ m
mark-same m node e = λ i x. pointwise x i
  where
    pointwise : (x : ℕ) → mark m node x ≡ m x
    pointwise x = elim (ℕ_discrete x node) [
      | yes same ↦ ap (mark m node) same ∙ mark-here m node ∙ sym e ∙ ap m (sym same)
      | no other ↦ update_at-other m node x true other
    ]

module _ (ref_chain : ℕ → List ℕ) where
  round-grows :
      (m : Marks) (black_nodes gray_nodes : List ℕ) (x : ℕ)
      → m x ≡ true
      → (round ref_chain m black_nodes gray_nodes).0 x ≡ true
  unfolding round
  round-grows m [] gray_nodes x h = h
  round-grows m (node ∷ black_nodes) gray_nodes x h =
      round-grows (mark m node) black_nodes _ x (mark-grows m node x h)

  round-marks :
      (m : Marks) (black_nodes gray_nodes : List ℕ) (x : ℕ)
      → Has x black_nodes
      → (round ref_chain m black_nodes gray_nodes).0 x ≡ true
  unfolding round Has
  round-marks m [] gray_nodes x h = absurd h
  round-marks m (node ∷ black_nodes) gray_nodes x (inl same) =
      round-grows (mark m node) black_nodes _ x (ap (mark m node) same ∙ mark-here m node)
  round-marks m (node ∷ black_nodes) gray_nodes x (inr there) =
      round-marks (mark m node) black_nodes _ x there

  -- A round of marked nodes marks no other, and follows objects that are not marked only.
  round-unmarked :
      (m : Marks) (black_nodes gray_nodes : List ℕ)
      → ((x : ℕ) → Has x black_nodes → m x ≡ true)
      → ((x : ℕ) → Has x gray_nodes → m x ≡ false)
      → (x : ℕ) → Has x (round ref_chain m black_nodes gray_nodes).1
      → (round ref_chain m black_nodes gray_nodes).0 x ≡ false
  unfolding round
  round-unmarked m [] gray_nodes marked apart x h = apart x h
  round-unmarked m (node ∷ black_nodes) gray_nodes marked apart x h =
      let same : mark m node ≡ m = mark-same m node (marked node (Has-here node black_nodes)) in
      round-unmarked (mark m node) black_nodes
        (gray_nodes ++ unmarked_refs (mark m node) (ref_chain node))
        (λ y there. mark-grows m node y (marked y (Has-there y node black_nodes there)))
        (λ y there.
          elim (Has-either y gray_nodes (unmarked_refs (mark m node) (ref_chain node)) there) [
            | inl old ↦ ap (λ n. n y) same ∙ apart y old
            | inr new ↦ (unmarked_refs-Has (mark m node) (ref_chain node) y new).1
          ])
        x h

  module _ (nodes : List ℕ)
      (within : (x to : ℕ) → Has x nodes → Has to (ref_chain x) → Has to nodes) where
    round-within :
        (m : Marks) (black_nodes gray_nodes : List ℕ)
        → ((x : ℕ) → Has x black_nodes → Has x nodes)
        → ((x : ℕ) → Has x gray_nodes → Has x nodes)
        → (x : ℕ) → Has x (round ref_chain m black_nodes gray_nodes).1
        → Has x nodes
    unfolding round
    round-within m [] gray_nodes black gray x h = gray x h
    round-within m (node ∷ black_nodes) gray_nodes black gray x h =
        round-within (mark m node) black_nodes
          (gray_nodes ++ unmarked_refs (mark m node) (ref_chain node))
          (λ y there. black y (Has-there y node black_nodes there))
          (λ y there.
            elim (Has-either y gray_nodes (unmarked_refs (mark m node) (ref_chain node)) there) [
              | inl old ↦ gray y old
              | inr new ↦
                  within node y (black node (Has-here node black_nodes))
                    (unmarked_refs-Has (mark m node) (ref_chain node) y new).0
            ])
          x h

    -- Two rounds mark another object, and one does where no black node was marked.
    mark_rounds_end :
        (fuel : ℕ) (m : Marks) (black_nodes : List ℕ)
        → ((x : ℕ) → Has x black_nodes → Has x nodes)
        → (2 * unmarked m nodes + 1 ≤ fuel)
          ⊎ ((2 * unmarked m nodes ≤ fuel) × ((x : ℕ) → Has x black_nodes → m x ≡ false))
        → (last : Marks) × (mark_rounds ref_chain fuel m black_nodes ≡ some last)
    unfolding mark_rounds
    mark_rounds_end fuel m [] black enough = (m, refl)
    mark_rounds_end zero m (node ∷ black_nodes) black (inl enough) = absurd (omega arith)
    mark_rounds_end zero m (node ∷ black_nodes) black (inr (enough, apart)) =
        let grows =
          unmarked-less m (mark m node) nodes node (mark-grows m node)
            (black node (Has-here node black_nodes)) (apart node (Has-here node black_nodes))
            (mark-here m node) in
        absurd (omega arith)
    mark_rounds_end (suc fuel) m (node ∷ black_nodes) black enough =
        let l = node ∷ black_nodes in
        let r = round ref_chain m l [] in
        let black_after = round-within m l [] black (λ x h. absurd (Has-nil x h)) in
        elim (all_or_some m l) [
          | inl marked ↦
              let less = unmarked-grows m r.0 nodes (round-grows m l []) in
              mark_rounds_end fuel r.0 r.1 black_after (elim enough [
                | inl e ↦
                    inr (omega arith, round-unmarked m l [] marked (λ x h. absurd (Has-nil x h)))
                | inr (e, apart) ↦ absurd (
                    clash (
                      sym (marked node (Has-here node black_nodes))
                      ∙ apart node (Has-here node black_nodes)))
              ])
          | inr (x, there, before) ↦
              let less =
                unmarked-less m r.0 nodes x (round-grows m l []) (black x there) before
                  (round-marks m l [] x there) in
              mark_rounds_end fuel r.0 r.1 black_after
                (inl (elim enough [ inl e ↦ omega arith | inr (e, apart) ↦ omega arith ]))
        ]

    -- When `ref_chain` leads from the objects of a table to such objects only, and the root is one of
    -- them, and at most the root is marked before, the marking ends after at most two rounds for each
    -- object and one, and marks the objects that the root reaches, and no others.
    pub mark_from_lem :
        (root : ℕ) (marked : Marks)
        → Has root nodes
        → ((x : ℕ) → marked x ≡ true → x ≡ root)
        → (last : Marks) × (mark_from ref_chain (2 * length nodes + 1) marked root ≡ some last)
          × ((x : ℕ) → (last x ≡ true) ↔ Reaches ref_chain root x)
    unfolding mark_from
    mark_from_lem root marked inside only =
        let start : IsFollowed ref_chain root marked (root ∷ []) = record {
          marked_reached = λ x e. subst (Reaches ref_chain root) (sym (only x e)) itself;
          pending_reached = λ x h. subst (Reaches ref_chain root) (sym (Has-one x root h)) itself;
          root_kept = inr (Has-here root []);
          closed = λ x to e ref.
              inl (subst (λ y. Has y (root ∷ [])) (sym (only x e)) (Has-here root []));
        } in
        let ends =
          mark_rounds_end (2 * length nodes + 1) marked (root ∷ [])
            (λ x h. subst (λ y. Has y nodes) (sym (Has-one x root h)) inside)
            (inl (omega (arith, unmarked-le marked nodes))) in
        let done =
          mark_rounds-IsFollowed ref_chain root (2 * length nodes + 1) marked ends.0 (root ∷ [])
            start ends.1 in
        (ends.0, ends.1, λ x. (done.marked_reached x, reached-marked ref_chain root ends.0 done x))
