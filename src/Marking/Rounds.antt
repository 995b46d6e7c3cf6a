-- ===== src/Marking/Rounds.antt =====
-- What the marking has reached, and what it has yet to follow.
use prototype_bundle.Prelude.{
  ℕ, zero, suc, ◌≡◌, true, false, List, [], ◌∷◌, ◌++◌, append_assoc, append-nil, sym, ◌∙◌, ap,
  subst, ◌⊎◌, inl, inr, Bool-cases, ℕ_discrete, Option, some,
}
use prototype_bundle.Prelude.Places.{Has, Has-here, Has-there, update_at-same, update_at-other}
use prototype_bundle.Marking.{
  Marks, mark, unmarked_refs, round, mark_rounds, Reaches, itself, follows,
}

pub Has-left : (x : ℕ) (a b : List ℕ) → Has x a → Has x (a ++ b)
unfolding Has
Has-left x [] b h = absurd h
Has-left x (y ∷ a) b (inl e) = inl e
Has-left x (y ∷ a) b (inr h) = inr (Has-left x a b h)

pub Has-right : (x : ℕ) (a b : List ℕ) → Has x b → Has x (a ++ b)
unfolding Has
Has-right x [] b h = h
Has-right x (y ∷ a) b h = inr (Has-right x a b h)

pub Has-either : (x : ℕ) (a b : List ℕ) → Has x (a ++ b) → Has x a ⊎ Has x b
unfolding Has
Has-either x [] b h = inr h
Has-either x (y ∷ a) b (inl e) = inl (inl e)
Has-either x (y ∷ a) b (inr h) = elim (Has-either x a b h) [ inl l ↦ inl (inr l) | inr r ↦ inr r ]

pub Has-cons : (x y : ℕ) (l : List ℕ) → Has x (y ∷ l) → (x ≡ y) ⊎ Has x l
unfolding Has
Has-cons x y l h = h

pub mark-grows : (m : Marks) (node x : ℕ) → m x ≡ true → mark m node x ≡ true
mark-grows m node x h = elim (ℕ_discrete x node) [
  | yes same ↦ ap (mark m node) same ∙ update_at-same m node true
  | no other ↦ update_at-other m node x true other ∙ h
]

pub mark-here : (m : Marks) (node : ℕ) → mark m node node ≡ true
mark-here m node = update_at-same m node true

mark-was : (m : Marks) (node x : ℕ) → mark m node x ≡ true → (x ≡ node) ⊎ (m x ≡ true)
mark-was m node x h = elim (ℕ_discrete x node) [
  | yes same ↦ inl same
  | no other ↦ inr (sym (update_at-other m node x true other) ∙ h)
]

-- The references that are followed are those to objects that are not marked.
pub unmarked_refs-Has :
    (m : Marks) (refs : List ℕ) (x : ℕ) → Has x (unmarked_refs m refs) → Has x refs × (m x ≡ false)
unfolding unmarked_refs Has
unmarked_refs-Has m [] x h = absurd h
unmarked_refs-Has m (to ∷ refs) x h = elim (Bool-cases (m to)) [
  | inl e ↦ let r = unmarked_refs-Has m refs x (rw e at h) in (inr r.0, r.1)
  | inr e ↦ elim (Has-cons x to (unmarked_refs m refs) (rw e at h)) [
    | inl same ↦ (inl same, ap m same ∙ e)
    | inr there ↦ let r = unmarked_refs-Has m refs x there in (inr r.0, r.1)
  ]
]

Has-unmarked_refs :
    (m : Marks) (refs : List ℕ) (x : ℕ) → Has x refs → (m x ≡ true) ⊎ Has x (unmarked_refs m refs)
unfolding unmarked_refs Has
Has-unmarked_refs m [] x h = absurd h
Has-unmarked_refs m (to ∷ refs) x (inl same) = elim (Bool-cases (m to)) [
  | inl e ↦ inl (ap m same ∙ e)
  | inr e ↦ rw e (inr (inl same))
]
Has-unmarked_refs m (to ∷ refs) x (inr h) = elim (Has-unmarked_refs m refs x h) [
  | inl marked ↦ inl marked
  | inr there ↦ elim (Bool-cases (m to)) [
    | inl e ↦ rw e (inr there)
    | inr e ↦ rw e (inr (inr there))
  ]
]

module _ (ref_chain : ℕ → List ℕ) (root : ℕ) where
  -- The marks and the objects that are pending: what is marked or pending is reached, and what a marked
  -- object refers to is marked or pending, unless the object itself is pending.
  pub record IsFollowed (m : Marks) (pending : List ℕ) : Type 0 where
    pub marked_reached : (x : ℕ) → m x ≡ true → Reaches ref_chain root x
    pub pending_reached : (x : ℕ) → Has x pending → Reaches ref_chain root x
    pub root_kept : (m root ≡ true) ⊎ Has root pending
    pub closed :
        (x to : ℕ)
        → m x ≡ true
        → Has to (ref_chain x)
        → Has x pending ⊎ ((m to ≡ true) ⊎ Has to pending)

  module _ (m : Marks) (node : ℕ) (black_nodes gray_nodes : List ℕ) where
    abbrev added : List ℕ
    added = unmarked_refs (mark m node) (ref_chain node)

    -- What was pending beside the node is pending after it,
    waits_on :
        (x : ℕ) → Has x (black_nodes ++ gray_nodes) → Has x (black_nodes ++ (gray_nodes ++ added))
    waits_on x there =
        subst (λ l. Has x l) (append_assoc black_nodes gray_nodes added)
          (Has-left x (black_nodes ++ gray_nodes) added there)

    new_waits : (x : ℕ) → Has x added → Has x (black_nodes ++ (gray_nodes ++ added))
    new_waits x there =
        subst (λ l. Has x l) (append_assoc black_nodes gray_nodes added)
          (Has-right x (black_nodes ++ gray_nodes) added there)

    -- the node itself is marked,
    stays :
        (x : ℕ)
        → Has x (node ∷ (black_nodes ++ gray_nodes))
        → (mark m node x ≡ true) ⊎ Has x (black_nodes ++ (gray_nodes ++ added))
    stays x e = elim (Has-cons x node (black_nodes ++ gray_nodes) e) [
      | inl same ↦ inl (ap (mark m node) same ∙ mark-here m node)
      | inr there ↦ inr (waits_on x there)
    ]

    -- and what it refers to is marked or pending.
    follows_now :
        (x to : ℕ)
        → x ≡ node
        → Has to (ref_chain x)
        → (mark m node to ≡ true) ⊎ Has to (black_nodes ++ (gray_nodes ++ added))
    follows_now x to same ref =
        elim (Has-unmarked_refs (mark m node) (ref_chain node) to
          (subst (λ y. Has to (ref_chain y)) same ref)) [
            | inl marked ↦ inl marked
            | inr there ↦ inr (new_waits to there)
          ]

    marked_node :
        IsFollowed m (node ∷ (black_nodes ++ gray_nodes))
        → IsFollowed (mark m node) (black_nodes ++ (gray_nodes ++ added))
    marked_node h = record {
      marked_reached = λ x e. elim (mark-was m node x e) [
        | inl same ↦
            h.pending_reached x
              (subst (λ y. Has y (node ∷ (black_nodes ++ gray_nodes))) (sym same) (Has-here node _))
        | inr before ↦ h.marked_reached x before
      ];
      pending_reached = λ x e.
          elim (Has-either x (black_nodes ++ gray_nodes) added
            (subst (λ l. Has x l) (sym (append_assoc black_nodes gray_nodes added)) e)) [
              | inl old ↦ h.pending_reached x (Has-there x node _ old)
              | inr new ↦
                  follows node x (h.pending_reached node (Has-here node _))
                    (unmarked_refs-Has (mark m node) (ref_chain node) x new).0
            ];
      root_kept = elim h.root_kept [
        | inl e ↦ inl (mark-grows m node root e)
        | inr e ↦ stays root e
      ];
      closed = λ x to e ref. elim (mark-was m node x e) [
        | inl same ↦ inr (follows_now x to same ref)
        | inr before ↦ elim (h.closed x to before ref) [
          | inl waits ↦ elim (Has-cons x node (black_nodes ++ gray_nodes) waits) [
            | inl same ↦ inr (follows_now x to same ref)
            | inr there ↦ inl (waits_on x there)
          ]
          | inr (inl marked) ↦ inr (inl (mark-grows m node to marked))
          | inr (inr waits) ↦ inr (stays to waits)
        ]
      ];
    }

  -- A round leaves the gray nodes pending.
  round-IsFollowed :
      (m : Marks) (black_nodes gray_nodes : List ℕ)
      → IsFollowed m (black_nodes ++ gray_nodes)
      → let r = round ref_chain m black_nodes gray_nodes in IsFollowed r.0 r.1
  unfolding round
  round-IsFollowed m [] gray_nodes h = h
  round-IsFollowed m (node ∷ black_nodes) gray_nodes h =
      round-IsFollowed (mark m node) black_nodes _ (marked_node m node black_nodes gray_nodes h)

  -- With nothing pending, the marked objects are those that are reached.
  pub mark_rounds-IsFollowed :
      (fuel : ℕ) (m last : Marks) (black_nodes : List ℕ)
      → IsFollowed m black_nodes
      → mark_rounds ref_chain fuel m black_nodes ≡ some last
      → IsFollowed last []
  unfolding mark_rounds
  mark_rounds-IsFollowed fuel m last [] h e = subst (λ x. IsFollowed x []) (some-inj e) h
    where
      some-inj : {a b : Marks} → Option.some a ≡ some b → a ≡ b
      some-inj q = cc
  mark_rounds-IsFollowed zero m last (node ∷ black_nodes) h e = absurd (cc)
  mark_rounds-IsFollowed (suc fuel) m last (node ∷ black_nodes) h e =
      let r = round ref_chain m (node ∷ black_nodes) [] in
      mark_rounds-IsFollowed fuel r.0 last r.1
        (round-IsFollowed m (node ∷ black_nodes) []
          (subst (IsFollowed m) (sym (append-nil (node ∷ black_nodes))) h))
        e

  pub reached-marked :
      (m : Marks) → IsFollowed m [] → (x : ℕ) → Reaches ref_chain root x → m x ≡ true
  unfolding Has
  reached-marked m h x itself = elim h.root_kept [ inl e ↦ e | inr e ↦ absurd e ]
  reached-marked m h x (follows node to before ref) =
      elim (h.closed node x (reached-marked m h node before) ref) [
        | inl e ↦ absurd e
        | inr (inl e) ↦ e
        | inr (inr e) ↦ absurd e
      ]
