-- ===== src/Marking/Sweep.antt =====
-- The sweep of `collect`: which objects it finds not marked, and what is left without them.
use prototype_bundle.Prelude.{
  ℕ, ◌≡◌, ◌≢◌, ◌==◌, true, false, List, [], ◌∷◌, refl, sym, ◌∙◌, ap, subst, arith, inl, inr,
  Bool-cases, ℕ_discrete,
}
use prototype_bundle.Prelude.Places.{
  update_at, update_at-same, update_at-other, Has, without, Has-without,
}
use prototype_bundle.Marking.{Marks, sweep, Table, rem_obj_nodes}
use prototype_bundle.Marking.Rounds.{Has-cons}

-- No object stands twice in a chain.
abbrev pub Distinct : List ℕ → Type 0
Distinct [] = Unit
Distinct (x ∷ l) = (¬ Has x l) × Distinct l

-- The marks that stay, and the objects that were not marked
pub sweep-marked :
    (m : Marks) (l : List ℕ) (x : ℕ) → (sweep m l).0 x ≡ true → (m x ≡ true) × (¬ Has x l)
unfolding sweep Has
sweep-marked m [] x h = (h, λ e. e)
sweep-marked m (obj ∷ l) x h =
    let r = sweep-marked (update_at m obj false) l x h in
    elim (ℕ_discrete x obj) [
      | yes same ↦
          absurd (clash (sym (ap (update_at m obj false) same ∙ update_at-same m obj false) ∙ r.0))
      | no other ↦ (
        sym (update_at-other m obj x false other) ∙ r.0,
        λ e. elim e [ inl same ↦ other same | inr there ↦ r.1 there ],
      )
    ]
  where
    clash : false ≢ true
    clash e = cc

pub sweep-unmarked :
    (m : Marks) (l : List ℕ) (x : ℕ) → Distinct l → Has x (sweep m l).1 → Has x l × (m x ≡ false)
unfolding sweep Has
sweep-unmarked m [] x apart h = absurd h
sweep-unmarked m (obj ∷ l) x apart h =
    let later : Has x (sweep (update_at m obj false) l).1 → Has x (obj ∷ l) × (m x ≡ false) =
      (λ there.
        let r = sweep-unmarked (update_at m obj false) l x apart.1 there in
        let other : x ≢ obj = (λ same. apart.0 (subst (λ y. Has y l) same r.0)) in
        (inr r.0, sym (update_at-other m obj x false other) ∙ r.1)) in
    elim (Bool-cases (m obj)) [
      | inl e ↦ later (rw e at h)
      | inr e ↦ elim (Has-cons x obj (sweep (update_at m obj false) l).1 (rw e at h)) [
        | inl same ↦ (inl same, ap m same ∙ e)
        | inr there ↦ later there
      ]
    ]

pub unmarked-swept :
    (m : Marks) (l : List ℕ) (x : ℕ) → Distinct l → Has x l → m x ≡ false → Has x (sweep m l).1
unfolding sweep Has
unmarked-swept m [] x apart h e = absurd h
unmarked-swept m (obj ∷ l) x apart (inl same) e =
    let here : m obj ≡ false = ap m (sym same) ∙ e in rw here (inl same)
unmarked-swept m (obj ∷ l) x apart (inr there) e =
    let other : x ≢ obj = (λ same. apart.0 (subst (λ y. Has y l) same there)) in
    let r =
      unmarked-swept (update_at m obj false) l x apart.1 there
        (update_at-other m obj x false other ∙ e) in
    elim (Bool-cases (m obj)) [ inl f ↦ rw f r | inr f ↦ rw f (inr r) ]

pub without-Has : (x b : ℕ) (l : List ℕ) → Has x (without b l) → Has x l
unfolding Has without
without-Has x b [] h = absurd h
without-Has x b (y ∷ l) h = elim (Bool-cases (b == y)) [
  | inl e ↦ inr (rw e at h)
  | inr e ↦ elim (Has-cons x y (without b l) (rw e at h)) [
    | inl same ↦ inl same
    | inr there ↦ inr (without-Has x b l there)
  ]
]

without-apart : (b : ℕ) (l : List ℕ) → Distinct l → ¬ Has b (without b l)
unfolding Has without
without-apart b [] apart h = h
without-apart b (y ∷ l) apart h = elim (ℕ_discrete b y) [
  | yes same ↦
      let e : (b == y) ≡ true = ground arith in apart.0 (subst (λ z. Has z l) same (rw e at h))
  | no other ↦
      let e : (b == y) ≡ false = ground arith in
      elim (Has-cons b y (without b l) (rw e at h)) [
        | inl same ↦ other same
        | inr there ↦ without-apart b l apart.1 there
      ]
]

Distinct-without : (b : ℕ) (l : List ℕ) → Distinct l → Distinct (without b l)
unfolding Has without
Distinct-without b [] apart = tt
Distinct-without b (y ∷ l) apart = elim (Bool-cases (b == y)) [
  | inl e ↦ rw e apart.1
  | inr e ↦ rw e ((λ h. apart.0 (without-Has y b l h)), Distinct-without b l apart.1)
]

-- The objects that are left, and their references
pub record IsLeft (garbage : List ℕ) (t s : Table) : Type 0 where
  pub same_root : s.root ≡ t.root
  pub same_marks : s.marked ≡ t.marked
  pub kept_refs : (x : ℕ) → (¬ Has x garbage) → s.ref_chain x ≡ t.ref_chain x
  pub kept : (x : ℕ) → Has x t.objects → (¬ Has x garbage) → Has x s.objects
  pub was : (x : ℕ) → Has x s.objects → Has x t.objects × (¬ Has x garbage)
  pub distinct : Distinct s.objects

pub rem_obj_nodes-IsLeft :
    (garbage : List ℕ) (t : Table) → Distinct t.objects → IsLeft garbage t (rem_obj_nodes garbage t)
unfolding rem_obj_nodes Has
rem_obj_nodes-IsLeft [] t apart = record {
  same_root = refl;
  same_marks = refl;
  kept_refs = λ x h. refl;
  kept = λ x h none_of. h;
  was = λ x h. (h, λ e. e);
  distinct = apart;
}
rem_obj_nodes-IsLeft (object ∷ garbage) t apart =
    let t1 : Table = record t {
      ref_chain = update_at t.ref_chain object [];
      objects = without object t.objects;
    } in
    let r = rem_obj_nodes-IsLeft garbage t1 (Distinct-without object t.objects apart) in
    record {
      same_root = r.same_root;
      same_marks = r.same_marks;
      kept_refs = λ x h.
          r.kept_refs x (λ there. h (inr there))
          ∙ update_at-other t.ref_chain object x [] (λ same. h (inl same));
      kept = λ x h none_of.
          r.kept x (Has-without x object t.objects (λ same. none_of (inl same)) h)
            (λ there. none_of (inr there));
      was = λ x h.
          let w = r.was x h in
          (
            without-Has x object t.objects w.0,
            λ e. elim e [
              | inl same ↦
                  without-apart object t.objects apart
                    (subst (λ y. Has y (without object t.objects)) same w.0)
              | inr there ↦ w.1 there
            ],
          );
      distinct = r.distinct;
    }
