-- ===== src/Lockfree/Collector/Stages.antt =====
-- The stages of a node in their order, and what a step of one thread leaves to the others.
use prototype_bundle.Prelude.{
  ℕ, ◌≡◌, ◌≢◌, List, [], ◌∷◌, All, ◌⊎◌, inl, inr, sym, ◌∙◌, subst, ℕ_discrete,
}
use prototype_bundle.Binalloc.Stack.{NextFields, write}
use prototype_bundle.Binalloc.Stack.Chain.{IsChain, write-other}
use prototype_bundle.Lockfree.Collector.{
  Stage, fresh, listed, unhooked, collected, condemned, deleted,
}

-- How far a step of thread `t` moves a node
pub data Moves (t : ℕ) (f g : Stage) : Type 0 where
  stays : g ≡ f → Moves t f g
  lists : f ≡ fresh → g ≡ listed → Moves t f g
  unhooks : f ≡ listed → g ≡ unhooked t → Moves t f g
  collects : f ≡ unhooked t → g ≡ collected → Moves t f g
  condemns : f ≡ collected → g ≡ condemned t → Moves t f g
  deletes : f ≡ condemned t → g ≡ deleted → Moves t f g

-- The stages from the collection on
unfoldable pub IsRetired : Stage → Type 0
IsRetired fresh = ⊥
IsRetired listed = ⊥
IsRetired (unhooked t) = ⊥
IsRetired collected = Unit {0}
IsRetired (condemned t) = Unit {0}
IsRetired deleted = Unit {0}

-- The stages in which thread `t` may write the link of a node
pub data IsOwn (t : ℕ) (f : Stage) : Type 0 where
  own_fresh : f ≡ fresh → IsOwn t f
  own_unhooked : f ≡ unhooked t → IsOwn t f

unhooked_inj : {t u : ℕ} → unhooked t ≡ unhooked u → t ≡ u
unhooked_inj e = cc

condemned_inj : {t u : ℕ} → condemned t ≡ condemned u → t ≡ u
condemned_inj e = cc

pub Moves-unhooked : (t u : ℕ) (f g : Stage) → u ≢ t → Moves t f g → f ≡ unhooked u → g ≡ unhooked u
Moves-unhooked t u f g other (stays e) h = e ∙ h
Moves-unhooked t u f g other (lists a b) h = absurd (cc)
Moves-unhooked t u f g other (unhooks a b) h = absurd (cc)
Moves-unhooked t u f g other (collects a b) h = absurd (other (unhooked_inj (sym h ∙ a)))
Moves-unhooked t u f g other (condemns a b) h = absurd (cc)
Moves-unhooked t u f g other (deletes a b) h = absurd (cc)

pub Moves-condemned :
    (t u : ℕ) (f g : Stage) → u ≢ t → Moves t f g → f ≡ condemned u → g ≡ condemned u
Moves-condemned t u f g other (stays e) h = e ∙ h
Moves-condemned t u f g other (lists a b) h = absurd (cc)
Moves-condemned t u f g other (unhooks a b) h = absurd (cc)
Moves-condemned t u f g other (collects a b) h = absurd (cc)
Moves-condemned t u f g other (condemns a b) h = absurd (cc)
Moves-condemned t u f g other (deletes a b) h = absurd (other (condemned_inj (sym h ∙ a)))

pub Moves-IsRetired : (t : ℕ) (f g : Stage) → Moves t f g → IsRetired f → IsRetired g
unfolding IsRetired
Moves-IsRetired t f g (stays e) h = rw e h
Moves-IsRetired t f g (lists a b) h = absurd (subst IsRetired a h)
Moves-IsRetired t f g (unhooks a b) h = absurd (subst IsRetired a h)
Moves-IsRetired t f g (collects a b) h = rw b tt
Moves-IsRetired t f g (condemns a b) h = rw b tt
Moves-IsRetired t f g (deletes a b) h = rw b tt

pub Moves-not_fresh : (t : ℕ) (f g : Stage) → Moves t f g → f ≢ fresh → g ≢ fresh
Moves-not_fresh t f g (stays e) h i = h (sym e ∙ i)
Moves-not_fresh t f g (lists a b) h i = h a
Moves-not_fresh t f g (unhooks a b) h i = absurd (cc)
Moves-not_fresh t f g (collects a b) h i = absurd (cc)
Moves-not_fresh t f g (condemns a b) h i = absurd (cc)
Moves-not_fresh t f g (deletes a b) h i = absurd (cc)

pub Moves-listed : (t : ℕ) (f g : Stage) → Moves t f g → f ≢ fresh → g ≡ listed → f ≡ listed
Moves-listed t f g (stays e) h i = sym e ∙ i
Moves-listed t f g (lists a b) h i = absurd (h a)
Moves-listed t f g (unhooks a b) h i = a
Moves-listed t f g (collects a b) h i = absurd (cc)
Moves-listed t f g (condemns a b) h i = absurd (cc)
Moves-listed t f g (deletes a b) h i = absurd (cc)

-- Stages that no thread but their own writes in
pub not-IsOwn-retired : (t : ℕ) (f : Stage) → IsRetired f → ¬ IsOwn t f
unfolding IsRetired
not-IsOwn-retired t f h (own_fresh e) = subst IsRetired e h
not-IsOwn-retired t f h (own_unhooked e) = subst IsRetired e h

pub not-IsOwn-unhooked : (t u : ℕ) (f : Stage) → u ≢ t → f ≡ unhooked u → ¬ IsOwn t f
not-IsOwn-unhooked t u f other h (own_fresh e) = absurd (cc)
not-IsOwn-unhooked t u f other h (own_unhooked e) = other (unhooked_inj (sym h ∙ e))

pub not-IsOwn-condemned : (t u : ℕ) (f : Stage) → f ≡ condemned u → ¬ IsOwn t f
not-IsOwn-condemned t u f h (own_fresh e) = absurd (cc)
not-IsOwn-condemned t u f h (own_unhooked e) = absurd (cc)

pub not-IsOwn-listed : (t : ℕ) (f : Stage) → f ≡ listed → ¬ IsOwn t f
not-IsOwn-listed t f h (own_fresh e) = absurd (cc)
not-IsOwn-listed t f h (own_unhooked e) = absurd (cc)

pub not-IsOwn-collected : (t : ℕ) (f : Stage) → f ≡ collected → ¬ IsOwn t f
not-IsOwn-collected t f h (own_fresh e) = absurd (cc)
not-IsOwn-collected t f h (own_unhooked e) = absurd (cc)

-- The links that thread `t` writes are those of its own nodes.
abbrev pub WritesOwn : ℕ → (ℕ → Stage) → NextFields → NextFields → Type 0
WritesOwn t stages next next' = (a : ℕ) → (next' a ≡ next a) ⊎ IsOwn t (stages a)

pub IsChain-kept :
    (t : ℕ) (stages : ℕ → Stage) (next next' : NextFields) (head : ℕ) (l : List ℕ) (end : ℕ)
    → WritesOwn t stages next next'
    → All (λ a. ¬ IsOwn t (stages a)) l
    → IsChain next head l end
    → IsChain next' head l end
unfolding IsChain
IsChain-kept t stages next next' head [] end own others h = h
IsChain-kept t stages next next' head (a ∷ l) end own others h =
    let e : next' a ≡ next a = elim (own a) [ inl e ↦ e | inr mine ↦ absurd (others.0 mine) ] in
    (h.0, h.1, rw e (IsChain-kept t stages next next' (next a) l end own others.1 h.2))

pub write-WritesOwn :
    (t : ℕ) (stages : ℕ → Stage) (next : NextFields) (node value : ℕ)
    → IsOwn t (stages node)
    → WritesOwn t stages next (write next node value)
write-WritesOwn t stages next node value own a = elim (ℕ_discrete a node) [
  | yes same ↦ inr (subst (λ b. IsOwn t (stages b)) (sym same) own)
  | no other ↦ inl (write-other next node value a other)
]
