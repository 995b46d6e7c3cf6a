-- ===== src/Prelude/Places.antt =====
-- Maps from numbers that are changed at one, such as the places of threads, and membership in lists.
use prototype_bundle.Prelude.{
  ℕ, ◌==◌, ◌≡◌, ◌≢◌, if◌then◌else◌, List, [], ◌∷◌, true, false, arith, ℕ_discrete, ◌⊎◌, inl, inr,
  length, ◌-◌, ◌<◌, refl, sym, ◌∙◌, subst,
}

module _ {T : Type 0} where
  -- The map `f` with `x` at `t`
  abbrev pub update_at : (ℕ → T) → ℕ → T → ℕ → T
  update_at f t x u = if u == t then x else f u

  pub update_at-same : (f : ℕ → T) (t : ℕ) (x : T) → update_at f t x t ≡ x
  update_at-same f t x = let e : (t == t) ≡ true = ground arith in rw e refl

  pub update_at-other : (f : ℕ → T) (t u : ℕ) (x : T) → u ≢ t → update_at f t x u ≡ f u
  update_at-other f t u x other = let e : (u == t) ≡ false = ground arith in rw e refl

  -- What holds of the new value and of the others holds of all.
  pub update_at-all :
      (Q : ℕ → T → Type 0) (f : ℕ → T) (t : ℕ) (x : T)
      → Q t x
      → ((u : ℕ) → u ≢ t → Q u (f u))
      → (u : ℕ) → Q u (update_at f t x u)
  update_at-all Q f t x here others u = elim (ℕ_discrete u t) [
    | yes same ↦ let e : (u == t) ≡ true = ground arith in rw e (subst (λ v. Q v x) (sym same) here)
    | no other ↦ let e : (u == t) ≡ false = ground arith in rw e (others u other)
  ]

-- Whether a number is one of a list, and the list without it
unfoldable pub Has : ℕ → List ℕ → Type 0
Has a [] = ⊥
Has a (b ∷ l) = (a ≡ b) ⊎ Has a l

unfoldable pub without : ℕ → List ℕ → List ℕ
without a [] = []
without a (b ∷ l) = let rest = without a l in if a == b then l else b ∷ rest

pub Has-here : (a : ℕ) (l : List ℕ) → Has a (a ∷ l)
unfolding Has
Has-here a l = inl refl

pub Has-there : (a b : ℕ) (l : List ℕ) → Has a l → Has a (b ∷ l)
unfolding Has
Has-there a b l h = inr h

pub Has-one : (a b : ℕ) → Has a (b ∷ []) → a ≡ b
unfolding Has
Has-one a b (inl e) = e
Has-one a b (inr h) = absurd h

pub Has-without : (a b : ℕ) (l : List ℕ) → a ≢ b → Has a l → Has a (without b l)
unfolding Has without
Has-without a b [] other h = h
Has-without a b (x ∷ l) other (inl e) = elim (ℕ_discrete b x) [
  | yes same ↦ absurd (other (e ∙ sym same))
  | no apart ↦ let t : (b == x) ≡ false = ground arith in rw t (inl e)
]
Has-without a b (x ∷ l) other (inr h) = elim (ℕ_discrete b x) [
  | yes same ↦ let t : (b == x) ≡ true = ground arith in rw t h
  | no apart ↦ let t : (b == x) ≡ false = ground arith in rw t (inr (Has-without a b l other h))
]

pub length-without : (a : ℕ) (l : List ℕ) → Has a l → length (without a l) ≡ length l - 1
unfolding Has without
length-without a [] h = absurd h
length-without a (x ∷ l) (inl e) = let t : (a == x) ≡ true = ground arith in rw t (omega arith)
length-without a (x ∷ l) (inr h) = elim (ℕ_discrete a x) [
  | yes same ↦ let t : (a == x) ≡ true = ground arith in rw t (omega arith)
  | no apart ↦
      let t : (a == x) ≡ false = ground arith in
      rw t (omega (arith, length-without a l h, length-has l h))
]
  where
    length-has : (l : List ℕ) → Has a l → 0 < length l
    length-has [] h = absurd h
    length-has (y ∷ l) h = omega arith
