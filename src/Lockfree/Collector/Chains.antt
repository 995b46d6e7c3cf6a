-- ===== src/Lockfree/Collector/Chains.antt =====
-- A chain that comes to null is the only one from its head, and passes no node twice.
use prototype_bundle.Prelude.{
  ℕ, ◌<◌, ◌≡◌, List, [], ◌∷◌, length, refl, sym, ◌∙◌, ap, ap₂, subst, arith,
}
use prototype_bundle.Binalloc.Stack.{nullptr, NextFields}
use prototype_bundle.Binalloc.Stack.Chain.{IsChain, IsFresh}

pub IsChain-unique :
    (next : NextFields) (head : ℕ) (l m : List ℕ)
    → IsChain next head l nullptr
    → IsChain next head m nullptr
    → l ≡ m
unfolding IsChain
IsChain-unique next head [] [] h k = refl
IsChain-unique next head [] (b ∷ m) h k = absurd (k.1 (sym k.0 ∙ h))
IsChain-unique next head (a ∷ l) [] h k = absurd (h.1 (sym h.0 ∙ k))
IsChain-unique next head (a ∷ l) (b ∷ m) h k =
    let same : b ≡ a = sym k.0 ∙ h.0 in
    let rest = subst (λ x. IsChain next (next x) m nullptr) same k.2 in
    ap₂ (λ x y. x ∷ y) (sym same) (IsChain-unique next (next a) l m h.2 rest)

-- The head of a longer chain is not on a shorter one.
apart_from :
    (next : NextFields) (head : ℕ) (whole : List ℕ) (start : ℕ) (l : List ℕ)
    → IsChain next head whole nullptr
    → IsChain next start l nullptr
    → length l < length whole
    → IsFresh head l
unfolding IsChain
apart_from next head whole start [] h k shorter = tt
apart_from next head whole start (b ∷ l) h k shorter = (
  (λ same.
      let again = subst (λ x. IsChain next x (b ∷ l) nullptr) (k.0 ∙ same) k in
      absurd (omega (arith, shorter, ap length (IsChain-unique next head whole (b ∷ l) h again)))),
  apart_from next head whole (next b) l h k.2 (omega (arith, shorter)),
)

pub IsChain-apart :
    (next : NextFields) (a : ℕ) (l : List ℕ) → IsChain next a (a ∷ l) nullptr → IsFresh a l
unfolding IsChain
IsChain-apart next a l h = apart_from next a (a ∷ l) (next a) l h h.2 (omega arith)
