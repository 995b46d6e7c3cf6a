-- ===== src/Radix/Evaluate.antt =====
-- `evaluate`, the check that the benchmark makes of a result.
use prototype_bundle.Prelude.{
  ℕ, ◌%◌, ◌^◌, ◌≤◌, ◌<◌, ◌≡◌, refl, true, false, List, [], ◌∷◌, arith, ltb, ◌↔◌, All, All-imp,
  IsSorted, Bool-cases, inl, inr,
}
use prototype_bundle.Radix.{evaluate_from, evaluate}

evaluate_from_sorted :
    (v : ℕ) (items : List ℕ)
    → All (λ x. v ≤ x) items
    → IsSorted items
    → evaluate_from v items ≡ true
unfolding evaluate_from
evaluate_from_sorted v [] above s = refl
evaluate_from_sorted v (x ∷ items) above s = ground (
  arith,
  evaluate_from_sorted (x % 2 ^ 32) items (All-imp (λ y (h : x ≤ y). omega arith) items s.0) s.1,
  above.0,
)

evaluate_from_ascending :
    (v : ℕ) (items : List ℕ)
    → All (λ x. x < 2 ^ 32) items
    → evaluate_from v items ≡ true
    → All (λ x. v ≤ x) items × IsSorted items
unfolding evaluate_from
evaluate_from_ascending v [] small h = (tt, tt)
evaluate_from_ascending v (x ∷ items) small h = elim (Bool-cases (ltb x v)) [
  | inl less ↦ absurd (clash less)
  | inr not_less ↦
      let whole : x % 2 ^ 32 ≡ x = omega (arith, small.0) in
      let (above, s) = evaluate_from_ascending x items small.1 (rest not_less whole) in
      let here : v ≤ x = ground arith in
      ((here, All-imp (λ y (p : x ≤ y). omega arith) items above), (above, s))
]
  where
    clash : ltb x v ≡ true → ⊥
    clash less = ground arith

    rest : ltb x v ≡ false → x % 2 ^ 32 ≡ x → evaluate_from x items ≡ true
    rest p q = ground arith

-- `evaluate` accepts a vector of items below 2 ^ 32 exactly when it ascends.
pub evaluate_iff :
    (items : List ℕ) → All (λ x. x < 2 ^ 32) items → (evaluate items ≡ true) ↔ IsSorted items
unfolding evaluate
evaluate_iff items small = (
  λ h. (evaluate_from_ascending 0 items small h).1,
  λ s. evaluate_from_sorted 0 items (all_zero items) s,
)
  where
    all_zero : (xs : List ℕ) → All (λ x. 0 ≤ x) xs
    all_zero [] = tt
    all_zero (x ∷ xs) = (omega arith, all_zero xs)
