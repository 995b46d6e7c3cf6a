-- ===== src/Prelude/Counting.antt =====
-- Sorted lists and lists with the same items, by predicates that compute, for lists of numbers
-- compared by a key.
use Prim.Native.Nat.{ℕ, ◌+◌, ◌≤◌, ◌<◌}
use mathlib.Core.Path.{◌≡◌, refl, ap₂, subst}
use mathlib.Core.Logic.{inl, inr}
use mathlib.Core.List.{List, [], ◌∷◌, ◌++◌}
use native.Mathlib.Omega.{arith}
use prototype_bundle.Prelude.Tests.{ltb, ◌==◌, if◌then◌else◌, Bool-cases}

abbrev pub All {ℓ κ} : {A : Type ℓ} → (A → Type κ) → List A → Type κ
All P [] = Unit
All P (x ∷ xs) = P x × All P xs

module _ {ℓ κ} {A : Type ℓ} (P : A → Type κ) where
  pub All-append : (xs ys : List A) → All P xs → All P ys → All P (xs ++ ys)
  All-append [] ys p q = q
  All-append (x ∷ xs) ys p q = (p.0, All-append xs ys p.1 q)

pub All-imp {ℓ κ μ} :
    {A : Type ℓ} {P : A → Type κ} {Q : A → Type μ}
    → ((x : A) → P x → Q x)
    → (xs : List A) → All P xs
    → All Q xs
All-imp f [] p = tt
All-imp f (x ∷ xs) p = (f x p.0, All-imp f xs p.1)

-- Every earlier item has a key that is at most the key of every later one.
abbrev pub IsSortedBy : (ℕ → ℕ) → List ℕ → Type 0
IsSortedBy key [] = Unit
IsSortedBy key (x ∷ xs) = All (λ y. key x ≤ key y) xs × IsSortedBy key xs

abbrev pub IsSorted : List ℕ → Type 0
IsSorted = IsSortedBy (λ x. x)

-- How often a number stands in a list.
pub count : ℕ → List ℕ → ℕ
count v [] = 0
count v (x ∷ xs) = (if x == v then 1 else 0) + count v xs

-- Two lists hold the same items, each as often.
abbrev pub SameItems : List ℕ → List ℕ → Type 0
SameItems xs ys = (v : ℕ) → count v xs ≡ count v ys

pub count-nil : (v : ℕ) → count v [] ≡ 0
unfolding count
count-nil v = refl

pub count-cons : (v x : ℕ) (xs : List ℕ) → count v (x ∷ xs) ≡ (if x == v then 1 else 0) + count v xs
unfolding count
count-cons v x xs = refl

pub count-append : (v : ℕ) (xs ys : List ℕ) → count v (xs ++ ys) ≡ count v xs + count v ys
unfolding count
count-append v [] ys = omega arith
count-append v (x ∷ xs) ys = omega (arith, count-append v xs ys)

pub IsSortedBy-append :
    (key : ℕ → ℕ) (xs ys : List ℕ)
    → IsSortedBy key xs
    → IsSortedBy key ys
    → All (λ x. All (λ y. key x ≤ key y) ys) xs
    → IsSortedBy key (xs ++ ys)
IsSortedBy-append key [] ys s t cross = t
IsSortedBy-append key (x ∷ xs) ys s t cross =
    (All-append _ xs ys s.0 cross.0, IsSortedBy-append key xs ys s.1 t cross.1)

pub count-zero_of_below : (v : ℕ) (xs : List ℕ) → All (λ y. v < y) xs → count v xs ≡ 0
unfolding count
count-zero_of_below v [] h = refl
count-zero_of_below v (x ∷ xs) h = ground (arith, count-zero_of_below v xs h.1)

head_le_of_count : (v x : ℕ) (xs : List ℕ) → IsSorted (x ∷ xs) → 0 < count v (x ∷ xs) → x ≤ v
unfolding count
head_le_of_count v x xs s h = elim (Bool-cases (ltb v x)) [
  | inl lt ↦
      ground (arith, count-zero_of_below v xs (All-imp (λ y (p : x ≤ y). ground arith) xs s.0))
  | inr ge ↦ ground arith
]

-- A list has one sorted rearrangement.
pub IsSorted-unique : (xs ys : List ℕ) → IsSorted xs → IsSorted ys → SameItems xs ys → xs ≡ ys
IsSorted-unique [] [] s t same = refl
IsSorted-unique [] (y ∷ ys) s t same =
    absurd (ground (arith, same y, count-nil y, count-cons y y ys))
IsSorted-unique (x ∷ xs) [] s t same =
    absurd (ground (arith, same x, count-nil x, count-cons x x xs))
IsSorted-unique (x ∷ xs) (y ∷ ys) s t same = ap₂ ◌∷◌ heads (IsSorted-unique xs ys s.1 t.1 tails)
  where
    heads : x ≡ y
    heads = ground (
      arith,
      same x,
      same y,
      count-cons x x xs,
      count-cons y y ys,
      head_le_of_count y x xs s,
      head_le_of_count x y ys t,
    )

    tails : SameItems xs ys
    tails v = ground (arith, heads, same v, count-cons v x xs, count-cons v y ys)

pub All-of_count : (xs : List ℕ) (P : ℕ → Type 0) → ((v : ℕ) → 0 < count v xs → P v) → All P xs
All-of_count [] P h = tt
All-of_count (x ∷ xs) P h = (
  h x (ground (arith, count-cons x x xs)),
  All-of_count xs P (λ v p. h v (ground (arith, count-cons v x xs))),
)

pub All-count : (xs : List ℕ) (P : ℕ → Type 0) (v : ℕ) → All P xs → 0 < count v xs → P v
All-count [] P v h p = absurd (omega (arith, count-nil v))
All-count (x ∷ xs) P v h p = elim (Bool-cases (x == v)) [
  | inl e ↦ subst P (ground arith) h.0
  | inr ne ↦ All-count xs P v h.1 (ground (arith, count-cons v x xs))
]
