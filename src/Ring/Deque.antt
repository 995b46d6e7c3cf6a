-- ===== src/Ring/Deque.antt =====
-- The double-ended queue that a buffer of a given capacity stands for: its items, first to last.
use prototype_bundle.Prelude.{List, [], ◌∷◌, ◌++◌, ℕ, ◌==◌, if◌then◌else◌, length}
use prototype_bundle.Ring.{Result, ok, throws, fault, ◌>>=◌, Op, push, drop_front, drop_back}

module _ {ℓ} {A : Type ℓ} where
  abbrev pub drop_last : List A → List A
  drop_last [] = []
  drop_last (x ∷ []) = []
  drop_last (x ∷ y ∷ q) = x ∷ drop_last (y ∷ q)

  unfoldable pub push_back : ℕ → List A → A → Result (List A)
  push_back capacity q x = if length q == capacity then throws else ok (q ++ x ∷ [])

  unfoldable pub pop_front : List A → List A
  pop_front [] = []
  pop_front (x ∷ q) = q

  -- The first and the last item; there are none in an empty queue.
  unfoldable pub front : List A → Result A
  front [] = fault
  front (x ∷ q) = ok x

  unfoldable pub back : List A → Result A
  back [] = fault
  back (x ∷ []) = ok x
  back (x ∷ y ∷ q) = back (y ∷ q)

  abbrev pub step : ℕ → List A → Op A → Result (List A)
  step capacity q (push x) = push_back capacity q x
  step capacity q drop_front = ok (pop_front q)
  step capacity q drop_back = ok (drop_last q)

  unfoldable pub run : ℕ → List A → List (Op A) → Result (List A)
  run capacity q [] = ok q
  run capacity q (op ∷ ops) = step capacity q op >>= λ q'. run capacity q' ops
