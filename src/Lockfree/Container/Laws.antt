-- ===== src/Lockfree/Container/Laws.antt =====
-- The values on the stack, and its size.
use prototype_bundle.Prelude.{
  ℕ, ◌+◌, ◌-◌, ◌%◌, ◌^◌, ◌<◌, ◌≡◌, ◌≢◌, ◌==◌, ◌&&◌, not, Bool, true, false, Option, none, some,
  List, [], ◌∷◌, All, length, arith, refl, sym, ◌∙◌, ap, subst, Bool-cases, inl, inr,
}
use prototype_bundle.Binalloc.Stack.{nullptr, NextFields, write}
use prototype_bundle.Binalloc.Stack.Chain.{write-same, write-other}
use prototype_bundle.Lockfree.Container.{
  Container, with_value, push_value, with_clients, try_collect, unhook, move_out, pop_value,
}

module _ {A : Type 0} where
  -- Following the links from `head`, the nodes and their values
  unfoldable pub IsStored : NextFields → (ℕ → Option A) → ℕ → List (ℕ × A) → Type 0
  IsStored links values head [] = head ≡ nullptr
  IsStored links values head (p ∷ l) =
      (head ≡ p.0) × (p.0 ≢ nullptr) × (values p.0 ≡ some p.1) × IsStored links values (links p.0) l

  abbrev pub IsNew : ℕ → List (ℕ × A) → Type 0
  IsNew node l = All (λ p. p.0 ≢ node) l

  -- The stack has the nodes with their values, the top first, and as many as its size.
  abbrev pub Contains : Container A → List (ℕ × A) → Type 0
  Contains c l = IsStored c.links c.values c.top_node l × (c.stack_size ≡ length l)

  with_value-other :
      (values : ℕ → Option A) (node a : ℕ) (v : Option A)
      → a ≢ node
      → with_value values node v a ≡ values a
  with_value-other values node a v other = let e : (a == node) ≡ false = ground arith in rw e refl

  -- Writes to a node that is not on the stack leave the stack.
  IsStored-write :
      (links : NextFields) (values : ℕ → Option A) (node next : ℕ) (v : Option A) (head : ℕ)
      (l : List (ℕ × A))
      → IsNew node l
      → IsStored links values head l
      → IsStored (write links node next) (with_value values node v) head l
  unfolding IsStored
  IsStored-write links values node next v head [] new h = h
  IsStored-write links values node next v head (p ∷ l) new h =
      let e = write-other links node next p.0 new.0 in
      (
        h.0,
        h.1,
        with_value-other values node p.0 v new.0 ∙ h.2,
        rw e (IsStored-write links values node next v (links p.0) l new.1 h.3),
      )

  -- `push` of a value, in a node that is not null and not on the stack, puts it on top and counts it,
  -- for fewer than 2 ^ 64 - 1 nodes.
  pub push_value_lem :
      (c : Container A) (l : List (ℕ × A)) (new_node : ℕ) (value : A)
      → Contains c l
      → new_node ≢ nullptr
      → IsNew new_node l
      → length l + 1 < 2 ^ 64
      → Contains (push_value c new_node value) ((new_node, value) ∷ l)
  unfolding IsStored
  push_value_lem c l new_node value has there new room =
      let same : (new_node == new_node) ≡ true = ground arith in
      let e = write-same c.links new_node c.top_node in
      (
        (
          refl,
          there,
          rw same refl,
          rw e (
              IsStored-write c.links c.values new_node c.top_node (some value) c.top_node l new
                has.0),
        ),
        omega (arith, has.1),
      )

  -- What `try_collect` and the end of the guard leave of the stack
  pub collected-Contains :
      (fails : Bool) (fuel clients : ℕ) (c : Container A) (l : List (ℕ × A))
      → Contains c l
      → Contains (with_clients (try_collect fails fuel c) clients) l
  unfolding try_collect
  collected-Contains fails fuel clients c l has =
      elim (Bool-cases ((c.critical_clients == 1) && not fails)) [
        | inl e ↦ rw e has
        | inr e ↦ rw e has
      ]

  pub unhooked-Contains :
      (c : Container A) (node : ℕ) (value : A) (l : List (ℕ × A))
      → Contains c ((node, value) ∷ l)
      → IsNew node l
      → length l + 1 < 2 ^ 64
      → let unhooked = unhook (with_clients c (c.critical_clients + 1)) in
        ((move_out unhooked.0 unhooked.1).0 ≡ some value)
        × Contains (move_out unhooked.0 unhooked.1).1 l
  unfolding unhook IsStored
  unhooked-Contains c node value l has new room =
      let t : (c.top_node == nullptr) ≡ false = ground (arith, has.0.0, has.0.1) in
      let less : (c.stack_size + 2 ^ 64 - 1) % 2 ^ 64 ≡ length l = omega (arith, has.1) in
      let below = subst (λ a. IsStored c.links c.values (c.links a) l) (sym has.0.0) has.0.3 in
      let apart = subst (λ a. IsNew a l) (sym has.0.0) new in
      rw t (
        ap c.values has.0.0 ∙ has.0.2,
        (
          IsStored-write c.links c.values c.top_node c.collection_head none (c.links c.top_node) l
              apart below,
          less,
        ),
      )

  -- `pop` of an empty stack returns nothing and leaves the size at 2 ^ 64 - 1.
  pub pop_value_underflows :
      (fails : Bool) (fuel : ℕ) (c : Container A)
      → Contains c []
      → ((pop_value fails fuel c).0 ≡ none)
        × ((pop_value fails fuel c).1.top_node ≡ nullptr)
        × ((pop_value fails fuel c).1.stack_size ≡ 2 ^ 64 - 1)
  unfolding pop_value unhook IsStored try_collect
  pop_value_underflows fails fuel c has =
      let t : (c.top_node == nullptr) ≡ true = ground (arith, has.0) in
      let none_left : (c.stack_size + 2 ^ 64 - 1) % 2 ^ 64 ≡ 2 ^ 64 - 1 = omega (arith, has.1) in
      elim (Bool-cases ((c.critical_clients + 1 == 1) && not fails)) [
        | inl e ↦ rw (t, e) (refl, refl, none_left)
        | inr e ↦ rw (t, e) (refl, refl, none_left)
      ]
