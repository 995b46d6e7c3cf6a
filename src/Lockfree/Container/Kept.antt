-- ===== src/Lockfree/Container/Kept.antt =====
-- The collector of `lf::stack` beside the stack: which nodes wait in it, and which it deletes.
use prototype_bundle.Prelude.{
  ℕ, zero, suc, ◌+◌, ◌-◌, ◌^◌, ◌<◌, ◌≡◌, ◌≢◌, ◌==◌, ◌&&◌, not, Bool, true, false, if◌then◌else◌,
  some, List, [], ◌∷◌, ◌++◌, append-nil, All, All-append, length, arith, refl, sym, ◌∙◌, ap, subst,
  Bool-cases, inl, inr,
}
use prototype_bundle.Binalloc.Stack.{nullptr, NextFields, write}
use prototype_bundle.Binalloc.Stack.Chain.{IsChain, IsFresh, IsChain-write, write-same}
use prototype_bundle.Lockfree.Container.{
  Container, delete_nodes, with_clients, try_collect, unhook, move_out, pop_value,
}
use prototype_bundle.Lockfree.Container.Laws.{IsStored, IsNew, Contains, unhooked-Contains}

-- With more rounds than nodes, the loop of `try_collect` deletes every node of the chain.
delete_nodes-all :
    (fuel : ℕ) (links : NextFields) (head : ℕ) (l : List ℕ)
    → IsChain links head l nullptr
    → length l < fuel
    → delete_nodes fuel links head ≡ l
unfolding IsChain delete_nodes
delete_nodes-all zero links head l chain enough = absurd (omega arith)
delete_nodes-all (suc fuel) links head [] chain enough =
    let e : (head == nullptr) ≡ true = ground (arith, chain) in rw e refl
delete_nodes-all (suc fuel) links head (a ∷ l) chain enough =
    let e : (head == nullptr) ≡ false = ground (arith, chain.0, chain.1) in
    let rest = delete_nodes-all fuel links (links a) l chain.2 (omega arith) in
    rw e (
      ap (λ n. n ∷ delete_nodes fuel links (links head)) chain.0
      ∙ ap (λ n. a ∷ delete_nodes fuel links (links n)) chain.0
      ∙ ap (λ r. a ∷ r) rest)

IsChain-step :
    (next : NextFields) (head : ℕ) (l : List ℕ)
    → head ≢ nullptr
    → IsChain next (next head) l nullptr
    → IsChain next head (head ∷ l) nullptr
unfolding IsChain
IsChain-step next head l there chain = (refl, there, chain)

module _ {A : Type 0} where
  -- No node of the stack is among the nodes.
  abbrev pub AreFresh : List ℕ → List (ℕ × A) → Type 0
  AreFresh nodes l = All (λ p. IsFresh p.0 nodes) l

  -- The stack has the nodes and values of the list, and the collector the nodes that have been popped
  -- and wait; no node of the stack waits or has been deleted.
  pub record IsKept (c : Container A) (l : List (ℕ × A)) (collection : List ℕ) : Type 0 where
    pub stored : Contains c l
    pub waiting : IsChain c.links c.collection_head collection nullptr
    pub not_waiting : AreFresh collection l
    pub not_deleted : AreFresh c.deleted l

  AreFresh-append :
      (xs ys : List ℕ) (l : List (ℕ × A)) → AreFresh xs l → AreFresh ys l → AreFresh (xs ++ ys) l
  AreFresh-append xs ys [] p q = tt
  AreFresh-append xs ys (x ∷ l) p q = (All-append _ xs ys p.0 q.0, AreFresh-append xs ys l p.1 q.1)

  AreFresh-cons :
      (node : ℕ) (xs : List ℕ) (l : List (ℕ × A))
      → IsNew node l
      → AreFresh xs l
      → AreFresh (node ∷ xs) l
  AreFresh-cons node xs [] new p = tt
  AreFresh-cons node xs (x ∷ l) new p =
      ((λ e. new.0 (sym e), p.0), AreFresh-cons node xs l new.1 p.1)

  -- What the collector deletes at the end of a call
  collected-IsKept :
      (fails : Bool) (fuel clients : ℕ) (c : Container A) (l : List (ℕ × A)) (collection : List ℕ)
      → length collection < fuel
      → IsKept c l collection
      → let deletes = (c.critical_clients == 1) && not fails in
        let after = with_clients (try_collect fails fuel c) clients in
        IsKept after l (if deletes then [] else collection)
        × (after.deleted ≡ c.deleted ++ (if deletes then collection else []))
  unfolding try_collect IsChain
  collected-IsKept fails fuel clients c l collection enough kept =
      let all = delete_nodes-all fuel c.links c.collection_head collection kept.waiting enough in
      elim (Bool-cases ((c.critical_clients == 1) && not fails)) [
        | inl e ↦
            rw (e, all)
              (
                record {
                  stored = kept.stored;
                  waiting = refl;
                  not_waiting = none_wait l;
                  not_deleted =
                      AreFresh-append c.deleted collection l kept.not_deleted kept.not_waiting;
                },
                refl,
              )
        | inr e ↦ rw e (
          record {
            stored = kept.stored;
            waiting = kept.waiting;
            not_waiting = kept.not_waiting;
            not_deleted = kept.not_deleted;
          },
          sym (append-nil c.deleted),
        )
      ]
    where
      none_wait : (l : List (ℕ × A)) → AreFresh [] l
      none_wait [] = tt
      none_wait (x ∷ l) = (tt, none_wait l)

  -- The node that `pop` takes off the stack waits in the collector.
  moved-IsKept :
      (c : Container A) (node : ℕ) (value : A) (l : List (ℕ × A)) (collection : List ℕ)
      → IsKept c ((node, value) ∷ l) collection
      → IsNew node l
      → length l + 1 < 2 ^ 64
      → let unhooked = unhook (with_clients c (c.critical_clients + 1)) in
        let rest = (move_out unhooked.0 unhooked.1).1 in
        IsKept rest l (node ∷ collection)
        × (rest.deleted ≡ c.deleted)
        × (rest.critical_clients ≡ c.critical_clients + 1)
  unfolding unhook IsStored
  moved-IsKept c node value l collection kept new room =
      let first : c.top_node ≡ node = kept.stored.0.0 in
      let there : c.top_node ≢ nullptr = λ e. kept.stored.0.1 (sym first ∙ e) in
      let t : (c.top_node == nullptr) ≡ false = ground (arith, there) in
      let moved = (unhooked-Contains c node value l kept.stored new room).1 in
      let fresh : IsFresh c.top_node collection =
        subst (λ a. IsFresh a collection) (sym first) kept.not_waiting.0 in
      let chain = waits c collection there fresh kept.waiting in
      let links = write c.links c.top_node c.collection_head in
      rw t (
        record {
          stored = rw t at moved;
          waiting = subst (λ a. IsChain links c.top_node (a ∷ collection) nullptr) first chain;
          not_waiting = AreFresh-cons node collection l new kept.not_waiting.1;
          not_deleted = kept.not_deleted.1;
        },
        refl,
        refl,
      )
    where
      waits :
          (c : Container A) (collection : List ℕ)
          → c.top_node ≢ nullptr
          → IsFresh c.top_node collection
          → IsChain c.links c.collection_head collection nullptr
          → IsChain
              (write c.links c.top_node c.collection_head)
              c.top_node
              (c.top_node ∷ collection)
              nullptr
      waits c collection there fresh chain =
          let e = write-same c.links c.top_node c.collection_head in
          let kept =
            IsChain-write c.links c.top_node c.collection_head c.collection_head collection nullptr
              fresh chain in
          let links = write c.links c.top_node c.collection_head in
          IsChain-step links c.top_node collection there
            (subst (λ a. IsChain links a collection nullptr) (sym e) kept)

  -- `pop` of a stack with values, of fewer than 2 ^ 64, whose nodes neither wait in the collector nor
  -- have been deleted, and whose top node is none of the others, returns the value on top and leaves
  -- the others, whose nodes neither wait nor have been deleted. What has been deleted then is what had
  -- been before, and, where no other client is inside and the compare and swap does not fail, the node
  -- on top and all nodes that waited; else these wait, the node on top first. The loop that deletes
  -- is given more rounds than there are such nodes.
  pub pop_value_lem :
      (fails : Bool) (fuel : ℕ) (c : Container A) (node : ℕ) (value : A) (l : List (ℕ × A))
      (collection : List ℕ)
      → IsKept c ((node, value) ∷ l) collection
      → IsNew node l
      → length l + 1 < 2 ^ 64
      → length collection + 1 < fuel
      → let after = (pop_value fails fuel c).1 in
        let deletes = (c.critical_clients == 0) && not fails in
        ((pop_value fails fuel c).0 ≡ some value)
        × IsKept after l (if deletes then [] else node ∷ collection)
        × (after.deleted ≡ c.deleted ++ (if deletes then node ∷ collection else []))
  unfolding pop_value
  pop_value_lem fails fuel c node value l collection kept new room enough =
      let unhooked = unhook (with_clients c (c.critical_clients + 1)) in
      let rest = (move_out unhooked.0 unhooked.1).1 in
      let (moved, deleted_before, clients) = moved-IsKept c node value l collection kept new room in
      let (after, deleted_after) =
        collected-IsKept fails fuel ((try_collect fails fuel rest).critical_clients - 1) rest l
          (node ∷ collection) (omega arith) moved in
      let only : (rest.critical_clients == 1) ≡ (c.critical_clients == 0) =
        ap (λ n. n == 1) clients ∙ same_test c.critical_clients in
      (
        (unhooked-Contains c node value l kept.stored new room).0,
        subst
            (λ b.
              IsKept (pop_value fails fuel c).1 l
                (if b && not fails then [] else node ∷ collection))
            only after,
        subst
            (λ b.
              (pop_value fails fuel c).1.deleted
              ≡ c.deleted ++ (if b && not fails then node ∷ collection else []))
            only
            (deleted_after
              ∙ ap
                  (λ d.
                    d
                    ++ (if (rest.critical_clients == 1) && not fails
                        then node ∷ collection
                        else []))
                  deleted_before),
      )
    where
      same_test : (n : ℕ) → (n + 1 == 1) ≡ (n == 0)
      same_test zero = refl
      same_test (suc n) = ground arith
