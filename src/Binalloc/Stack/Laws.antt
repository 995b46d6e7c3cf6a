-- ===== src/Binalloc/Stack/Laws.antt =====
-- What the operations of the stack do to the list of nodes it holds.
use prototype_bundle.Prelude.{
  ℕ, zero, suc, ◌<◌, ◌≡◌, ◌≢◌, ◌==◌, List, [], ◌∷◌, ◌++◌, length, true, false, arith, refl, sym,
  if◌then◌else◌, ℕ_discrete,
}
use prototype_bundle.Binalloc.Stack.{
  nullptr, NextFields, write, Stack, push, insert_at_head, pop, compare_and_swap_strong,
  atomic_pop_expected, find_tail_loop, find_tail,
}
use prototype_bundle.Binalloc.Stack.Chain.{
  IsChain, Holds, IsFresh, top, rest, last_or, write-same, IsChain-write, IsChain-append,
}

-- `push` of a node that is not null and not in the stack puts it on top of the nodes held.
pub push_lem :
    (s : Stack) (l : List ℕ) (node : ℕ)
    → Holds s l
    → node ≢ nullptr
    → IsFresh node l
    → Holds (push s node) (node ∷ l)
unfolding IsChain
push_lem s l node holds there fresh = (
  refl,
  there,
  rw (write-same s.next node s.head)
      (IsChain-write s.next node s.head s.head l nullptr fresh holds),
)

-- `pop` gives the top node, or null, and leaves the others.
pub pop_lem : (s : Stack) (l : List ℕ) → Holds s l → ((pop s).0 ≡ top l) × Holds (pop s).1 (rest l)
unfolding pop IsChain top rest
pop_lem s [] holds = let e : (s.head == nullptr) ≡ true = ground arith in rw e (holds, holds)
pop_lem s (a ∷ l) holds =
    let e : (s.head == nullptr) ≡ false = ground (arith, holds.0, holds.1) in
    rw e (holds.0, rw holds.0 holds.2)

-- `insert_at_head` of a chain of nodes, none of them in the stack, puts them on top of its nodes.
pub insert_at_head_lem :
    (s : Stack) (l m : List ℕ) (first last : ℕ)
    → Holds s l
    → IsFresh last l
    → IsChain s.next first m last
    → last ≢ nullptr
    → IsFresh last m
    → Holds (insert_at_head s first last) (m ++ last ∷ l)
insert_at_head_lem s l m first last holds apart chain there fresh =
    IsChain-append (write s.next last s.head) first m last (last ∷ l) nullptr
      (IsChain-write s.next last s.head first m last fresh chain)
      (push_lem s l last holds there apart)

-- `atomic_pop_expected` succeeds exactly when the expected node, not null, is the top, and takes that
-- node off then and no node otherwise.
pub atomic_pop_expected_lem :
    (s : Stack) (l : List ℕ) (expected : ℕ)
    → Holds s l
    → expected ≢ nullptr
    → ((atomic_pop_expected s expected).0 ≡ (top l == expected))
      × Holds (atomic_pop_expected s expected).1 (if top l == expected then rest l else l)
unfolding atomic_pop_expected compare_and_swap_strong IsChain top rest
atomic_pop_expected_lem s [] expected holds there =
    let e : (expected == nullptr) ≡ false = ground arith in
    let n : (nullptr == expected) ≡ false = ground arith in rw (e, holds, n) (refl, refl)
atomic_pop_expected_lem s (a ∷ l) expected holds there =
    let e : (expected == nullptr) ≡ false = ground arith in
    elim (ℕ_discrete a expected) [
      | yes same ↦
          let t : (a == expected) ≡ true = ground arith in
          rw (e, holds.0, t) (refl, rw (sym same) holds.2)
      | no other ↦
          let t : (a == expected) ≡ false = ground arith in
          rw (e, holds.0, t) (refl, (refl, holds.1, holds.2))
    ]

find_tail_loop_lem :
    (next : NextFields) (l : List ℕ) (fuel tail head : ℕ)
    → length l < fuel
    → IsChain next head l nullptr
    → find_tail_loop fuel next tail head ≡ last_or tail l
unfolding find_tail_loop IsChain last_or
find_tail_loop_lem next l zero tail head h c = absurd (omega arith)
find_tail_loop_lem next [] (suc fuel) tail head h c =
    let e : (head == nullptr) ≡ true = ground arith in rw e refl
find_tail_loop_lem next (a ∷ l) (suc fuel) tail head h c =
    let e : (head == nullptr) ≡ false = ground (arith, c.0, c.1) in
    rw (e, c.0) (find_tail_loop_lem next l fuel a (next a) (omega (arith, h)) c.2)

-- `find_tail` is the last node of the stack, or null for none, with more rounds than nodes.
pub find_tail_lem :
    (s : Stack) (l : List ℕ) (fuel : ℕ)
    → length l < fuel
    → Holds s l
    → find_tail fuel s.next s.head ≡ last_or nullptr l
find_tail_lem s l fuel enough holds = find_tail_loop_lem s.next l fuel nullptr s.head enough holds
