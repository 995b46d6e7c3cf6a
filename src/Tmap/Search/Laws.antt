-- ===== src/Tmap/Search/Laws.antt =====
-- What the search finds, how many nodes it visits, and what it misses.
use mathlib.Core.WellFounded.{Acc}
use native.Mathlib.Nat.{pow-suc}
use prototype_bundle.Prelude.{
  ℕ, zero, suc, ◌+◌, ◌^◌, ◌≤◌, ◌<◌, ◌≡◌, subst, Ordering, Bool, false, none, some, List, [], ◌∷◌,
  ◌++◌, arith, ltb, if◌then◌else◌, length, All, All-imp, IsSorted, IsSorted-unique, count,
  count-nil, count-cons, count-append, count-zero_of_below, compare, Shorter, Shorter-wf,
}
use prototype_bundle.Tmap.{seq_pop_rest, seq_split_right, split_first, split_second, sort}
use prototype_bundle.Tmap.Split.{
  Shorter-first, Shorter-rest, split-append, length-split_first, length-split_second,
  length-split_rest,
}
use prototype_bundle.Tmap.Sort.{sort_lem, length-sort, All-of_SameItems}
use prototype_bundle.Tmap.Search.{compare_key, Outcome, at_node, search_acc, search_node, search}

at_node-visited :
    (key k : ℕ) (second : List ℕ) (left right : Outcome)
    → length left.visited ≤ k
    → length right.visited ≤ k
    → length (at_node key second left right).visited ≤ suc k
at_node-visited key k [] left right p q = omega arith
at_node-visited key k (id ∷ rest) left right p q = ground arith

search_acc-visited :
    (key k : ℕ) (items : List ℕ) (w : Acc Shorter items)
    → length items < 2 ^ k
    → length (search_acc key items w).visited ≤ k
unfolding search_acc
search_acc-visited key k [] w h = omega arith
search_acc-visited key zero (id ∷ items) w h = absurd (omega arith)
search_acc-visited key (suc k) (id ∷ []) w h = ground arith
search_acc-visited key (suc k) (x ∷ y ∷ zs) (Acc.intro _ below) h =
    at_node-visited key k (split_second (x ∷ y ∷ zs)) _ _
      (search_acc-visited key k (split_first (x ∷ y ∷ zs)) (below _ (Shorter-first x y zs))
        (grind (arith, length-split_first x y zs, pow-suc 2 k)))
      (search_acc-visited key k (seq_pop_rest (split_second (x ∷ y ∷ zs)))
        (below _ (Shorter-rest x y zs)) (grind (arith, length-split_rest x y zs, pow-suc 2 k)))

-- The key and the id are so near that their difference keeps its sign in 32 bits.
abbrev pub IsNear : ℕ → ℕ → Type 0
IsNear key id = (id < 2 ^ 32) × (key < id + 2 ^ 31) × (id < key + 2 ^ 31)

compare_key-near : (id key : ℕ) → key < 2 ^ 32 → IsNear key id → compare_key id key ≡ compare key id
unfolding compare_key
compare_key-near id key word near = ground arith

abbrev has : ℕ → List ℕ → Bool
has key items = ltb 0 (count key items)

-- The outcome of a search for `key` among `items`.
abbrev IsRight : ℕ → List ℕ → Outcome → Type 0
IsRight key items o =
    (o.result ≡ has key items) × (o.called ≡ (if has key items then some key else none))

-- What a sorted list says of the parts around one of its ids.
record Around (first : List ℕ) (m : ℕ) (rest : List ℕ) : Type 0 where
  sorted_first : IsSorted first
  sorted_rest : IsSorted rest
  below : All (λ x. x ≤ m) first
  above : All (λ x. m ≤ x) rest

All-right : (P : ℕ → Type 0) (xs ys : List ℕ) → All P (xs ++ ys) → All P xs × All P ys
All-right P [] ys h = (tt, h)
All-right P (x ∷ xs) ys h = let (l, r) = All-right P xs ys h.1 in ((h.0, l), r)

around :
    (first : List ℕ) (m : ℕ) (rest : List ℕ) → IsSorted (first ++ m ∷ rest) → Around first m rest
around [] m rest s = record { sorted_first = tt; sorted_rest = s.1; below = tt; above = s.0 }
around (x ∷ first) m rest s =
    let a = around first m rest s.1 in
    let (l, r) = All-right (λ y. x ≤ y) first (m ∷ rest) s.0 in
    record {
      sorted_first = (l, a.sorted_first);
      sorted_rest = a.sorted_rest;
      below = (r.0, a.below);
      above = a.above;
    }

count-zero_of_above : (v : ℕ) (xs : List ℕ) → All (λ y. y < v) xs → count v xs ≡ 0
count-zero_of_above v [] h = count-nil v
count-zero_of_above v (x ∷ xs) h = ground (arith, count-cons v x xs, count-zero_of_above v xs h.1)

at_node-IsRight :
    (key : ℕ) (first second : List ℕ) (left right : Outcome)
    → 0 < length second
    → key < 2 ^ 32
    → All (IsNear key) (first ++ second)
    → IsSorted (first ++ second)
    → IsRight key first left
    → IsRight key (seq_pop_rest second) right
    → IsRight key (first ++ second) (at_node key second left right)
at_node-IsRight key first [] left right some_id word near s l r = absurd (omega arith)
at_node-IsRight key first (m ∷ rest) left right some_id word near s l r = ground (
  arith,
  compare_key-near m key word (All-right _ first (m ∷ rest) near).1.0,
  count-append key first (m ∷ rest),
  count-cons key m rest,
  below_first,
  below_rest,
)
  where
    a : Around first m rest
    a = around first m rest s

    below_first : m < key → count key first ≡ 0
    below_first lt =
        count-zero_of_above key first (All-imp (λ x (h : x ≤ m). omega arith) first a.below)

    below_rest : key < m → count key rest ≡ 0
    below_rest lt =
        count-zero_of_below key rest (All-imp (λ x (h : m ≤ x). omega arith) rest a.above)

IsSorted-left : (xs ys : List ℕ) → IsSorted (xs ++ ys) → IsSorted xs
IsSorted-left [] ys s = tt
IsSorted-left (x ∷ xs) ys s = ((All-right _ xs ys s.0).0, IsSorted-left xs ys s.1)

IsSorted-right : (xs ys : List ℕ) → IsSorted (xs ++ ys) → IsSorted ys
IsSorted-right [] ys s = s
IsSorted-right (x ∷ xs) ys s = IsSorted-right xs ys s.1

IsSorted-rest : (ys : List ℕ) → IsSorted ys → IsSorted (seq_pop_rest ys)
IsSorted-rest [] s = tt
IsSorted-rest (y ∷ ys) s = s.1

All-rest : (P : ℕ → Type 0) (ys : List ℕ) → All P ys → All P (seq_pop_rest ys)
All-rest P [] h = tt
All-rest P (y ∷ ys) h = h.1

search_acc-IsRight :
    (key : ℕ) (items : List ℕ) (w : Acc Shorter items)
    → key < 2 ^ 32
    → All (IsNear key) items
    → IsSorted items
    → IsRight key items (search_acc key items w)
unfolding search_acc
search_acc-IsRight key [] w word near s = ground (arith, count-nil key)
search_acc-IsRight key (id ∷ []) w word near s =
    ground (arith, compare_key-near id key word near.0, count-cons key id [], count-nil key)
search_acc-IsRight key (x ∷ y ∷ zs) (Acc.intro _ below) word near s =
    subst (λ t. IsRight key t (at_node key second left right)) whole
      (at_node-IsRight key first second left right some_id word near' s'
        (search_acc-IsRight key first (below _ (Shorter-first x y zs)) word
          (All-right _ first second near').0 (IsSorted-left first second s'))
        (search_acc-IsRight key (seq_pop_rest second) (below _ (Shorter-rest x y zs)) word
          (All-rest _ second (All-right _ first second near').1)
          (IsSorted-rest second (IsSorted-right first second s'))))
  where
    first : List ℕ
    first = split_first (x ∷ y ∷ zs)

    second : List ℕ
    second = split_second (x ∷ y ∷ zs)

    left : Outcome
    left = search_acc key first (below _ (Shorter-first x y zs))

    right : Outcome
    right = search_acc key (seq_pop_rest second) (below _ (Shorter-rest x y zs))

    whole : first ++ second ≡ x ∷ y ∷ zs
    whole = split-append x y zs

    some_id : 0 < length second
    some_id = omega (arith, length-split_second x y zs)

    near' : All (IsNear key) (first ++ second)
    near' = rw whole near

    s' : IsSorted (first ++ second)
    s' = rw whole s

-- A search for a 32-bit key, whose difference to each id of the sequence fits 32 signed bits, is
-- true exactly when the key is one of the ids; the callback is called, with the key, exactly then.
pub search_lem :
    (key : ℕ) (seq : List ℕ)
    → key < 2 ^ 32
    → All (IsNear key) seq
    → ((search key seq).result ≡ ltb 0 (count key seq))
      × ((search key seq).called ≡ (if ltb 0 (count key seq) then some key else none))
unfolding search search_node
search_lem key seq word near =
    let (sorted, same) = sort_lem seq in
    let near_sorted = All-of_SameItems (IsNear key) (sort ltb seq) seq same near in
    let right =
      search_acc-IsRight key (sort ltb seq) (Shorter-wf.apply (sort ltb seq)) word near_sorted
        sorted in
    rw (same key) at right

-- A search in a sequence of fewer than 2 ^ k ids visits at most `k` nodes, whatever the key.
pub search-visited :
    (key k : ℕ) (seq : List ℕ) → length seq < 2 ^ k → length (search key seq).visited ≤ k
unfolding search search_node
search-visited key k seq h =
    search_acc-visited key k (sort ltb seq) (Shorter-wf.apply (sort ltb seq))
      (omega (arith, length-sort seq))

compare_key-far : (a b : ℕ) → b < 2 ^ 32 → a + 2 ^ 31 < b → compare_key b a ≡ Ordering.gt
unfolding compare_key
compare_key-far a b word far = ground arith

sort_two : (a b : ℕ) → a < b → sort ltb (a ∷ b ∷ []) ≡ a ∷ b ∷ []
sort_two a b h =
    let (sorted, same) = sort_lem (a ∷ b ∷ []) in
    IsSorted-unique (sort ltb (a ∷ b ∷ [])) (a ∷ b ∷ []) sorted ((omega arith, tt), (tt, tt)) same

search_acc_two :
    (key a b : ℕ) (w : Acc Shorter (a ∷ b ∷ []))
    → compare_key b key ≡ Ordering.gt
    → (search_acc key (a ∷ b ∷ []) w).result ≡ false
unfolding search_acc split_second seq_split_right
search_acc_two key a b (Acc.intro _ below) e = rw e

-- Of two ids more than 2 ^ 31 apart the search misses the smaller one, though it is in the sequence:
-- the difference of the two has lost its sign.
pub search_far : (a b : ℕ) → b < 2 ^ 32 → a + 2 ^ 31 < b → (search a (a ∷ b ∷ [])).result ≡ false
unfolding search search_node
search_far a b word far =
    rw (sort_two a b (omega arith))
      (search_acc_two a a b (Shorter-wf.apply (a ∷ b ∷ [])) (compare_key-far a b word far))
