-- ===== src/Binalloc/Stack/Chain.antt =====
-- What a chain of nodes stands for: the list of their addresses.
use prototype_bundle.Prelude.{ℕ, zero, suc, ◌+◌, ◌≡◌, ◌≢◌, List, [], ◌∷◌, ◌++◌, All, arith}
use prototype_bundle.Binalloc.Stack.{nullptr, NextFields, write, Stack}

-- `IsChain next head l end`: following `next` from `head` passes the nodes `l` and comes to `end`.
unfoldable pub IsChain : NextFields → ℕ → List ℕ → ℕ → Type 0
IsChain next head [] end = head ≡ end
IsChain next head (a ∷ l) end = (head ≡ a) × (a ≢ nullptr) × IsChain next (next a) l end

-- The stack holds the nodes of the list, the head first.
abbrev pub Holds : Stack → List ℕ → Type 0
Holds s l = IsChain s.next s.head l nullptr

-- The node is none of the list's.
abbrev pub IsFresh : ℕ → List ℕ → Type 0
IsFresh node l = All (λ a. a ≢ node) l

unfoldable pub top : List ℕ → ℕ
top [] = nullptr
top (a ∷ l) = a

unfoldable pub rest : List ℕ → List ℕ
rest [] = []
rest (a ∷ l) = l

unfoldable pub last_or : ℕ → List ℕ → ℕ
last_or tail [] = tail
last_or tail (a ∷ l) = last_or a l

-- `n` addresses from `start` on, each `stride` after the one before
unfoldable pub addresses : ℕ → ℕ → ℕ → List ℕ
addresses start stride zero = []
addresses start stride (suc n) = start ∷ addresses (start + stride) stride n

pub write-same : (next : NextFields) (node value : ℕ) → write next node value node ≡ value
unfolding write
write-same next node value = ground arith

pub write-other :
    (next : NextFields) (node value at : ℕ) → at ≢ node → write next node value at ≡ next at
unfolding write
write-other next node value at other = ground arith

-- A write to a node outside a chain leaves the chain.
pub IsChain-write :
    (next : NextFields) (node value head : ℕ) (l : List ℕ) (end : ℕ)
    → IsFresh node l
    → IsChain next head l end
    → IsChain (write next node value) head l end
unfolding IsChain
IsChain-write next node value head [] end fresh c = c
IsChain-write next node value head (a ∷ l) end fresh c =
    let e = write-other next node value a fresh.0 in
    (c.0, c.1, rw e (IsChain-write next node value (next a) l end fresh.1 c.2))

-- Two chains, the second from where the first ends, make one.
pub IsChain-append :
    (next : NextFields) (head : ℕ) (l : List ℕ) (mid : ℕ) (m : List ℕ) (end : ℕ)
    → IsChain next head l mid
    → IsChain next mid m end
    → IsChain next head (l ++ m) end
unfolding IsChain
IsChain-append next head [] mid m end c d = rw c d
IsChain-append next head (a ∷ l) mid m end c d =
    (c.0, c.1, IsChain-append next (next a) l mid m end c.2 d)
