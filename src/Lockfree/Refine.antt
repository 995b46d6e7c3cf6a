-- ===== src/Lockfree/Refine.antt =====
-- The list of nodes that a state stands for, and that each step keeps or changes at its top.
use prototype_bundle.Prelude.Places.{update_at, update_at-same, update_at-other}
use prototype_bundle.Prelude.{
  ℕ, Bool, true, false, ◌==◌, ◌≡◌, ◌≢◌, if◌then◌else◌, List, [], ◌∷◌, All, arith, sym, ◌∙◌, ap,
  ℕ_discrete,
}
use prototype_bundle.Binalloc.Stack.{nullptr, NextFields, write}
use prototype_bundle.Binalloc.Stack.Chain.{IsChain, IsFresh, write-other}
use prototype_bundle.Lockfree.{
  Event, quiet, put, took, Thread, idle, pushing, loaded, popping, State,
}

-- What holds of a thread: a node being pushed has never been on the list, a node being popped has,
-- and then its link does not change.
unfoldable pub IsLocal : NextFields → (ℕ → Bool) → Thread → Type 0
IsLocal next published idle = Unit {0}
IsLocal next published (pushing node) = (node ≢ nullptr) × (published node ≡ false)
IsLocal next published (loaded old) = (old ≢ nullptr) × (published old ≡ true)
IsLocal next published (popping old after) =
    (old ≢ nullptr) × (published old ≡ true) × (next old ≡ after)

-- The state stands for the list of nodes `l`, the head first.
pub record Represents (s : State) (l : List ℕ) : Type 0 where
  pub chain : IsChain s.next s.head l nullptr
  pub listed : All (λ a. s.published a ≡ true) l
  pub locals : (t : ℕ) → IsLocal s.next s.published (s.threads t)
  pub apart : (t u node : ℕ) → t ≢ u → s.threads t ≡ pushing node → s.threads u ≢ pushing node

-- What an event does to the list: `put` puts the node on top, and `took` takes the node, which is
-- the top, off.
pub data ListStep (l : List ℕ) : Event → List ℕ → Type 0 where
  keeps : ListStep l quiet l
  puts : (a : ℕ) → ListStep l (put a) (a ∷ l)
  takes : (a : ℕ) (l' : List ℕ) → l ≡ a ∷ l' → ListStep l (took a) l'

-- The list after an event, which the state stands for
abbrev pub Simulates : State → List ℕ → Event → Type 0
Simulates s l e = (l' : List ℕ) × Represents s l' × ListStep l e l'

pub unlisted :
    (published : ℕ → Bool) (node : ℕ) (l : List ℕ)
    → published node ≡ false
    → All (λ a. published a ≡ true) l
    → IsFresh node l
unlisted published node [] new listed = tt
unlisted published node (a ∷ l) new listed = (
  (λ e. absurd (ground (arith, ap published e, listed.0))),
  unlisted published node l new listed.1,
)

-- No two threads push the same node.
unfoldable pub AreApart : (ℕ → Thread) → Type 0
AreApart threads = (t u node : ℕ) → t ≢ u → threads t ≡ pushing node → threads u ≢ pushing node

pub update_at-apart :
    (threads : ℕ → Thread) (t : ℕ) (thread : Thread)
    → AreApart threads
    → ((u node : ℕ) → thread ≡ pushing node → threads u ≢ pushing node)
    → AreApart (update_at threads t thread)
unfolding AreApart
update_at-apart threads t thread apart new a b node different e f = elim (ℕ_discrete a t) [
  | yes here ↦
      let other : b ≢ t = λ same. different (here ∙ sym same) in
      new b node (sym (ap (update_at threads t thread) here ∙ update_at-same threads t thread) ∙ e)
        (sym (update_at-other threads t b thread other) ∙ f)
  | no away ↦ elim (ℕ_discrete b t) [
    | yes here ↦
        new a node
          (sym (ap (update_at threads t thread) here ∙ update_at-same threads t thread) ∙ f)
          (sym (update_at-other threads t a thread away) ∙ e)
    | no other ↦
        apart a b node different (sym (update_at-other threads t a thread away) ∙ e)
          (sym (update_at-other threads t b thread other) ∙ f)
  ]
]

-- A write to the link of a node that has never been on the list changes nothing a thread relies on.
pub IsLocal-write :
    (next : NextFields) (published : ℕ → Bool) (node value : ℕ) (thread : Thread)
    → published node ≡ false
    → IsLocal next published thread
    → IsLocal (write next node value) published thread
unfolding IsLocal
IsLocal-write next published node value idle new h = tt
IsLocal-write next published node value (pushing a) new h = h
IsLocal-write next published node value (loaded a) new h = h
IsLocal-write next published node value (popping a after) new h = (
  h.0,
  h.1,
  write-other next node value a (λ e. absurd (ground (arith, ap published e, h.1))) ∙ h.2,
)

-- Nor does a node's first coming to the list, to the threads that do not push it.
pub IsLocal-publish :
    (next : NextFields) (published : ℕ → Bool) (node : ℕ) (thread : Thread)
    → thread ≢ pushing node
    → IsLocal next published thread
    → IsLocal next (λ a. if a == node then true else published a) thread
unfolding IsLocal
IsLocal-publish next published node idle other h = tt
IsLocal-publish next published node (pushing a) other h =
    let e : (a == node) ≡ false = no_match a node (λ e. other (ap pushing e)) in (h.0, rw e h.1)
  where
    no_match : (a node : ℕ) → a ≢ node → (a == node) ≡ false
    no_match a node other = ground arith
IsLocal-publish next published node (loaded a) other h = (h.0, still published node a h.1)
  where
    still :
        (published : ℕ → Bool) (node a : ℕ)
        → published a ≡ true
        → (if a == node then true else published a) ≡ true
    still published node a e = ground arith
IsLocal-publish next published node (popping a after) other h =
    (h.0, still published node a h.1, h.2)
  where
    still :
        (published : ℕ → Bool) (node a : ℕ)
        → published a ≡ true
        → (if a == node then true else published a) ≡ true
    still published node a e = ground arith
