-- ===== src/Lockfree/Pushes.antt =====
-- The steps of a push keep the list, or put their node on top of it.
use prototype_bundle.Prelude.Places.{update_at-all}
use prototype_bundle.Prelude.{
  ℕ, Bool, true, false, ◌==◌, ◌≡◌, ◌≢◌, if◌then◌else◌, List, [], ◌∷◌, All, arith, refl, sym, ◌∙◌,
  subst, Bool-cases, inl, inr, ℕ_discrete,
}
use prototype_bundle.Binalloc.Stack.{nullptr, write}
use prototype_bundle.Binalloc.Stack.Chain.{IsChain, IsChain-write}
use prototype_bundle.Lockfree.{push_event, Thread, idle, pushing, State, push_load, push_swap}
use prototype_bundle.Lockfree.Refine.{
  IsLocal, Represents, keeps, puts, Simulates, unlisted, update_at-apart, AreApart, IsLocal-write,
  IsLocal-publish,
}

pub not_pushing :
    (thread : Thread) (u : ℕ → Thread)
    → ((node : ℕ) → thread ≢ pushing node)
    → (t node : ℕ) → thread ≡ pushing node
    → u t ≢ pushing node
not_pushing thread u never t node e = absurd (never node e)

pub push_load_lem :
    (s : State) (l : List ℕ) (t node_ptr : ℕ)
    → Represents s l
    → node_ptr ≢ nullptr
    → s.published node_ptr ≡ false
    → ((u : ℕ) → s.threads u ≢ pushing node_ptr)
    → Represents (push_load s t node_ptr) l
unfolding IsLocal AreApart
push_load_lem s l t node_ptr r there new free = record {
  chain =
      IsChain-write s.next node_ptr s.head s.head l nullptr
        (unlisted s.published node_ptr l new r.listed) r.chain;
  listed = r.listed;
  locals =
      update_at-all (λ u. IsLocal (write s.next node_ptr s.head) s.published) s.threads t
        (pushing node_ptr) (there, new)
        (λ u other.
          IsLocal-write s.next s.published node_ptr s.head (s.threads u) new (r.locals u));
  apart =
      update_at-apart s.threads t (pushing node_ptr) r.apart
        (λ u node (e : pushing node_ptr ≡ pushing node) (f : s.threads u ≡ pushing node).
          free u (f ∙ sym e));
}

push_swap-done :
    (s : State) (l : List ℕ) (t node_ptr : ℕ)
    → Represents s l
    → s.threads t ≡ pushing node_ptr
    → s.head ≡ s.next node_ptr
    → Represents (push_swap s t node_ptr false) (node_ptr ∷ l)
unfolding push_swap IsLocal AreApart IsChain
push_swap-done s l t node_ptr r at same =
    let here = subst (IsLocal s.next s.published) at (r.locals t) in
    let e : (s.head == s.next node_ptr) ≡ true = ground arith in
    let top : (node_ptr == node_ptr) ≡ true = ground arith in
    rw e (record {
      chain = (refl, here.0, subst (λ h. IsChain s.next h l nullptr) same r.chain);
      listed = (rw top refl, listed l r.listed);
      locals =
          update_at-all (λ u. IsLocal s.next (λ a. if a == node_ptr then true else s.published a))
            s.threads t idle tt
            (λ u other.
              IsLocal-publish s.next s.published node_ptr (s.threads u)
                (r.apart t u node_ptr (λ back. other (sym back)) at) (r.locals u));
      apart = update_at-apart s.threads t idle r.apart (not_pushing idle s.threads (λ node e. cc));
    })
  where
    listed :
        (l : List ℕ)
        → All (λ a. s.published a ≡ true) l
        → All (λ a. (if a == node_ptr then true else s.published a) ≡ true) l
    listed [] h = tt
    listed (a ∷ l) h = (ground (arith, h.0), listed l h.1)

retried :
    (s : State) (l : List ℕ) (t node_ptr : ℕ)
    → Represents s l
    → s.threads t ≡ pushing node_ptr
    → Represents
        (record {
          next = write s.next node_ptr s.head;
          head = s.head;
          threads = s.threads;
          published = s.published;
        })
        l
unfolding IsLocal
retried s l t node_ptr r at =
    let here = subst (IsLocal s.next s.published) at (r.locals t) in
    record {
      chain =
          IsChain-write s.next node_ptr s.head s.head l nullptr
            (unlisted s.published node_ptr l here.1 r.listed) r.chain;
      listed = r.listed;
      locals =
          λ u. IsLocal-write s.next s.published node_ptr s.head (s.threads u) here.1 (r.locals u);
      apart = r.apart;
    }

pub push_swap_lem :
    (s : State) (l : List ℕ) (t node_ptr : ℕ) (fails : Bool)
    → Represents s l
    → s.threads t ≡ pushing node_ptr
    → Simulates (push_swap s t node_ptr fails) l (push_event s node_ptr fails)
unfolding push_swap push_event
push_swap_lem s l t node_ptr true r at = elim (Bool-cases (s.head == s.next node_ptr)) [
  | inl e ↦ (l, rw e (retried s l t node_ptr r at), rw e keeps)
  | inr e ↦ (l, rw e (retried s l t node_ptr r at), rw e keeps)
]
push_swap_lem s l t node_ptr false r at = elim (ℕ_discrete s.head (s.next node_ptr)) [
  | yes same ↦
      let e : (s.head == s.next node_ptr) ≡ true = ground arith in
      (node_ptr ∷ l, push_swap-done s l t node_ptr r at same, rw e (puts node_ptr))
  | no other ↦
      let e : (s.head == s.next node_ptr) ≡ false = ground arith in
      (l, rw e (retried s l t node_ptr r at), rw e keeps)
]
