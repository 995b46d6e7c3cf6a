-- ===== src/Lockfree/Pops.antt =====
-- The steps of a pop keep the list, or take its top node off.
use prototype_bundle.Prelude.Places.{update_at, update_at-all}
use prototype_bundle.Prelude.{
  ℕ, Bool, true, false, ◌==◌, ◌≡◌, ◌≢◌, List, [], ◌∷◌, arith, refl, sym, ◌∙◌, ap, subst, Bool-cases,
  inl, inr, ℕ_discrete,
}
use prototype_bundle.Binalloc.Stack.{nullptr}
use prototype_bundle.Binalloc.Stack.Chain.{IsChain}
use prototype_bundle.Lockfree.{
  took, pop_event, Thread, idle, pushing, loaded, popping, State, pop_load, pop_read, pop_swap,
}
use prototype_bundle.Lockfree.Refine.{
  IsLocal, Represents, ListStep, keeps, takes, Simulates, update_at-apart, AreApart,
}
use prototype_bundle.Lockfree.Pushes.{not_pushing}

head-published :
    (s : State) (l : List ℕ) → Represents s l → s.head ≢ nullptr → s.published s.head ≡ true
unfolding IsChain
head-published s [] r there = absurd (there r.chain)
head-published s (a ∷ l) r there = rw r.chain.0 r.listed.0

-- A change of a thread that does not push, and no other change, keeps the list.
with_thread :
    (s : State) (l : List ℕ) (t : ℕ) (thread : Thread)
    → Represents s l
    → IsLocal s.next s.published thread
    → ((node : ℕ) → thread ≢ pushing node)
    → Represents
        (record {
          next = s.next;
          head = s.head;
          threads = update_at s.threads t thread;
          published = s.published;
        })
        l
unfolding AreApart
with_thread s l t thread r here never = record {
  chain = r.chain;
  listed = r.listed;
  locals =
      update_at-all (λ u. IsLocal s.next s.published) s.threads t thread here
        (λ u other. r.locals u);
  apart = update_at-apart s.threads t thread r.apart (not_pushing thread s.threads never);
}

pub pop_load_lem : (s : State) (l : List ℕ) (t : ℕ) → Represents s l → Represents (pop_load s t) l
unfolding IsLocal
pop_load_lem s l t r = elim (ℕ_discrete s.head nullptr) [
  | yes none_left ↦
      let e : (s.head == nullptr) ≡ true = ground arith in
      rw e (with_thread s l t idle r tt (λ node e. cc))
  | no there ↦
      let e : (s.head == nullptr) ≡ false = ground arith in
      rw e (with_thread s l t (loaded s.head) r (there, head-published s l r there) (λ node e. cc))
]

pub pop_read_lem :
    (s : State) (l : List ℕ) (t old_head : ℕ)
    → Represents s l
    → s.threads t ≡ loaded old_head
    → Represents (pop_read s t old_head) l
unfolding IsLocal
pop_read_lem s l t old_head r at =
    let here = subst (IsLocal s.next s.published) at (r.locals t) in
    with_thread s l t (popping old_head (s.next old_head)) r (here.0, here.1, refl) (λ node e. cc)

taken :
    (s : State) (l : List ℕ) (t old_head after : ℕ)
    → Represents s l
    → s.threads t ≡ popping old_head after
    → s.head ≡ old_head
    → (l' : List ℕ) × Represents
        (record {
          next = s.next;
          head = after;
          threads = update_at s.threads t idle;
          published = s.published;
        })
        l'
      × ListStep l (took old_head) l'
unfolding IsLocal IsChain AreApart
taken s [] t old_head after r at same =
    let here = subst (IsLocal s.next s.published) at (r.locals t) in
    absurd (here.0 (sym same ∙ r.chain))
taken s (a ∷ l) t old_head after r at same =
    let here = subst (IsLocal s.next s.published) at (r.locals t) in
    let to : s.next a ≡ after = ap s.next (sym r.chain.0 ∙ same) ∙ here.2 in
    (
      l,
      record {
        chain = subst (λ h. IsChain s.next h l nullptr) to r.chain.2;
        listed = r.listed.1;
        locals =
            update_at-all (λ u. IsLocal s.next s.published) s.threads t idle tt
              (λ u other. r.locals u);
        apart =
            update_at-apart s.threads t idle r.apart (not_pushing idle s.threads (λ node e. cc));
      },
      takes old_head l (ap (λ h. h ∷ l) (sym r.chain.0 ∙ same)),
    )

pub pop_swap_lem :
    (s : State) (l : List ℕ) (t old_head after : ℕ) (fails : Bool)
    → Represents s l
    → s.threads t ≡ popping old_head after
    → Simulates (pop_swap s t old_head after fails) l (pop_event s old_head fails)
unfolding pop_swap pop_event
pop_swap_lem s l t old_head after true r at = elim (Bool-cases (s.head == old_head)) [
  | inl e ↦ (l, rw e (pop_load_lem s l t r), rw e keeps)
  | inr e ↦ (l, rw e (pop_load_lem s l t r), rw e keeps)
]
pop_swap_lem s l t old_head after false r at = elim (ℕ_discrete s.head old_head) [
  | yes same ↦
      let e : (s.head == old_head) ≡ true = ground arith in
      rw e (taken s l t old_head after r at same)
  | no other ↦
      let e : (s.head == old_head) ≡ false = ground arith in
      (l, rw e (pop_load_lem s l t r), rw e keeps)
]
