-- ===== src/Binalloc/PageList/Detach.antt =====
-- `detach` takes a page out of the middle of its list.
use prototype_bundle.Prelude.{
  ℕ, ◌≡◌, ◌≢◌, ◌==◌, List, [], ◌∷◌, ◌++◌, false, arith, refl, sym, ◌∙◌, subst,
}
use prototype_bundle.Binalloc.Stack.Chain.{IsFresh, last_or}
use prototype_bundle.Binalloc.Memory.{Memory, store, link_next, page_prev}
use prototype_bundle.Binalloc.PageList.{PageCacheBin, detach}
use prototype_bundle.Binalloc.PageList.Laws.{
  HasPages, IsLinked, IsDistinct, store-other, first_or, IsLinked-first, not_sym, unlinked,
  unlinked-rest,
}

IsFresh-last : (x left : ℕ) (l m : List ℕ) → left ≢ x → IsFresh x (l ++ m) → last_or left l ≢ x
unfolding last_or
IsFresh-last x left [] m other fresh = other
IsFresh-last x left (a ∷ l) m other fresh = IsFresh-last x a l m fresh.0 fresh.1

IsFresh-first :
    (x p : ℕ) (l m : List ℕ) (right : ℕ) → right ≢ x → IsFresh x (l ++ p ∷ m) → first_or m right ≢ x
IsFresh-first x p [] [] right other fresh = other
IsFresh-first x p [] (a ∷ m) right other fresh = fresh.1.0
IsFresh-first x p (b ∷ l) m right other fresh = IsFresh-first x p l m right other fresh.1

-- The neighbours of a page of the list
IsLinked-next :
    (m : Memory) (left : ℕ) (l : List ℕ) (p : ℕ) (r : List ℕ) (right : ℕ)
    → IsLinked m left (l ++ p ∷ r) right
    → m link_next p ≡ first_or r right
unfolding IsLinked
IsLinked-next m left [] p r right h = IsLinked-first m p r right h.2
IsLinked-next m left (a ∷ l) p r right h = IsLinked-next m a l p r right h.2

IsLinked-prev :
    (m : Memory) (left : ℕ) (l : List ℕ) (p : ℕ) (r : List ℕ) (right : ℕ)
    → IsLinked m left (l ++ p ∷ r) right
    → m page_prev p ≡ last_or left l
unfolding IsLinked last_or
IsLinked-prev m left [] p r right h = h.1
IsLinked-prev m left (a ∷ l) p r right h = IsLinked-prev m a l p r right h.2

IsLinked-unlinked :
    (m : Memory) (left : ℕ) (l : List ℕ) (p : ℕ) (r : List ℕ) (right : ℕ)
    → IsLinked m left (l ++ p ∷ r) right
    → IsDistinct (l ++ p ∷ r)
    → IsFresh left (l ++ p ∷ r)
    → IsFresh right (l ++ p ∷ r)
    → IsLinked (unlinked m (last_or left l) (first_or r right)) left (l ++ r) right
unfolding IsLinked IsDistinct last_or unlinked
IsLinked-unlinked m left [] p r right h apart lefts rights =
    unlinked-rest m left p r right h.2 apart lefts.1 rights.1
IsLinked-unlinked m left (a ∷ l) p r right h apart lefts rights =
    let x = last_or a l in
    let f = first_or r right in
    let kept = IsFresh-last left a l (p ∷ r) lefts.0 lefts.1 in
    let ahead = IsFresh-first a p l r right (not_sym rights.0) apart.0 in
    (
      store-other m link_next x f left (not_sym kept) ∙ h.0,
      store-other (store m link_next x f) page_prev f x a (not_sym ahead) ∙ h.1,
      IsLinked-unlinked m a l p r right h.2 apart.1 apart.0 rights.1,
    )

IsFresh-middle : (x : ℕ) (l : List ℕ) (p : ℕ) (r : List ℕ) → IsFresh x (l ++ p ∷ r) → p ≢ x
IsFresh-middle x [] p r fresh = fresh.0
IsFresh-middle x (a ∷ l) p r fresh = IsFresh-middle x l p r fresh.1

IsDistinct-last :
    (left : ℕ) (l : List ℕ) (p : ℕ) (r : List ℕ)
    → IsFresh left (l ++ p ∷ r)
    → IsDistinct (l ++ p ∷ r)
    → p ≢ last_or left l
unfolding IsDistinct last_or
IsDistinct-last left [] p r lefts apart = lefts.0
IsDistinct-last left (a ∷ l) p r lefts apart = IsDistinct-last a l p r apart.0 apart.1

detach-writes :
    (m : Memory) (p x f : ℕ)
    → m page_prev p ≡ x
    → m link_next p ≡ f
    → p ≢ x
    → detach m p ≡ unlinked m x f
unfolding detach unlinked
detach-writes m p x f back on other =
    let e : (p == x) ≡ false = ground arith in rw (back, on, e) refl

IsFresh-without :
    (x : ℕ) (l : List ℕ) (p : ℕ) (r : List ℕ) → IsFresh x (l ++ p ∷ r) → IsFresh x (l ++ r)
IsFresh-without x [] p r fresh = fresh.1
IsFresh-without x (a ∷ l) p r fresh = (fresh.0, IsFresh-without x l p r fresh.1)

IsDistinct-without :
    (l : List ℕ) (p : ℕ) (r : List ℕ) → IsDistinct (l ++ p ∷ r) → IsDistinct (l ++ r)
unfolding IsDistinct
IsDistinct-without [] p r apart = apart.1
IsDistinct-without (a ∷ l) p r apart =
    (IsFresh-without a l p r apart.0, IsDistinct-without l p r apart.1)

-- `detach` of a page in the bin takes it out, and leaves those before and after it.
pub detach_lem :
    (bin : PageCacheBin) (m : Memory) (before : List ℕ) (pmeta : ℕ) (after : List ℕ)
    → HasPages bin m (before ++ pmeta ∷ after)
    → HasPages bin (detach m pmeta) (before ++ after)
detach_lem bin m before pmeta after has = (
  subst (λ n. IsLinked n bin.head (before ++ after) bin.tail)
      (sym (
        detach-writes m pmeta (last_or bin.head before) (first_or after bin.tail)
          (IsLinked-prev m bin.head before pmeta after bin.tail has.0)
          (IsLinked-next m bin.head before pmeta after bin.tail has.0)
          (IsDistinct-last bin.head before pmeta after has.2 has.1)))
      (IsLinked-unlinked m bin.head before pmeta after bin.tail has.0 has.1 has.2 has.3),
  IsDistinct-without before pmeta after has.1,
  IsFresh-without bin.head before pmeta after has.2,
  IsFresh-without bin.tail before pmeta after has.3,
)
