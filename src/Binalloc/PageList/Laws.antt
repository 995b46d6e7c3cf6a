-- ===== src/Binalloc/PageList/Laws.antt =====
-- What the operations of a doubly linked list do to the pages between its sentinels.
use prototype_bundle.Prelude.{
  ℕ, ◌≡◌, ◌≢◌, ◌==◌, List, [], ◌∷◌, true, false, arith, refl, sym, ◌∙◌, ap, subst,
}
use prototype_bundle.Binalloc.Stack.Chain.{IsFresh, top, rest}
use prototype_bundle.Binalloc.Memory.{Memory, store, link_next, page_prev, Field, field_number}
use prototype_bundle.Binalloc.PageList.{PageCacheBin, push_page, pop_page}

-- `IsLinked m left l right`: from `left`, `next` passes the pages `l` and comes to `right`, and `prev`
-- passes them back.
unfoldable pub IsLinked : Memory → ℕ → List ℕ → ℕ → Type 0
IsLinked m left [] right = (m link_next left ≡ right) × (m page_prev right ≡ left)
IsLinked m left (a ∷ l) right =
    (m link_next left ≡ a) × (m page_prev a ≡ left) × IsLinked m a l right

-- No page of the list stands in it twice.
unfoldable pub IsDistinct : List ℕ → Type 0
IsDistinct [] = Unit {0}
IsDistinct (a ∷ l) = IsFresh a l × IsDistinct l

-- The bin has the pages of the list, each once, between its sentinels, which are none of them.
abbrev pub HasPages : PageCacheBin → Memory → List ℕ → Type 0
HasPages bin m l =
    IsLinked m bin.head l bin.tail × IsDistinct l × IsFresh bin.head l × IsFresh bin.tail l

store-same : (m : Memory) (f : Field) (a v : ℕ) → store m f a v f a ≡ v
store-same m f a v =
    let e : (field_number f == field_number f) ≡ true = ground arith in
    let t : (a == a) ≡ true = ground arith in rw (e, t) refl

pub store-other : (m : Memory) (f : Field) (a v b : ℕ) → b ≢ a → store m f a v f b ≡ m f b
store-other m f a v b other =
    let e : (field_number f == field_number f) ≡ true = ground arith in
    let t : (b == a) ≡ false = ground arith in rw (e, t) refl

pub IsLinked-store_next :
    (m : Memory) (x v left : ℕ) (l : List ℕ) (right : ℕ)
    → left ≢ x
    → IsFresh x l
    → IsLinked m left l right
    → IsLinked (store m link_next x v) left l right
unfolding IsLinked
IsLinked-store_next m x v left [] right other fresh h =
    (store-other m link_next x v left other ∙ h.0, h.1)
IsLinked-store_next m x v left (a ∷ l) right other fresh h = (
  store-other m link_next x v left other ∙ h.0,
  h.1,
  IsLinked-store_next m x v a l right fresh.0 fresh.1 h.2,
)

IsLinked-store_prev :
    (m : Memory) (x v left : ℕ) (l : List ℕ) (right : ℕ)
    → right ≢ x
    → IsFresh x l
    → IsLinked m left l right
    → IsLinked (store m page_prev x v) left l right
unfolding IsLinked
IsLinked-store_prev m x v left [] right other fresh h =
    (h.0, store-other m page_prev x v right other ∙ h.1)
IsLinked-store_prev m x v left (a ∷ l) right other fresh h = (
  h.0,
  store-other m page_prev x v a fresh.0 ∙ h.1,
  IsLinked-store_prev m x v a l right other fresh.1 h.2,
)

-- The first page of a list, or its right end
abbrev pub first_or : List ℕ → ℕ → ℕ
first_or [] right = right
first_or (a ∷ l) right = a

pub IsLinked-first :
    (m : Memory) (left : ℕ) (l : List ℕ) (right : ℕ)
    → IsLinked m left l right
    → m link_next left ≡ first_or l right
unfolding IsLinked
IsLinked-first m left [] right h = h.0
IsLinked-first m left (a ∷ l) right h = h.0

-- The pages after the first, `a`, stay linked when the `next` of a page `x` before them and the `prev`
-- of `a` are written.
IsLinked-store_both :
    (m : Memory) (x v a w : ℕ) (l : List ℕ) (right : ℕ)
    → a ≢ x
    → IsFresh x l
    → IsFresh a l
    → right ≢ a
    → IsLinked m a l right
    → IsLinked (store (store m link_next x v) page_prev a w) a l right
IsLinked-store_both m x v a w l right other fresh apart end h =
    IsLinked-store_prev (store m link_next x v) a w a l right end apart
      (IsLinked-store_next m x v a l right other fresh h)

pub not_sym : {a b : ℕ} → a ≢ b → b ≢ a
not_sym other e = other (sym e)

-- The memory that `push` leaves
unfoldable pub pushed : Memory → ℕ → ℕ → ℕ → Memory
pushed m head pmeta first =
    store (store (store (store m link_next pmeta first) page_prev pmeta head) page_prev first pmeta)
      link_next head pmeta

pub push_page-writes :
    (bin : PageCacheBin) (m : Memory) (pmeta first : ℕ)
    → m link_next bin.head ≡ first
    → first ≢ pmeta
    → push_page bin m pmeta ≡ pushed m bin.head pmeta first
unfolding push_page pushed
push_page-writes bin m pmeta first e other =
    let m2 = store (store m link_next pmeta first) page_prev pmeta bin.head in
    let back : store m2 page_prev first pmeta page_prev pmeta ≡ bin.head =
      store-other m2 page_prev first pmeta pmeta (not_sym other)
      ∙ store-same (store m link_next pmeta first) page_prev pmeta bin.head in
    let on = store-same m link_next pmeta first in
    rw e (
      subst
        (λ f.
          store (store m2 page_prev f pmeta) link_next (store m2 page_prev f pmeta page_prev pmeta)
            pmeta
          ≡ pushed m bin.head pmeta first)
        (sym on) (ap (λ b. store (store m2 page_prev first pmeta) link_next b pmeta) back))

pushed-ends :
    (m : Memory) (head pmeta first : ℕ)
    → head ≢ pmeta
    → first ≢ pmeta
    → (pushed m head pmeta first link_next head ≡ pmeta)
      × (pushed m head pmeta first page_prev pmeta ≡ head)
      × (pushed m head pmeta first link_next pmeta ≡ first)
      × (pushed m head pmeta first page_prev first ≡ pmeta)
unfolding pushed
pushed-ends m head pmeta first outside other =
    let m1 = store m link_next pmeta first in
    let m2 = store m1 page_prev pmeta head in
    let m3 = store m2 page_prev first pmeta in
    (
      store-same m3 link_next head pmeta,
      store-other m2 page_prev first pmeta pmeta (not_sym other)
          ∙ store-same m1 page_prev pmeta head,
      store-other m3 link_next head pmeta pmeta (not_sym outside)
          ∙ store-same m link_next pmeta first,
      store-same m2 page_prev first pmeta,
    )

push_page-IsLinked :
    (bin : PageCacheBin) (m : Memory) (l : List ℕ) (pmeta : ℕ)
    → IsLinked m bin.head l bin.tail
    → IsDistinct l
    → IsFresh bin.head l
    → IsFresh bin.tail l
    → IsFresh pmeta (bin.head ∷ bin.tail ∷ l)
    → IsLinked (push_page bin m pmeta) bin.head (pmeta ∷ l) bin.tail
unfolding pushed IsLinked IsDistinct
push_page-IsLinked bin m [] pmeta h apart heads tails fresh =
    subst (λ m. IsLinked m bin.head (pmeta ∷ []) bin.tail)
      (sym (push_page-writes bin m pmeta bin.tail h.0 fresh.1.0))
      (let e = pushed-ends m bin.head pmeta bin.tail fresh.0 fresh.1.0 in (e.0, e.1, (e.2, e.3)))
push_page-IsLinked bin m (a ∷ l) pmeta h apart heads tails fresh =
    subst (λ m. IsLinked m bin.head (pmeta ∷ a ∷ l) bin.tail)
      (sym (push_page-writes bin m pmeta a h.0 fresh.1.1.0))
      (let e = pushed-ends m bin.head pmeta a fresh.0 fresh.1.1.0 in
        let m1 = store m link_next pmeta a in
        let m2 = store m1 page_prev pmeta bin.head in
        let m3 = store m2 page_prev a pmeta in
        let kept = IsLinked-store_next m pmeta a a l bin.tail fresh.1.1.0 fresh.1.1.1 h.2 in
        let kept2 = IsLinked-store_prev m1 pmeta bin.head a l bin.tail fresh.1.0 fresh.1.1.1 kept in
        let kept3 = IsLinked-store_prev m2 a pmeta a l bin.tail (not_sym tails.0) apart.0 kept2 in
        (
          e.0,
          e.1,
          (e.2, e.3, IsLinked-store_next m3 bin.head pmeta a l bin.tail heads.0 heads.1 kept3),
        ))

-- `push` of a page that is no sentinel and not in the bin puts it first.
pub push_page_lem :
    (bin : PageCacheBin) (m : Memory) (l : List ℕ) (pmeta : ℕ)
    → HasPages bin m l
    → IsFresh pmeta (bin.head ∷ bin.tail ∷ l)
    → HasPages bin (push_page bin m pmeta) (pmeta ∷ l)
unfolding IsDistinct
push_page_lem bin m l pmeta has fresh = (
  push_page-IsLinked bin m l pmeta has.0 has.1 has.2 has.3 fresh,
  (fresh.1.1, has.1),
  (not_sym fresh.0, has.2),
  (not_sym fresh.1.0, has.3),
)

-- The memory that taking out `a` between `left` and `right` leaves
unfoldable pub unlinked : Memory → ℕ → ℕ → Memory
unlinked m left right = store (store m link_next left right) page_prev right left

unlinked-ends :
    (m : Memory) (left right : ℕ)
    → (unlinked m left right link_next left ≡ right)
      × (unlinked m left right page_prev right ≡ left)
unfolding unlinked
unlinked-ends m left right = (
  store-same m link_next left right,
  store-same (store m link_next left right) page_prev right left,
)

-- The pages from the right end of what was taken out
pub unlinked-rest :
    (m : Memory) (left a : ℕ) (l : List ℕ) (right : ℕ)
    → IsLinked m a l right
    → IsDistinct (a ∷ l)
    → IsFresh left l
    → IsFresh right l
    → IsLinked (unlinked m left (first_or l right)) left l right
unfolding unlinked IsLinked IsDistinct
unlinked-rest m left a [] right h apart heads tails = unlinked-ends m left right
unlinked-rest m left a (b ∷ l) right h apart heads tails =
    let e = unlinked-ends m left b in
    (
      e.0,
      e.1,
      IsLinked-store_both m left b b left l right heads.0 heads.1 apart.1.0 (not_sym tails.0) h.2,
    )

pub pop_page-writes :
    (bin : PageCacheBin) (m : Memory) (a first : ℕ)
    → m link_next bin.head ≡ a
    → a ≢ bin.tail
    → a ≢ bin.head
    → m link_next a ≡ first
    → pop_page bin m ≡ (a, unlinked m bin.head first)
unfolding pop_page unlinked
pop_page-writes bin m a first h end other n =
    let e : (a == bin.tail) ≡ false = ground arith in
    let f : (a == bin.head) ≡ false = ground arith in rw (h, n, e, f) refl

pop_page-IsLinked :
    (bin : PageCacheBin) (m : Memory) (l : List ℕ)
    → IsLinked m bin.head l bin.tail
    → IsDistinct l
    → IsFresh bin.head l
    → IsFresh bin.tail l
    → ((pop_page bin m).0 ≡ top l) × IsLinked (pop_page bin m).1 bin.head (rest l) bin.tail
unfolding pop_page top rest IsLinked IsDistinct unlinked
pop_page-IsLinked bin m [] h apart heads tails =
    let e : (m link_next bin.head == bin.tail) ≡ true = ground (arith, h.0) in rw e (refl, h)
pop_page-IsLinked bin m (a ∷ l) h apart heads tails =
    let first = IsLinked-first m a l bin.tail h.2 in
    subst (λ r. (r.0 ≡ a) × IsLinked r.1 bin.head l bin.tail)
      (sym (pop_page-writes bin m a (first_or l bin.tail) h.0 tails.0 heads.0 first))
      (refl, unlinked-rest m bin.head a l bin.tail h.2 apart heads.1 tails.1)

-- `pop` gives the first page, or null, and leaves the others.
pub pop_page_lem :
    (bin : PageCacheBin) (m : Memory) (l : List ℕ)
    → HasPages bin m l
    → ((pop_page bin m).0 ≡ top l) × HasPages bin (pop_page bin m).1 (rest l)
unfolding IsDistinct rest
pop_page_lem bin m [] has =
    let r = pop_page-IsLinked bin m [] has.0 has.1 has.2 has.3 in (r.0, (r.1, has.1, has.2, has.3))
pop_page_lem bin m (a ∷ l) has =
    let r = pop_page-IsLinked bin m (a ∷ l) has.0 has.1 has.2 has.3 in
    (r.0, (r.1, has.1.1, has.2.1, has.3.1))
