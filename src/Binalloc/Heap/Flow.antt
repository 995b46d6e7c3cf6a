-- ===== src/Binalloc/Heap/Flow.antt =====
-- How blocks and pages flow between the bins of a thread, the pages and the page cache.
use prototype_bundle.Prelude.{
  ℕ, ◌^◌, ◌<◌, ◌≡◌, ◌≢◌, ◌==◌, List, [], ◌∷◌, true, false, arith, refl, sym, ◌∙◌, subst,
}
use prototype_bundle.Binalloc.Config.{Config}
use prototype_bundle.Binalloc.Stack.{nullptr, write}
use prototype_bundle.Binalloc.Stack.Chain.{IsChain, IsFresh, IsChain-write}
use prototype_bundle.Binalloc.Memory.{
  Memory, store, link_next, page_prev, page_free_list, page_used, page_bin_index, page_is_tethered,
}
use prototype_bundle.Binalloc.PageList.{PageCacheBin, push_page}
use prototype_bundle.Binalloc.PageList.Laws.{
  HasPages, IsLinked, IsLinked-first, first_or, pushed, push_page-writes, push_page_lem,
  IsLinked-store_next,
}
use prototype_bundle.Binalloc.Heap.{Heap, write_field}
use prototype_bundle.Binalloc.Heap.Pages.{Sentinels, page_free}
use prototype_bundle.Binalloc.Heap.Pages.{page_put_back, page_cache_return}
use prototype_bundle.Binalloc.Heap.Laws.{PageHolds, page_put_back_lem, put_back-used}

pub IsLinked-agree :
    (m n : Memory) (left : ℕ) (l : List ℕ) (right : ℕ)
    → ((x : ℕ) → n link_next x ≡ m link_next x)
    → ((x : ℕ) → n page_prev x ≡ m page_prev x)
    → IsLinked m left l right
    → IsLinked n left l right
unfolding IsLinked
IsLinked-agree m n left [] right nexts prevs h = (nexts left ∙ h.0, prevs right ∙ h.1)
IsLinked-agree m n left (a ∷ l) right nexts prevs h =
    (nexts left ∙ h.0, prevs a ∙ h.1, IsLinked-agree m n a l right nexts prevs h.2)

-- `push` of a page to its bin leaves the chains that pass neither it nor the head of the bin.
IsChain-push_page :
    (bin : PageCacheBin) (m : Memory) (pages : List ℕ) (pmeta start : ℕ) (l : List ℕ)
    → IsLinked m bin.head pages bin.tail
    → IsFresh pmeta (bin.head ∷ bin.tail ∷ pages)
    → IsFresh pmeta l
    → IsFresh bin.head l
    → IsChain (m link_next) start l nullptr
    → IsChain (push_page bin m pmeta link_next) start l nullptr
unfolding pushed write
IsChain-push_page bin m pages pmeta start l linked outside fresh heads chain =
    let first = first_or pages bin.tail in
    subst (λ n. IsChain (n link_next) start l nullptr)
      (sym (
        push_page-writes bin m pmeta first (IsLinked-first m bin.head pages bin.tail linked)
          (first_apart pages outside.1)))
      (IsChain-write (write (m link_next) pmeta first) bin.head pmeta start l nullptr heads
        (IsChain-write (m link_next) pmeta first start l nullptr fresh chain))
  where
    first_apart :
        {x right : ℕ} (pages : List ℕ) → IsFresh x (right ∷ pages) → first_or pages right ≢ x
    first_apart [] fresh = fresh.0
    first_apart (a ∷ pages) fresh = fresh.1.0

page_free-untethered :
    (bins : Sentinels) (cfg : Config) (h : Heap) (pmeta address : ℕ)
    → h.memory page_is_tethered pmeta ≡ 0
    → 1 < h.memory page_used pmeta
    → h.memory page_used pmeta < 2 ^ 16
    → page_free bins cfg h pmeta address
      ≡ write_field
          (page_cache_return bins (page_put_back h pmeta address) pmeta)
          page_is_tethered
          pmeta
          1
unfolding page_free push_page
page_free-untethered bins cfg h pmeta address tethered low high =
    let t : (h.memory page_is_tethered pmeta == 0) ≡ true = ground arith in
    let u : ((page_put_back h pmeta address).memory page_used pmeta == 0) ≡ false =
      ground (arith, put_back-used h pmeta address (omega arith) high) in
    rw t (rw u refl)

-- The bin of the page cache that a page goes to
abbrev pub bin_of : Sentinels → Heap → ℕ → PageCacheBin
bin_of bins h pmeta = bins (h.memory page_bin_index pmeta)

put_back-HasPages :
    (bin : PageCacheBin) (h : Heap) (pmeta address : ℕ) (pages : List ℕ)
    → HasPages bin h.memory pages
    → IsFresh address (bin.head ∷ pages)
    → HasPages bin (page_put_back h pmeta address).memory pages
put_back-HasPages bin h pmeta address pages has off =
    let written = store h.memory link_next address (h.memory page_free_list pmeta) in
    (
      IsLinked-agree written (page_put_back h pmeta address).memory bin.head pages bin.tail
          (λ x. refl) (λ x. refl)
          (IsLinked-store_next h.memory address (h.memory page_free_list pmeta) bin.head pages
            bin.tail off.0 off.1 has.0),
      has.1,
      has.2,
      has.3,
    )

-- `free` to a page that the thread's bin had emptied, with more than one block in use, puts the page
-- first in its bin of the page cache, tethered again, and the block on top of its free list. The
-- block is not null and not on the free list, and neither it nor the page is in the bin.
pub page_free_returns :
    (bins : Sentinels) (cfg : Config) (h : Heap) (pmeta address : ℕ) (l pages : List ℕ)
    → h.memory page_is_tethered pmeta ≡ 0
    → 1 < h.memory page_used pmeta
    → h.memory page_used pmeta < 2 ^ 16
    → address ≢ nullptr
    → PageHolds h.memory pmeta l
    → IsFresh address l
    → HasPages (bin_of bins h pmeta) h.memory pages
    → IsFresh address ((bin_of bins h pmeta).head ∷ pages)
    → IsFresh pmeta ((bin_of bins h pmeta).head ∷ (bin_of bins h pmeta).tail ∷ pages)
    → IsFresh pmeta (address ∷ l)
    → IsFresh (bin_of bins h pmeta).head (address ∷ l)
    → HasPages (bin_of bins h pmeta) (page_free bins cfg h pmeta address).memory (pmeta ∷ pages)
      × PageHolds (page_free bins cfg h pmeta address).memory pmeta (address ∷ l)
      × ((page_free bins cfg h pmeta address).memory page_is_tethered pmeta ≡ 1)
unfolding push_page
page_free_returns bins cfg h pmeta address l pages away low high there holds fresh has off outside
      mine theirs =
    let bin = bin_of bins h pmeta in
    let m = (page_put_back h pmeta address).memory in
    let has1 = put_back-HasPages bin h pmeta address pages has off in
    let pushed = push_page_lem bin m pages pmeta has1 outside in
    let chain =
      IsChain-push_page bin m pages pmeta (m page_free_list pmeta) (address ∷ l) has1.0 outside mine
        theirs (page_put_back_lem h pmeta address l holds there fresh) in
    let n = store (push_page bin m pmeta) page_is_tethered pmeta 1 in
    let same : (pmeta == pmeta) ≡ true = ground arith in
    subst
      (λ r.
        HasPages bin r.memory (pmeta ∷ pages)
        × PageHolds r.memory pmeta (address ∷ l)
        × (r.memory page_is_tethered pmeta ≡ 1))
      (sym (page_free-untethered bins cfg h pmeta address away low high))
      (
        (
          IsLinked-agree (push_page bin m pmeta) n bin.head (pmeta ∷ pages) bin.tail (λ x. refl)
              (λ x. refl) pushed.0,
          pushed.1,
          pushed.2,
          pushed.3,
        ),
        chain,
        rw same refl,
      )
