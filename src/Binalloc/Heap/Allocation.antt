-- ===== src/Binalloc/Heap/Allocation.antt =====
-- Which block an allocation gives, and what it leaves in the bin of the thread.
use prototype_bundle.Prelude.{
  inl, inr, Bool-cases, ℕ, ◌+◌, ◌-◌, ◌%◌, ◌^◌, ◌<◌, ◌≡◌, ◌≢◌, ◌==◌, List, [], ◌∷◌, true, false,
  arith, refl, ◌∙◌, ap, subst,
}
use prototype_bundle.Binalloc.Config.{Config, bin_index, no_bin}
use prototype_bundle.Binalloc.Stack.{nullptr, write}
use prototype_bundle.Binalloc.Stack.Chain.{IsChain, IsFresh, IsChain-write}
use prototype_bundle.Binalloc.Memory.{Memory, link_next, page_prev, page_free_list}
use prototype_bundle.Binalloc.PageList.{PageCacheBin, pop_page}
use prototype_bundle.Binalloc.PageList.Laws.{HasPages, IsLinked, IsLinked-first, first_or}
use prototype_bundle.Binalloc.Heap.{Heap, returned, with_memory, with_bin}
use prototype_bundle.Binalloc.Heap.Clusters.{Reserve, cluster_free}
use prototype_bundle.Binalloc.Heap.Pages.{Sentinels, page_cache_fetch, page_transfer_to}
use prototype_bundle.Binalloc.Heap.Bins.{
  take_fetched, take_from_page, bin_alloc_fetch_page, bin_alloc,
}
use prototype_bundle.Binalloc.Stack.Chain.{top, rest}
use prototype_bundle.Binalloc.PageList.Laws.{pop_page_lem}
use prototype_bundle.Binalloc.Heap.Flow.{IsLinked-agree}
use prototype_bundle.Binalloc.Heap.Laws.{PageHolds}
use prototype_bundle.Binalloc.PageList.Laws.{pop_page-writes, unlinked}
use prototype_bundle.Binalloc.Memory.{cluster_used, cluster_state, untethered}

-- The bin of the thread has the blocks of the list.
abbrev pub BinHolds : Heap → ℕ → List ℕ → Type 0
BinHolds h index l = IsChain (h.memory link_next) (h.bins index) l nullptr

take_from_page_lem :
    (cfg : Config) (index pmeta : ℕ) (h : Heap) (a : ℕ) (l : List ℕ)
    → pmeta ≢ nullptr
    → PageHolds h.memory pmeta (a ∷ l)
    → ((take_from_page cfg index (pmeta, h)).0 ≡ a)
      × BinHolds (take_from_page cfg index (pmeta, h)).1 index l
unfolding take_from_page page_transfer_to IsChain
take_from_page_lem cfg index pmeta h a l there holds =
    let t : (pmeta == nullptr) ≡ false = ground arith in
    let e : (h.memory page_free_list pmeta == nullptr) ≡ false = ground (arith, holds.0, holds.1) in
    let same : (index == index) ≡ true = ground arith in
    rw (t, e, same) (holds.0, rw holds.0 holds.2)

-- Taking the blocks of a page leaves the bins of the page cache.
take_from_page-HasPages :
    (bin : PageCacheBin) (cfg : Config) (index pmeta : ℕ) (h : Heap) (pages : List ℕ)
    → pmeta ≢ nullptr
    → HasPages bin h.memory pages
    → HasPages bin (take_from_page cfg index (pmeta, h)).1.memory pages
unfolding take_from_page page_transfer_to
take_from_page-HasPages bin cfg index pmeta h pages there has =
    let t : (pmeta == nullptr) ≡ false = ground arith in
    elim (Bool-cases (h.memory page_free_list pmeta == nullptr)) [
      | inl e ↦ rw (t, e) (kept (page_transfer_to cfg h pmeta).1.memory (λ x. refl) (λ x. refl))
      | inr e ↦ rw (t, e) (kept (page_transfer_to cfg h pmeta).1.memory (λ x. refl) (λ x. refl))
    ]
  where
    kept :
        (n : Memory)
        → ((x : ℕ) → n link_next x ≡ h.memory link_next x)
        → ((x : ℕ) → n page_prev x ≡ h.memory page_prev x)
        → HasPages bin n pages
    kept n nexts prevs =
        (IsLinked-agree h.memory n bin.head pages bin.tail nexts prevs has.0, has.1, has.2, has.3)

page_cache_fetch-pops :
    (reserve : Reserve) (bins : Sentinels) (cfg : Config) (h : Heap) (index pmeta : ℕ) (m : Memory)
    → pmeta ≢ nullptr
    → pop_page (bins index) h.memory ≡ (pmeta, m)
    → page_cache_fetch reserve bins cfg h index ≡ returned (pmeta, with_memory h m)
unfolding page_cache_fetch
page_cache_fetch-pops reserve bins cfg h index pmeta m there popped =
    let t : (pmeta == nullptr) ≡ false = ground arith in rw popped (rw t refl)

bin_alloc_fetch_page-takes :
    (reserve : Reserve) (bins : Sentinels) (cfg : Config) (h : Heap) (index : ℕ)
    (fetched : ℕ × Heap)
    → index < 2 ^ 8
    → page_cache_fetch reserve bins cfg h index ≡ returned fetched
    → bin_alloc_fetch_page reserve bins cfg h index ≡ returned (take_from_page cfg index fetched)
unfolding bin_alloc_fetch_page
bin_alloc_fetch_page-takes reserve bins cfg h index fetched byte e =
    let small : index % 2 ^ 8 ≡ index = omega arith in
    ap (take_fetched cfg index) (ap (page_cache_fetch reserve bins cfg h) small ∙ e)

-- A fetch from the page cache, whose bin has pages, takes the first page, hands its first block to
-- the caller and leaves the others in the bin of the thread; `index` fits 8 bits, and the page and
-- the sentinel are no blocks.
pub bin_alloc_fetch_page_lem :
    (reserve : Reserve) (bins : Sentinels) (cfg : Config) (h : Heap) (index pmeta a : ℕ)
    (pages l : List ℕ)
    → index < 2 ^ 8
    → HasPages (bins index) h.memory (pmeta ∷ pages)
    → pmeta ≢ nullptr
    → PageHolds h.memory pmeta (a ∷ l)
    → IsFresh (bins index).head (a ∷ l)
    → (r : ℕ × Heap) × (bin_alloc_fetch_page reserve bins cfg h index ≡ returned r)
      × (r.0 ≡ a)
      × BinHolds r.1 index l
      × HasPages (bins index) r.1.memory pages
unfolding IsLinked unlinked write rest
bin_alloc_fetch_page_lem reserve bins cfg h index pmeta a pages l byte has there holds theirs =
    let bin = bins index in
    let first = first_or pages bin.tail in
    let m = unlinked h.memory bin.head first in
    let popped =
      pop_page-writes bin h.memory pmeta first has.0.0 has.3.0 has.2.0
        (IsLinked-first h.memory pmeta pages bin.tail has.0.2) in
    let left : HasPages bin m pages =
      subst (λ r. HasPages bin r.1 pages) popped
        (pop_page_lem bin h.memory (pmeta ∷ pages) has).1 in
    let chain =
      IsChain-write (h.memory link_next) bin.head first (h.memory page_free_list pmeta) (a ∷ l)
        nullptr theirs holds in
    let taken = take_from_page_lem cfg index pmeta (with_memory h m) a l there chain in
    (
      take_from_page cfg index (pmeta, with_memory h m),
      bin_alloc_fetch_page-takes reserve bins cfg h index (pmeta, with_memory h m) byte
          (page_cache_fetch-pops reserve bins cfg h index pmeta m there popped),
      taken.0,
      taken.1,
      take_from_page-HasPages bin cfg index pmeta (with_memory h m) pages there left,
    )

-- `bin_alloc` from a bin of the thread that has blocks drops the first and gives the second, or null,
-- which stays the first of the bin.
pub bin_alloc_skips :
    (reserve : Reserve) (bins : Sentinels) (cfg : Config) (h : Heap) (size a : ℕ) (l : List ℕ)
    → bin_index cfg size ≢ no_bin
    → BinHolds h (bin_index cfg size) (a ∷ l)
    → (r : ℕ × Heap) × (bin_alloc reserve bins cfg h size ≡ returned r)
      × (r.0 ≡ top l)
      × (r.1.bins (bin_index cfg size) ≡ top l)
      × BinHolds r.1 (bin_index cfg size) l
unfolding bin_alloc IsChain top
bin_alloc_skips reserve bins cfg h size a l fits holds =
    let index = bin_index cfg size in
    let n : (index == no_bin) ≡ false = ground arith in
    let e : (h.bins index == nullptr) ≡ false = ground (arith, holds.0, holds.1) in
    let same : (index == index) ≡ true = ground arith in
    let next = h.memory link_next (h.bins index) in
    let on : next ≡ h.memory link_next a = ap (h.memory link_next) holds.0 in
    let is_top = on ∙ chain-top (h.memory link_next) (h.memory link_next a) l holds.2 in
    (
      (next, with_bin h index next),
      rw (n, e) refl,
      is_top,
      rw same is_top,
      rw (same, holds.0) holds.2,
    )
  where
    chain-top : (f : ℕ → ℕ) (start : ℕ) (l : List ℕ) → IsChain f start l nullptr → start ≡ top l
    chain-top f start [] c = c
    chain-top f start (b ∷ l) c = c.0

-- One `free` to an untethered cluster, with more than one page in use, pushes the cluster to the
-- cluster cache and leaves it untethered.
cluster_free-pushes :
    (h : Heap) (cmeta page : ℕ)
    → h.memory cluster_state cmeta ≡ untethered
    → 1 < h.memory cluster_used cmeta
    → h.memory cluster_used cmeta < 2 ^ 16
    → ((cluster_free h cmeta page).clusters ≡ cmeta)
      × ((cluster_free h cmeta page).memory cluster_state cmeta ≡ untethered)
      × ((cluster_free h cmeta page).memory cluster_used cmeta ≡ h.memory cluster_used cmeta - 1)
      × ((cluster_free h cmeta page).memory link_next cmeta ≡ h.clusters)
unfolding cluster_free
cluster_free-pushes h cmeta page tied low high =
    let same : (cmeta == cmeta) ≡ true = ground arith in
    let tied_still : (h.memory cluster_state cmeta == untethered) ≡ true = ground arith in
    let less : (h.memory cluster_used cmeta + 2 ^ 16 - 1) % 2 ^ 16
        ≡ h.memory cluster_used cmeta - 1 =
      omega arith in
    let some_left : (h.memory cluster_used cmeta - 1 == 0) ≡ false = ground arith in
    rw (less, some_left, tied_still, same) (refl, tied, refl, refl)

-- A cluster that is untethered, with more than two pages in use, is pushed to the cluster cache by
-- each of two `free`s, and is then the cluster after itself there.
pub cluster_free_loops :
    (h : Heap) (cmeta p q : ℕ)
    → h.memory cluster_state cmeta ≡ untethered
    → 2 < h.memory cluster_used cmeta
    → h.memory cluster_used cmeta < 2 ^ 16
    → ((cluster_free (cluster_free h cmeta p) cmeta q).clusters ≡ cmeta)
      × ((cluster_free (cluster_free h cmeta p) cmeta q).memory link_next cmeta ≡ cmeta)
cluster_free_loops h cmeta p q tied low high =
    let once = cluster_free h cmeta p in
    let e = cluster_free-pushes h cmeta p tied (omega arith) high in
    let again = cluster_free-pushes once cmeta q e.1 (omega (arith, e.2)) (omega (arith, e.2)) in
    (again.0, again.3 ∙ e.0)
