-- ===== src/Binalloc/Heap/Laws.antt =====
-- What the operations on pages do to the lists of blocks and pages.
use prototype_bundle.Prelude.{
  ℕ, ◌-◌, ◌%◌, ◌^◌, ◌<◌, ◌≡◌, ◌≢◌, ◌==◌, List, [], ◌∷◌, true, false, arith, refl, sym, subst,
}
use prototype_bundle.Binalloc.Config.{Config, bin_object_count}
use prototype_bundle.Binalloc.Stack.{nullptr, write}
use prototype_bundle.Binalloc.Stack.Chain.{IsChain, IsFresh, IsChain-write}
use prototype_bundle.Binalloc.Memory.{
  Memory, link_next, page_free_list, page_used, page_bin_index, page_is_tethered,
}
use prototype_bundle.Binalloc.Heap.{Heap}
use prototype_bundle.Binalloc.Heap.Pages.{Sentinels, page_transfer_to, page_free}
use prototype_bundle.Binalloc.Heap.Pages.{page_put_back}

-- The page has the blocks of the list on its free list.
abbrev pub PageHolds : Memory → ℕ → List ℕ → Type 0
PageHolds m pmeta l = IsChain (m link_next) (m page_free_list pmeta) l nullptr

-- `transfer_to` hands over all the blocks of a page, counts them as used, and unties the page.
pub page_transfer_to_lem :
    (cfg : Config) (h : Heap) (pmeta : ℕ) (l : List ℕ)
    → PageHolds h.memory pmeta l
    → IsChain
        ((page_transfer_to cfg h pmeta).1.memory link_next)
        (page_transfer_to cfg h pmeta).0
        l
        nullptr
      × PageHolds (page_transfer_to cfg h pmeta).1.memory pmeta []
      × ((page_transfer_to cfg h pmeta).1.memory page_used pmeta
          ≡ bin_object_count cfg (h.memory page_bin_index pmeta) % 2 ^ 16)
      × ((page_transfer_to cfg h pmeta).1.memory page_is_tethered pmeta ≡ 0)
unfolding page_transfer_to IsChain
page_transfer_to_lem cfg h pmeta l holds =
    let same : (pmeta == pmeta) ≡ true = ground arith in rw same (holds, refl, refl, refl)

-- A block put back goes on top of the page's free list.
pub page_put_back_lem :
    (h : Heap) (pmeta address : ℕ) (l : List ℕ)
    → PageHolds h.memory pmeta l
    → address ≢ nullptr
    → IsFresh address l
    → PageHolds (page_put_back h pmeta address).memory pmeta (address ∷ l)
unfolding IsChain write
page_put_back_lem h pmeta address l holds there fresh =
    let same : (pmeta == pmeta) ≡ true = ground arith in
    let top : (address == address) ≡ true = ground arith in
    let m = h.memory in
    rw (same, top)
      (
        refl,
        there,
        IsChain-write (m link_next) address (m page_free_list pmeta) (m page_free_list pmeta) l
            nullptr fresh holds,
      )

put_back-other :
    (h : Heap) (pmeta address other : ℕ) (l : List ℕ)
    → other ≢ pmeta
    → PageHolds h.memory other l
    → IsFresh address l
    → PageHolds (page_put_back h pmeta address).memory other l
unfolding write
put_back-other h pmeta address other l apart holds fresh =
    let different : (other == pmeta) ≡ false = ground arith in
    let m = h.memory in
    rw different (
      IsChain-write (m link_next) address (m page_free_list pmeta) (m page_free_list other) l
        nullptr fresh holds)

pub put_back-used :
    (h : Heap) (pmeta address : ℕ)
    → 0 < h.memory page_used pmeta
    → h.memory page_used pmeta < 2 ^ 16
    → (page_put_back h pmeta address).memory page_used pmeta ≡ h.memory page_used pmeta - 1
put_back-used h pmeta address low high =
    let same : (pmeta == pmeta) ≡ true = ground arith in rw same (omega arith)

page_free-tethered :
    (bins : Sentinels) (cfg : Config) (h : Heap) (pmeta address : ℕ)
    → h.memory page_is_tethered pmeta ≢ 0
    → 1 < h.memory page_used pmeta
    → h.memory page_used pmeta < 2 ^ 16
    → page_free bins cfg h pmeta address ≡ page_put_back h pmeta address
unfolding page_free
page_free-tethered bins cfg h pmeta address tethered low high =
    let t : (h.memory page_is_tethered pmeta == 0) ≡ false = ground arith in
    let u : ((page_put_back h pmeta address).memory page_used pmeta == 0) ≡ false =
      ground (arith, put_back-used h pmeta address (omega arith) high) in
    rw t (rw u refl)

-- `free` of a block, not null and not free, to a tethered page with more than one block in use puts
-- the block on top of the page's free list, counts it as free, and leaves the other pages, that do
-- not have the block either, their free lists.
pub page_free_lem :
    (bins : Sentinels) (cfg : Config) (h : Heap) (pmeta address other : ℕ) (l l' : List ℕ)
    → h.memory page_is_tethered pmeta ≢ 0
    → 1 < h.memory page_used pmeta
    → h.memory page_used pmeta < 2 ^ 16
    → address ≢ nullptr
    → PageHolds h.memory pmeta l
    → IsFresh address l
    → other ≢ pmeta
    → PageHolds h.memory other l'
    → IsFresh address l'
    → PageHolds (page_free bins cfg h pmeta address).memory pmeta (address ∷ l)
      × ((page_free bins cfg h pmeta address).memory page_used pmeta ≡ h.memory page_used pmeta - 1)
      × PageHolds (page_free bins cfg h pmeta address).memory other l'
page_free_lem bins cfg h pmeta address other l l' tethered low high there holds fresh apart holds'
      fresh' =
    subst
      (λ r.
        PageHolds r.memory pmeta (address ∷ l)
        × (r.memory page_used pmeta ≡ h.memory page_used pmeta - 1)
        × PageHolds r.memory other l')
      (sym (page_free-tethered bins cfg h pmeta address tethered low high))
      (
        page_put_back_lem h pmeta address l holds there fresh,
        put_back-used h pmeta address (omega arith) high,
        put_back-other h pmeta address other l' apart holds' fresh',
      )
