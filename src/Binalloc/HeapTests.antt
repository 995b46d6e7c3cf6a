-- ===== src/Binalloc/HeapTests.antt =====
-- Runs of the allocator's heap on one bin of two pages, and the theorems at them.
use prototype_bundle.Prelude.{
  ℕ, ◌+◌, ◌*◌, ◌^◌, ◌≡◌, ◌==◌, [], ◌∷◌, ◌++◌, arith, refl, if◌then◌else◌,
}
use prototype_bundle.Binalloc.Word.{bit_length}
use prototype_bundle.Binalloc.Config.{make_config, bin_index, bin_offset_count}
use prototype_bundle.Binalloc.Stack.Chain.{IsChain, top, rest}
use prototype_bundle.Binalloc.Memory.{
  Memory, link_next, page_prev, page_free_list, page_used, page_bin_index, page_is_tethered,
  cluster_free_list, cluster_used, cluster_state,
}
use prototype_bundle.Binalloc.PageList.{PageCacheBin, detach, pop_page}
use prototype_bundle.Binalloc.PageList.Laws.{HasPages, IsLinked, IsDistinct, pop_page_lem}
use prototype_bundle.Binalloc.PageList.Detach.{detach_lem}
use prototype_bundle.Binalloc.Heap.{Heap, returned}
use prototype_bundle.Binalloc.Heap.Clusters.{Reserve, cluster_free}
use prototype_bundle.Binalloc.Heap.Pages.{Sentinels, page_free, make_page}
use prototype_bundle.Binalloc.Heap.Making.{bin_count_4096, make_page_collides}
use prototype_bundle.Binalloc.Heap.Bins.{bin_alloc_fetch_page, bin_alloc}
use prototype_bundle.Binalloc.Heap.Laws.{PageHolds}
use prototype_bundle.Binalloc.Heap.Flow.{bin_of, page_free_returns}
use prototype_bundle.Binalloc.Heap.Allocation.{
  BinHolds, bin_alloc_fetch_page_lem, bin_alloc_skips, cluster_free_loops,
}

-- The sentinels 10 and 20, between them the pages 1 and 2; page 1 has the blocks 100 and 116 free,
-- page 3, on no list, has the block 200, and the thread's bin 0 the blocks 300 and 316. Page 1 is
-- tethered and page 3 is not. The cluster 50 is untethered.
abbrev example_memory : Memory
example_memory link_next at =
    if at == 10
    then 1
    else if at == 1
    then 2
    else if at == 2
    then 20
    else if at == 100
    then 116
    else if at == 300
    then 316
    else 0
example_memory page_prev at =
    if at == 20 then 2 else if at == 2 then 1 else if at == 1 then 10 else 0
example_memory page_free_list at = if at == 1 then 100 else if at == 3 then 200 else 0
example_memory page_used at = 5
example_memory page_bin_index at = 0
example_memory page_is_tethered at = if at == 3 then 0 else 1
example_memory cluster_free_list at = 0
example_memory cluster_used at = 5
example_memory cluster_state at = 2

abbrev example_bin : PageCacheBin
example_bin = record { head = 10; tail = 20 }

abbrev bins : Sentinels
bins index = example_bin

abbrev example_heap : Heap
example_heap = record {
  memory = example_memory;
  page_list = 0;
  clusters = 0;
  bins = λ i. 300;
  reserve_calls = 0;
}

abbrev reserve_none : Reserve
reserve_none call = 0

example-HasPages : HasPages example_bin example_memory (1 ∷ 2 ∷ [])
unfolding IsLinked IsDistinct
example-HasPages = (
  (refl, refl, (refl, refl, (refl, refl))),
  ((ground arith, tt), (tt, tt)),
  (ground arith, (ground arith, tt)),
  (ground arith, (ground arith, tt)),
)

pop_page_lem_example :
    ((pop_page example_bin example_memory).0 ≡ top (1 ∷ 2 ∷ []))
    × HasPages example_bin (pop_page example_bin example_memory).1 (rest (1 ∷ 2 ∷ []))
pop_page_lem_example = pop_page_lem example_bin example_memory (1 ∷ 2 ∷ []) example-HasPages

detach_lem_example : HasPages example_bin (detach example_memory 2) ((1 ∷ []) ++ [])
detach_lem_example = detach_lem example_bin example_memory (1 ∷ []) 2 [] example-HasPages

first_page-PageHolds : PageHolds example_memory 1 (100 ∷ 116 ∷ [])
unfolding IsChain
first_page-PageHolds = (refl, ground arith, (refl, ground arith, refl))

third_page-PageHolds : PageHolds example_memory 3 (200 ∷ [])
unfolding IsChain
third_page-PageHolds = (refl, ground arith, refl)

page_free_returns_example :
    HasPages
      (bin_of bins example_heap 3)
      (page_free bins (make_config 4096) example_heap 3 216).memory
      (3 ∷ 1 ∷ 2 ∷ [])
    × PageHolds (page_free bins (make_config 4096) example_heap 3 216).memory 3 (216 ∷ 200 ∷ [])
    × ((page_free bins (make_config 4096) example_heap 3 216).memory page_is_tethered 3 ≡ 1)
page_free_returns_example =
    page_free_returns bins (make_config 4096) example_heap 3 216 (200 ∷ []) (1 ∷ 2 ∷ []) refl
      (omega arith) (omega arith) (ground arith) third_page-PageHolds (ground arith, tt)
      example-HasPages (ground arith, (ground arith, (ground arith, tt)))
      (ground arith, (ground arith, (ground arith, (ground arith, tt))))
      (ground arith, (ground arith, tt)) (ground arith, (ground arith, tt))

bin_alloc_fetch_page_lem_example :
    (r : ℕ × Heap) × (bin_alloc_fetch_page reserve_none bins (make_config 4096) example_heap 0
      ≡ returned r)
    × (r.0 ≡ 100)
    × BinHolds r.1 0 (116 ∷ [])
    × HasPages (bins 0) r.1.memory (2 ∷ [])
bin_alloc_fetch_page_lem_example =
    bin_alloc_fetch_page_lem reserve_none bins (make_config 4096) example_heap 0 1 100 (2 ∷ [])
      (116 ∷ []) (omega arith) example-HasPages (ground arith) first_page-PageHolds
      (ground arith, (ground arith, tt))

size-sixteen : bin_index (make_config 4096) 16 ≡ 0
unfolding bin_index bin_offset_count bit_length
size-sixteen = refl

blocks-BinHolds : (index : ℕ) → BinHolds example_heap index (300 ∷ 316 ∷ [])
unfolding IsChain
blocks-BinHolds index = (refl, ground arith, (refl, ground arith, refl))

bin_alloc_skips_example :
    (r : ℕ × Heap) × (bin_alloc reserve_none bins (make_config 4096) example_heap 16 ≡ returned r)
    × (r.0 ≡ top (316 ∷ []))
    × (r.1.bins (bin_index (make_config 4096) 16) ≡ top (316 ∷ []))
    × BinHolds r.1 (bin_index (make_config 4096) 16) (316 ∷ [])
bin_alloc_skips_example =
    bin_alloc_skips reserve_none bins (make_config 4096) example_heap 16 300 (316 ∷ [])
      (ground (arith, size-sixteen)) (blocks-BinHolds (bin_index (make_config 4096) 16))

cluster_free_loops_example :
    ((cluster_free (cluster_free example_heap 50 60) 50 70).clusters ≡ 50)
    × ((cluster_free (cluster_free example_heap 50 60) 50 70).memory link_next 50 ≡ 50)
cluster_free_loops_example =
    cluster_free_loops example_heap 50 60 70 refl (omega arith) (omega arith)

make_page_collides_example :
    let address = 3 * 2 ^ 19 + 32 * (5 + 1) in
    (after : Heap) × (make_page (make_config 4096) example_heap address 2
      ≡ returned (address, after))
    × (after.memory page_free_list address ≡ 3 * 2 ^ 19 + 4096)
make_page_collides_example =
    make_page_collides example_heap 3 5 2 (omega arith) (omega arith)
      (omega (arith, bin_count_4096))
