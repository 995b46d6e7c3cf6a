-- ===== src/Binalloc/Heap/Bins.antt =====
-- The thread's bins of benchmarks/binalloc/bin_cache.cpp: allocation and release of blocks.
use prototype_bundle.Prelude.{ℕ, ◌%◌, ◌^◌, ◌==◌, if◌then◌else◌}
use prototype_bundle.Binalloc.Config.{Config, no_bin, bin_index}
use prototype_bundle.Binalloc.Address.{owning}
use prototype_bundle.Binalloc.Stack.{nullptr}
use prototype_bundle.Binalloc.Memory.{link_next}
use prototype_bundle.Binalloc.Heap.{Heap, CallResult, returned, thrown, dereferenced_null, with_bin}
use prototype_bundle.Binalloc.Heap.Clusters.{Reserve}
use prototype_bundle.Binalloc.Heap.Pages.{Sentinels, page_cache_fetch, page_transfer_to, page_free}

-- `bin_alloc_fetch_page` once it has a page, or null
unfoldable pub take_from_page : Config → ℕ → ℕ × Heap → ℕ × Heap
take_from_page cfg index fetched =
    let transferred = page_transfer_to cfg fetched.1 fetched.0 in
    let head = transferred.0 in
    let h = with_bin transferred.1 index head in
    if fetched.0 == nullptr
    then (nullptr, fetched.1)
    else (head, if head == nullptr then h else with_bin h index (h.memory link_next head))

abbrev pub take_fetched : Config → ℕ → CallResult (ℕ × Heap) → CallResult (ℕ × Heap)
take_fetched cfg index (returned fetched) = returned (take_from_page cfg index fetched)
take_fetched cfg index thrown = thrown
take_fetched cfg index dereferenced_null = dereferenced_null

-- The page cache takes the index as a `std::uint8_t`.
unfoldable pub bin_alloc_fetch_page :
    Reserve → Sentinels → Config → Heap → ℕ → CallResult (ℕ × Heap)
bin_alloc_fetch_page reserve bins cfg h index =
    take_fetched cfg index (page_cache_fetch reserve bins cfg h (index % 2 ^ 8))

-- The address and the heap that `bin_alloc` leaves
unfoldable pub bin_alloc : Reserve → Sentinels → Config → Heap → ℕ → CallResult (ℕ × Heap)
bin_alloc reserve bins cfg h size =
    let index = bin_index cfg size in
    let bin_head = h.memory link_next (h.bins index) in
    if index == no_bin
    then thrown
    else if h.bins index == nullptr
    then bin_alloc_fetch_page reserve bins cfg h index
    else returned (bin_head, with_bin h index bin_head)

unfoldable pub bin_free : Sentinels → Config → Heap → ℕ → Heap
bin_free bins cfg h address = page_free bins cfg h (owning cfg address) address
