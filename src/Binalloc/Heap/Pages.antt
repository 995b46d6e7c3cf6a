-- ===== src/Binalloc/Heap/Pages.antt =====
-- The operations on pages of benchmarks/binalloc/page.cpp and page_cache.cpp, as one thread runs
-- them.
use prototype_bundle.Prelude.{ℕ, ◌+◌, ◌-◌, ◌%◌, ◌^◌, leb, ◌==◌, if◌then◌else◌}
use prototype_bundle.Binalloc.Config.{Config, bin_index_max_size, bin_object_count}
use prototype_bundle.Binalloc.Address.{address_meta}
use prototype_bundle.Binalloc.Stack.{nullptr, format_stack}
use prototype_bundle.Binalloc.Memory.{
  with_next, link_next, page_prev, page_free_list, page_used, page_bin_index, page_is_tethered,
}
use prototype_bundle.Binalloc.PageList.{PageCacheBin, detach, push_page, pop_page}
use prototype_bundle.Binalloc.Heap.{
  Heap, CallResult, returned, thrown, dereferenced_null, with_memory, with_page_list, write_field,
}
use prototype_bundle.Binalloc.Heap.Clusters.{
  Reserve, cluster_cache_fetch, cluster_transfer, cluster_free,
}

-- The sentinels of the bins of the page cache
abbrev pub Sentinels : Type 0
Sentinels = ℕ → PageCacheBin

abbrev pub page_cache_return : Sentinels → Heap → ℕ → Heap
page_cache_return bins h pmeta =
    with_memory h (push_page (bins (h.memory page_bin_index pmeta)) h.memory pmeta)

-- `cluster_meta::owning` is the cluster of the address.
unfoldable pub page_cache_release : Config → Heap → ℕ → Heap
page_cache_release cfg h pmeta =
    let h1 = with_memory h (detach h.memory pmeta) in
    cluster_free h1 (address_meta cfg pmeta).cluster pmeta

-- `page_meta::transfer_to`, with the head it gives
unfoldable pub page_transfer_to : Config → Heap → ℕ → ℕ × Heap
page_transfer_to cfg h pmeta =
    let head = h.memory page_free_list pmeta in
    let h1 = write_field h page_free_list pmeta nullptr in
    let used = bin_object_count cfg (h1.memory page_bin_index pmeta) % 2 ^ 16 in
    let h2 = write_field h1 page_used pmeta used in (head, write_field h2 page_is_tethered pmeta 0)

-- The first part of `page_meta::free`: the block goes on the free list, and `used` down by one.
abbrev pub page_put_back : Heap → ℕ → ℕ → Heap
page_put_back h pmeta address =
    let h1 = write_field h link_next address (h.memory page_free_list pmeta) in
    let h2 = write_field h1 page_free_list pmeta address in
    write_field h2 page_used pmeta ((h2.memory page_used pmeta + 2 ^ 16 - 1) % 2 ^ 16)

-- `page_meta::free`
unfoldable pub page_free : Sentinels → Config → Heap → ℕ → ℕ → Heap
page_free bins cfg h pmeta address =
    let h3 = page_put_back h pmeta address in
    let h4 =
      if h3.memory page_is_tethered pmeta == 0
      then write_field (page_cache_return bins h3 pmeta) page_is_tethered pmeta 1
      else h3 in
    if h4.memory page_used pmeta == 0 then page_cache_release cfg h4 pmeta else h4

-- `page_meta::make`; the members that are not named are set to their defaults.
unfoldable pub make_page : Config → Heap → ℕ → ℕ → CallResult (ℕ × Heap)
make_page cfg h address index =
    let page = (address_meta cfg address).page in
    let formatted =
      format_stack (h.memory link_next) page cfg.page_size (bin_index_max_size cfg index) in
    let h1 =
      write_field (with_memory h (with_next h.memory formatted.next)) link_next address nullptr in
    let h2 = write_field h1 page_prev address nullptr in
    let h3 = write_field h2 page_free_list address formatted.head in
    let h4 = write_field h3 page_used address 0 in
    let h5 = write_field h4 page_bin_index address index in
    if leb cfg.bin_count index
    then thrown
    else returned (address, write_field h5 page_is_tethered address 1)

-- The end of `page_alloc_new_page`, with its `head`
abbrev pub format_new_page : Config → Heap → ℕ → ℕ → CallResult (ℕ × Heap)
format_new_page cfg h head index =
    if head == nullptr
    then dereferenced_null
    else make_page cfg (with_page_list h (h.memory link_next head)) head index

unfoldable pub page_alloc_new_page : Reserve → Config → Heap → ℕ → CallResult (ℕ × Heap)
page_alloc_new_page reserve cfg h index =
    let fetched = cluster_cache_fetch reserve cfg h in
    let transferred = cluster_transfer cfg fetched.1 fetched.0 in
    if h.page_list == nullptr
    then if fetched.0 == nullptr
      then returned (nullptr, fetched.1)
      else format_new_page cfg (with_page_list transferred.1 transferred.0) transferred.0 index
    else format_new_page cfg h h.page_list index

unfoldable pub page_cache_fetch : Reserve → Sentinels → Config → Heap → ℕ → CallResult (ℕ × Heap)
page_cache_fetch reserve bins cfg h index =
    let popped = pop_page (bins index) h.memory in
    if popped.0 == nullptr
    then page_alloc_new_page reserve cfg (with_memory h popped.1) index
    else returned (popped.0, with_memory h popped.1)
