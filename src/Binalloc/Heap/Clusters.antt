-- ===== src/Binalloc/Heap/Clusters.antt =====
-- The operations on clusters of benchmarks/binalloc/cluster.cpp and cluster_cache.cpp, as one thread
-- runs them.
use prototype_bundle.Prelude.{ℕ, ◌+◌, ◌-◌, ◌*◌, ◌%◌, ◌^◌, ◌==◌, if◌then◌else◌}
use prototype_bundle.Binalloc.Config.{Config}
use prototype_bundle.Binalloc.Stack.{nullptr, format_stack}
use prototype_bundle.Binalloc.Memory.{
  with_next, link_next, cluster_free_list, cluster_used, cluster_state, unused, in_use, untethered,
}
use prototype_bundle.Binalloc.Heap.{Heap, with_memory, with_clusters, write_field}

-- `cluster_cache::push`, which `cluster_cache_return` calls
abbrev pub cluster_cache_return : Heap → ℕ → Heap
cluster_cache_return h cmeta = with_clusters (write_field h link_next cmeta h.clusters) cmeta

-- `cluster_cache::pop`
unfoldable pub cluster_cache_pop : Heap → ℕ × Heap
cluster_cache_pop h =
    let cmeta = h.clusters in
    (cmeta, if cmeta == nullptr then h else with_clusters h (h.memory link_next cmeta))

-- `cluster_meta::transfer`, with the head it gives
unfoldable pub cluster_transfer : Config → Heap → ℕ → ℕ × Heap
cluster_transfer cfg h cmeta =
    let head = h.memory cluster_free_list cmeta in
    let h1 = write_field h cluster_free_list cmeta nullptr in
    let h2 = write_field h1 cluster_used cmeta (cfg.cluster_page_count % 2 ^ 16) in
    (head, write_field h2 cluster_state cmeta untethered)

-- `cluster_cache_release`, which calls `cluster_meta::decommit`
abbrev pub cluster_cache_release : Heap → ℕ → Heap
cluster_cache_release h cmeta = write_field h cluster_state cmeta unused

-- `cluster_meta::free`
unfoldable pub cluster_free : Heap → ℕ → ℕ → Heap
cluster_free h cmeta page =
    let h1 = write_field h link_next page (h.memory cluster_free_list cmeta) in
    let h2 = write_field h1 cluster_free_list cmeta page in
    let used = (h2.memory cluster_used cmeta + 2 ^ 16 - 1) % 2 ^ 16 in
    let h3 = write_field h2 cluster_used cmeta used in
    let h4 =
      if h3.memory cluster_state cmeta == untethered then cluster_cache_return h3 cmeta else h3 in
    if used == 0 then cluster_cache_release h4 cmeta else h4

-- `cluster_meta::make`
unfoldable pub make_cluster : Config → Heap → ℕ → Heap
make_cluster cfg h address =
    let formatted =
      format_stack (h.memory link_next) (address + cfg.page_meta_size)
        (cfg.page_meta_size * cfg.cluster_page_count) cfg.page_meta_size in
    let h1 =
      write_field (with_memory h (with_next h.memory formatted.next)) link_next address nullptr in
    let h2 = write_field h1 cluster_free_list address formatted.head in
    let h3 = write_field h2 cluster_used address 0 in write_field h3 cluster_state address in_use

-- What the operating system's `reserve` gives at each call, `nullptr` where it fails; `commit` and
-- `decommit` only make memory accessible.
abbrev pub Reserve : Type 0
Reserve = ℕ → ℕ

unfoldable pub cluster_alloc : Reserve → Config → Heap → ℕ × Heap
cluster_alloc reserve cfg h =
    let ptr = reserve h.reserve_calls in
    let h1 : Heap = record {
      memory = h.memory;
      page_list = h.page_list;
      clusters = h.clusters;
      bins = h.bins;
      reserve_calls = h.reserve_calls + 1;
    } in
    if ptr == nullptr then (nullptr, h1) else (ptr, make_cluster cfg h1 ptr)

-- A cluster that is not null, committed when it was unused
abbrev pub committed : ℕ × Heap → ℕ × Heap
committed r =
    if r.0 == nullptr
    then r
    else if r.1.memory cluster_state r.0 == unused
    then (r.0, write_field r.1 cluster_state r.0 in_use)
    else r

unfoldable pub cluster_cache_fetch : Reserve → Config → Heap → ℕ × Heap
cluster_cache_fetch reserve cfg h =
    let popped = cluster_cache_pop h in
    let new = cluster_alloc reserve cfg popped.1 in
    committed (if popped.0 == nullptr then new else popped)
