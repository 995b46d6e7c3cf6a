-- ===== src/Binalloc/Heap.antt =====
-- The state of the allocator of benchmarks/binalloc, and the results of its calls.
pub mod Clusters
pub mod Pages
pub mod Bins
pub mod Laws
pub mod Allocation
pub mod Flow
pub mod Making
use prototype_bundle.Prelude.{ℕ, ◌+◌, ◌-◌, ◌*◌, ◌/◌, ◌%◌, ◌^◌, Bool, leb, ◌==◌, if◌then◌else◌}
use prototype_bundle.Binalloc.Config.{
  Config, no_bin, bin_index, bin_index_max_size, bin_object_count,
}
use prototype_bundle.Binalloc.Address.{address_meta, AddressMeta, owning}
use prototype_bundle.Binalloc.Stack.{nullptr, Stack, format_stack}
use prototype_bundle.Binalloc.Memory.{
  Field, Memory, store, with_next, link_next, page_prev, page_free_list, page_used, page_bin_index,
  page_is_tethered, cluster_free_list, cluster_used, cluster_state, unused, in_use, untethered,
}
use prototype_bundle.Binalloc.PageList.{PageCacheBin, detach, push_page, pop_page}

-- The objects' members, `page_cache::free_list`, `cluster_cache::free_list`, the bins of the thread,
-- and how often `reserve` has been called
pub record Heap : Type 0 where
  pub memory : Memory
  pub page_list : ℕ
  pub clusters : ℕ
  pub bins : ℕ → ℕ
  pub reserve_calls : ℕ

-- What a call does: return, throw `std::invalid_argument`, or dereference `nullptr`
pub data CallResult {ℓ} (A : Type ℓ) : Type ℓ where
  returned : A → CallResult A
  thrown : CallResult A
  dereferenced_null : CallResult A

abbrev pub with_memory : Heap → Memory → Heap
with_memory h m = record {
  memory = m;
  page_list = h.page_list;
  clusters = h.clusters;
  bins = h.bins;
  reserve_calls = h.reserve_calls;
}

abbrev pub with_page_list : Heap → ℕ → Heap
with_page_list h l = record {
  memory = h.memory;
  page_list = l;
  clusters = h.clusters;
  bins = h.bins;
  reserve_calls = h.reserve_calls;
}

abbrev pub with_clusters : Heap → ℕ → Heap
with_clusters h l = record {
  memory = h.memory;
  page_list = h.page_list;
  clusters = l;
  bins = h.bins;
  reserve_calls = h.reserve_calls;
}

abbrev pub with_bin : Heap → ℕ → ℕ → Heap
with_bin h index head = record {
  memory = h.memory;
  page_list = h.page_list;
  clusters = h.clusters;
  bins = λ i. if i == index then head else h.bins i;
  reserve_calls = h.reserve_calls;
}

abbrev pub write_field : Heap → Field → ℕ → ℕ → Heap
write_field h f object value = with_memory h (store h.memory f object value)
