-- ===== src/Binalloc/Address.antt =====
-- The addresses of benchmarks/binalloc/utils.h: rounding, and `address_meta`, the cluster and the page
-- of an address.
pub mod Laws
use prototype_bundle.Prelude.{ℕ, ◌+◌, ◌-◌, ◌*◌, ◌/◌, ◌%◌, ◌^◌, Bool, ◌==◌}
use prototype_bundle.Binalloc.Word.{word_and, word_not}
use prototype_bundle.Binalloc.Config.{Config}

unfoldable pub is_multiple_of : ℕ → ℕ → Bool
is_multiple_of value multiple = value % multiple == 0

-- The words are `std::size_t`.
unfoldable pub next_multiple_of : ℕ → ℕ → ℕ
next_multiple_of value multiplier =
    (value + multiplier + 2 ^ 64 - 1) % 2 ^ 64 / multiplier * multiplier % 2 ^ 64

-- `~(alignment - 1)`
abbrev pub alignment_mask : ℕ → ℕ
alignment_mask alignment = word_not 64 ((alignment + 2 ^ 64 - 1) % 2 ^ 64)

unfoldable pub align_down : ℕ → ℕ → ℕ
align_down address alignment = word_and 64 address (alignment_mask alignment)

unfoldable pub align_up : ℕ → ℕ → ℕ
align_up address alignment =
    word_and 64 ((address + alignment + 2 ^ 64 - 1) % 2 ^ 64) (alignment_mask alignment)

unfoldable pub align_up_exclusive : ℕ → ℕ → ℕ
align_up_exclusive address alignment =
    word_and 64 ((address + alignment) % 2 ^ 64) (alignment_mask alignment)

pub record AddressMeta : Type 0 where
  pub cluster : ℕ
  pub page : ℕ
  pub page_meta : ℕ
  pub page_index : ℕ

-- `address_meta(cluster_address, page_index)`
abbrev pub indexed_meta : Config → ℕ → ℕ → AddressMeta
indexed_meta cfg cluster_address page_index = record {
  cluster = cluster_address;
  page = (cluster_address + cfg.page_size * (page_index + 1) % 2 ^ 32) % 2 ^ 64;
  page_meta = (cluster_address + cfg.page_meta_size) % 2 ^ 64;
  page_index = page_index;
}

-- `address_meta(address)`
unfoldable pub address_meta : Config → ℕ → AddressMeta
address_meta cfg address =
    let cluster_address = align_down address cfg.cluster_size in
    indexed_meta cfg cluster_address ((address - cluster_address) / cfg.page_size % 2 ^ 16)

-- `address_meta(pmeta)`
unfoldable pub page_address_meta : Config → ℕ → AddressMeta
page_address_meta cfg address =
    let cluster_address = align_down address cfg.cluster_size in
    indexed_meta cfg cluster_address ((address - cluster_address) / cfg.page_meta_size % 2 ^ 16)

-- `page_meta::owning`
abbrev pub owning : Config → ℕ → ℕ
owning cfg address = (address_meta cfg address).page_meta
