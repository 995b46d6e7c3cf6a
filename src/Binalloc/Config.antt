-- ===== src/Binalloc/Config.antt =====
-- `config_t` of benchmarks/binalloc/config.cpp: the sizes of the allocator, from the size of a page,
-- and the bin of a block size.
pub mod Laws
use prototype_bundle.Prelude.{ℕ, ◌+◌, ◌-◌, ◌*◌, ◌/◌, ◌%◌, ◌^◌, Bool, ltb, leb, max, if◌then◌else◌}
use prototype_bundle.Binalloc.Word.{bit_length, countl_zero, has_single_bit}

-- `bin_offset_count`: `neg_bits - leading_zeros`, where `leading_zeros` has been counted down by one
-- unless the size is a power of two.
unfoldable pub bin_offset_count : ℕ → ℕ
bin_offset_count size = if has_single_bit size then 63 - countl_zero size else 64 - countl_zero size

-- `std::ceil(std::log2(x))` and `std::floor(std::log2(x))` for a 32-bit `x`, which a `double` gives
-- exactly
abbrev pub ceil_log2 : ℕ → ℕ
ceil_log2 x = bin_offset_count x

abbrev pub floor_log2 : ℕ → ℕ
floor_log2 x = bit_length 64 x - 1

unfoldable pub count_powers_of_two : ℕ → ℕ → ℕ
count_powers_of_two lhv rhv =
    if leb (ceil_log2 lhv) (floor_log2 rhv) then floor_log2 rhv - ceil_log2 lhv + 1 else 0

pub record Config : Type 0 where
  pub page_size : ℕ
  pub page_meta_size : ℕ
  pub page_min_block_size : ℕ
  pub page_max_block_size : ℕ
  pub cluster_page_count : ℕ
  pub cluster_page_block_size : ℕ
  pub cluster_size : ℕ
  pub bin_count : ℕ
  pub bin_offset : ℕ

-- The constructor; the members are `std::uint32_t`.
abbrev pub make_config : ℕ → Config
make_config page_size =
    let page_meta_size : ℕ = 32 in
    let page_min_block_size : ℕ = 16 in
    let page_max_block_size = page_size / 4 in
    let cluster_page_count = (page_size / page_meta_size + 2 ^ 32 - 1) % 2 ^ 32 in
    record {
      page_size = page_size;
      page_meta_size = page_meta_size;
      page_min_block_size = page_min_block_size;
      page_max_block_size = page_max_block_size;
      cluster_page_count = cluster_page_count;
      cluster_page_block_size = cluster_page_count * page_size % 2 ^ 32;
      cluster_size = (cluster_page_count + 1) * page_size % 2 ^ 32;
      bin_count = count_powers_of_two page_min_block_size page_max_block_size + 1;
      bin_offset = bin_offset_count page_min_block_size;
    }

abbrev pub no_bin : ℕ
no_bin = 2 ^ 64 - 1

-- `std::max<int>(bin_offset_count(size) - bin_offset, 0)`
unfoldable pub bin_index : Config → ℕ → ℕ
bin_index c size =
    if ltb c.page_max_block_size size then no_bin else bin_offset_count size - c.bin_offset

-- `1 << (index + bin_offset)`, for a sum below 31
unfoldable pub bin_index_max_size : Config → ℕ → ℕ
bin_index_max_size c index = 2 ^ (index + c.bin_offset)

pub bin_object_count : Config → ℕ → ℕ
bin_object_count c index = c.page_size / bin_index_max_size c index
