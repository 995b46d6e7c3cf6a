-- ===== src/Binalloc/Heap/Making.antt =====
-- `page_meta::make` with pages of 4096 bytes.
use prototype_bundle.Prelude.{
  ℕ, ◌+◌, ◌*◌, ◌^◌, ◌≤◌, ◌<◌, ◌≡◌, ◌==◌, ltb, leb, true, false, arith, refl, ◌∙◌,
}
use prototype_bundle.Binalloc.Word.{bit_length}
use prototype_bundle.Binalloc.Word.Laws.{pow-le}
use prototype_bundle.Binalloc.Config.{
  Config, make_config, bin_offset_count, count_powers_of_two, bin_index_max_size,
}
use prototype_bundle.Binalloc.Address.{address_meta}
use prototype_bundle.Binalloc.Address.Laws.{address_meta-first_page}
use prototype_bundle.Binalloc.Stack.{format_stack}
use prototype_bundle.Binalloc.Memory.{page_free_list}
use prototype_bundle.Binalloc.Heap.{Heap, returned}
use prototype_bundle.Binalloc.Heap.Pages.{make_page}

bin_offset_16 : bin_offset_count 16 ≡ 4
unfolding bin_offset_count bit_length
bin_offset_16 = refl

pub bin_count_4096 : (make_config 4096).bin_count ≡ 8
unfolding count_powers_of_two bin_offset_count bit_length
bin_count_4096 = refl

max_size-le : (index : ℕ) → index < 8 → bin_index_max_size (make_config 4096) index ≤ 4096
unfolding bin_index_max_size
max_size-le index few = rw bin_offset_16 (omega (arith, pow-le (index + 4) 11 (omega arith)))

-- Where the page has room for a block of the bin, `page_meta::make` gives the page of `address_meta`.
make_page-page :
    (cfg : Config) (h : Heap) (address index : ℕ)
    → index < cfg.bin_count
    → bin_index_max_size cfg index ≤ cfg.page_size
    → (after : Heap) × (make_page cfg h address index ≡ returned (address, after))
      × (after.memory page_free_list address ≡ (address_meta cfg address).page)
unfolding make_page format_stack
make_page-page cfg h address index bin room =
    let same : (address == address) ≡ true = ground arith in
    let known : leb cfg.bin_count index ≡ false = ground arith in
    let fits : ltb cfg.page_size (bin_index_max_size cfg index) ≡ false = ground arith in
    rw (known, fits) (_, refl, rw same refl)

-- With pages of 4096 bytes, `page_meta::make` gives each of the 127 page metas of a cluster, at an
-- address of 64 bits, for every bin that there is, the blocks of one and the same page, the one after
-- the cluster's own.
pub make_page_collides :
    (h : Heap) (m i index : ℕ)
    → m < 2 ^ 45
    → i < 127
    → index < (make_config 4096).bin_count
    → let address = m * 2 ^ 19 + 32 * (i + 1) in
      (after : Heap) × (make_page (make_config 4096) h address index ≡ returned (address, after))
      × (after.memory page_free_list address ≡ m * 2 ^ 19 + 4096)
make_page_collides h m i index small meta bin =
    let few : index < 8 = omega (arith, bin_count_4096) in
    let (after, made, page) =
      make_page-page (make_config 4096) h (m * 2 ^ 19 + 32 * (i + 1)) index bin
        (max_size-le index few) in
    (after, made, page ∙ address_meta-first_page m i small meta)
