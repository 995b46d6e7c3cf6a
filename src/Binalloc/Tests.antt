-- ===== src/Binalloc/Tests.antt =====
-- Runs of benchmarks/binalloc on small heaps, and the theorems at them.
use prototype_bundle.Prelude.{
  ◌-◌, ◌/◌, ◌≤◌, ◌<◌, ◌≡◌, ◌==◌, [], ◌∷◌, true, arith, refl, if◌then◌else◌,
}
use prototype_bundle.Binalloc.Word.{bit_length, word_and}
use prototype_bundle.Binalloc.Config.{
  make_config, bin_index, bin_index_max_size, bin_offset_count, count_powers_of_two,
}
use prototype_bundle.Binalloc.Config.Laws.{bin_index_lem}
use prototype_bundle.Binalloc.Address.{align_down, next_multiple_of, is_multiple_of}
use prototype_bundle.Binalloc.Stack.{NextFields, Stack, format_stack}
use prototype_bundle.Binalloc.Stack.Chain.{IsChain, Holds, addresses}
use prototype_bundle.Binalloc.Stack.Format.{format_stack_lem}

-- Pages of 4096 bytes have the bins of 16, 32, ..., 1024 bytes, and one more.
four_kib : (make_config 4096).bin_count ≡ 8
unfolding count_powers_of_two bin_offset_count bit_length
four_kib = refl

bin_index_of_100 : bin_index (make_config 4096) 100 ≡ 3
unfolding bin_index bin_offset_count bit_length
bin_index_of_100 = refl

bin_index_lem_example :
    (100 ≤ bin_index_max_size (make_config 4096) (bin_index (make_config 4096) 100))
    × (0 < bin_index (make_config 4096) 100
        → bin_index_max_size (make_config 4096) (bin_index (make_config 4096) 100 - 1) < 100)
bin_index_lem_example = bin_index_lem 4096 100 (omega arith) (omega arith)

align_down_100 : align_down 100 16 ≡ 96
unfolding align_down word_and
align_down_100 = refl

rounded_100 : next_multiple_of 100 24 ≡ 120
unfolding next_multiple_of
rounded_100 = refl

is_multiple : is_multiple_of 96 24 ≡ true
unfolding is_multiple_of
is_multiple = refl

-- A stack of the nodes 8 and 16, and the chain of 24 and 32 beside it
abbrev links : NextFields
links at = if at == 8 then 16 else if at == 24 then 32 else 0

abbrev two_nodes : Stack
two_nodes = record { next = links; head = 8 }

two_nodes-Holds : Holds two_nodes (8 ∷ 16 ∷ [])
unfolding IsChain
two_nodes-Holds = (refl, ground arith, (refl, ground arith, refl))

links-IsChain : IsChain links 24 (24 ∷ []) 32
unfolding IsChain
links-IsChain = (refl, ground arith, refl)

format_stack_lem_example : Holds (format_stack links 64 50 16) (addresses 64 16 (50 / 16))
format_stack_lem_example = format_stack_lem links 64 50 16 (omega arith) (omega arith)
