-- ===== src/Buddy/Tests.antt =====
-- Concrete pages of the buddy allocator.
use prototype_bundle.Prelude.{ℕ, ◌+◌, ◌≡◌, [], ◌∷◌, true, false, refl, arith}
use prototype_bundle.Buddy.{
  Page, size, make_page, register_as_used, register_as_free, find_buddy, split_blocks,
  fitting_level, allocate_at, allocate_found, allocate_level, allocated, allocate, out_of_range,
  merge, free,
}
use prototype_bundle.Binalloc.Word.{bit_length}
use prototype_bundle.Buddy.Xor.{block_size}
use prototype_bundle.Buddy.Tree.{Blocks, block, halves, whole, left_of, in_tree}
use prototype_bundle.Buddy.Moves.{
  IsTiled, make_page-IsTiled, take-IsSplit, halve-IsSplit, hold-IsTiled, IsSplit,
}
use prototype_bundle.Buddy.Allocate.{IsAllocation, allocate-IsTiled}
use prototype_bundle.Buddy.Pages.{free-allocate}

-- A page of 128 bytes, whole, and with its first half in use
abbrev small_page : Page
small_page = make_page 2

abbrev half_used : Page
half_used = register_as_free (register_as_used small_page 0 1) (0 + block_size 1) 1

half_used-IsTiled : IsTiled half_used (halves (block false) (block true))
unfolding block_size
half_used-IsTiled =
    let whole_page : IsSplit (register_as_used small_page 0 1) 2 0 whole =
      take-IsSplit small_page 2 1 0 whole (refl, refl) refl
        (λ j a. omega (arith, (make_page-IsTiled 2).chains j a)) in
    hold-IsTiled half_used 1 0 (left_of (block true) whole)
      (halve-IsSplit (register_as_used small_page 0 1) 1 0 whole whole_page) refl

allocate-IsTiled_example :
    IsAllocation half_used (halves (block false) (block true)) 0 (allocate_level half_used 0)
allocate-IsTiled_example =
    allocate-IsTiled half_used (halves (block false) (block true)) 0 (omega arith) half_used-IsTiled
      (omega arith)

-- The page of which a block of 32 bytes has been allocated
abbrev used_page : Page
used_page = split_blocks 0 0 2 (register_as_used small_page 0 0)

allocates : allocate_level small_page 0 ≡ allocated 0 used_page
unfolding allocate_level allocate_found allocate_at fitting_level
allocates = refl

free-allocate_example :
    (last : Blocks) × IsTiled (free used_page 0) last
    × ((j a : ℕ) → in_tree false j a 2 0 last ≡ in_tree false j a 2 0 (block true))
free-allocate_example =
    free-allocate small_page (block true) 0 0 used_page (omega arith) (make_page-IsTiled 2)
      (omega arith) allocates

-- The buddies of the block are free, each in the chain of its level.
chains_used : used_page.free_levels 0 ≡ 32 ∷ []
unfolding split_blocks find_buddy size
chains_used = refl

chains_freed : (free used_page 0).free_levels 2 ≡ 0 ∷ []
unfolding free merge split_blocks find_buddy size
chains_freed = refl

-- A request beyond the size of the page reads a chain that it does not have.
too_large : allocate small_page 200 ≡ out_of_range
unfolding allocate allocate_level bit_length
too_large = refl

-- From level 27 on `32U << level` is 0, and a block is its own buddy.
own_buddy : find_buddy 64 27 ≡ 64
unfolding find_buddy size
own_buddy = refl
