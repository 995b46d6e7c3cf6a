-- ===== src/Buddy/Pages.antt =====
-- `allocate` and `free` of `memory::buddy::page` together.
use prototype_bundle.Prelude.{ℕ, ◌≤◌, ◌<◌, ◌≡◌, false, subst, arith, ap}
use prototype_bundle.Buddy.{Page, allocated, allocate_level, free}
use prototype_bundle.Buddy.Tree.{Blocks, one, in_tree}
use prototype_bundle.Buddy.Moves.{IsTiled}
use prototype_bundle.Buddy.Allocate.{IsAllocation, allocate-IsTiled}
use prototype_bundle.Buddy.Free.{free-IsTiled}

one-itself : (level h : ℕ) → one false level h false level h ≡ 1
one-itself level h = ground arith

-- When `allocate` has returned a block of a page that is tiled, with a top level of 27 at most (4 GiB), `free` of that block leaves a page that
-- is tiled, with the same blocks in use as before both.
pub free-allocate :
    (p : Page) (t : Blocks) (expected h : ℕ) (after : Page)
    → p.top_level ≤ 27
    → IsTiled p t
    → expected ≤ p.top_level
    → allocate_level p expected ≡ allocated h after
    → (last : Blocks) × IsTiled (free after h) last
      × ((j a : ℕ) → in_tree false j a p.top_level 0 last ≡ in_tree false j a p.top_level 0 t)
unfolding IsAllocation
free-allocate p t expected h after small tiled le e =
    let (middle, tiled_middle, top, counted) =
      subst (IsAllocation p t expected) e (allocate-IsTiled p t expected small tiled le) in
    let used : 0 < in_tree false expected h after.top_level 0 middle = omega (
      arith,
      counted expected h,
      one-itself expected h,
      ap (λ l. in_tree false expected h l 0 middle) top,
    ) in
    let (last, tiled_last, freed) =
      free-IsTiled after middle h expected (omega arith) tiled_middle used in
    (
      last,
      tiled_last,
      λ j a. omega (
        arith,
        counted j a,
        freed j a,
        ap (λ l. in_tree false j a l 0 middle) top,
        ap (λ l. in_tree false j a l 0 last) top,
      ),
    )
