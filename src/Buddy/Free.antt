-- ===== src/Buddy/Free.antt =====
-- `free` of `memory::buddy::page`.
use prototype_bundle.Prelude.{
  ℕ, zero, suc, ◌+◌, ◌-◌, ◌≤◌, ◌<◌, ◌≡◌, ◌==◌, ltb, Bool, true, false, ◌&&◌, refl, ap, subst, arith,
  ◌⊎◌, inl, inr,
}
use prototype_bundle.Buddy.{Header, Page, register_as_used, register_as_free, merge, free}
use prototype_bundle.Buddy.Xor.{block_size, block_size-pos}
use prototype_bundle.Buddy.Tree.{
  Blocks, block, halves, Context, whole, left_of, right_of, Shows, one, in_tree, in_context, plug,
  in_tree-plug, find, buddy-left, buddy-right, level-le,
}
use prototype_bundle.Buddy.Moves.{
  IsTiled, IsSplit, release-IsTiled, merge_left-IsSplit, merge_right-IsSplit,
}

-- The first header of a tree is of the level of the tree or below, and of halves below.
first-level :
    (headers : ℕ → Header) (level o : ℕ) (t : Blocks)
    → Shows headers level o t
    → (headers o).level ≤ level
first-level headers level o (block f) shown = let e = ap (λ h. h.level) shown in omega arith
first-level headers zero o (halves a b) shown = absurd shown
first-level headers (suc level) o (halves a b) shown =
    let e = first-level headers level o a shown.0 in omega arith

-- The test of `free`
abbrev is_mergeable : Header → ℕ → Bool
is_mergeable h level = h.free && (h.level == level)

and_false : (b : Bool) → (b && false) ≡ false
and_false true = refl
and_false false = refl

-- It sees the block of a buddy that is free, and no other.
mergeable-cases :
    (headers : ℕ → Header) (level o : ℕ) (t : Blocks)
    → Shows headers level o t
    → ((t ≡ block true) × (is_mergeable (headers o) level ≡ true))
      ⊎ (is_mergeable (headers o) level ≡ false)
mergeable-cases headers level o (block true) shown =
    let e : (level == level) ≡ true = ground arith in inl (refl, rw (shown, e) refl)
mergeable-cases headers level o (block false) shown = inr (rw shown refl)
mergeable-cases headers zero o (halves a b) shown = absurd shown
mergeable-cases headers (suc level) o (halves a b) shown =
    let below = first-level headers level o a shown.0 in
    let e : ((headers o).level == suc level) ≡ false = ground arith in
    inr (rw e (and_false (headers o).free))

-- The tree after `free`: the blocks in use are those that stand around the block.
abbrev IsMerged : Page → Page → ℕ → ℕ → Context → Type 0
IsMerged p after level o around =
    (t : Blocks) × IsTiled after t
    × ((j a : ℕ) → in_tree false j a p.top_level 0 t ≡ in_context false j a level o around)

released :
    (p : Page) (level o : ℕ) (around : Context)
    → IsSplit p level o around
    → IsMerged p (register_as_free p o level) level o around
released p level o around s = (
  plug around (block true),
  release-IsTiled p level o around s,
  λ j a.
      omega
        (arith, in_tree-plug p.headers p.top_level false j a around level o (block true) s.shown),
)

merge-IsMerged :
    (left : ℕ) (p : Page) (level o : ℕ) (around : Context)
    → p.top_level ≤ 27
    → p.top_level ≡ level + left
    → IsSplit p level o around
    → IsMerged p (merge left o level p) level o around
unfolding merge
merge-IsMerged zero p level o around small top s = released p level o around s
merge-IsMerged (suc left) p level o whole small top s = absurd (let e = s.shown.0 in omega arith)
merge-IsMerged (suc left) p level o (left_of b around) small top s =
    let e = buddy-left p.headers p.top_level b around level o small s.shown in
    let after : ltb (o + block_size level) o ≡ false = ground arith in
    rw e (elim (mergeable-cases p.headers level (o + block_size level) b s.shown.0) [
      | inl (free_half, test) ↦
          let s2 = subst (λ x. IsSplit p level o (left_of x around)) free_half s in
          let (t, tiled, counted) =
            merge-IsMerged left (register_as_used p (o + block_size level) level) (suc level) o
              around small (omega arith) (merge_left-IsSplit p level o around s2) in
          rw (test, after, free_half) (t, tiled, λ j a. omega (arith, counted j a))
      | inr test ↦ rw test (released p level o (left_of b around) s)
    ])
merge-IsMerged (suc left) p level o (right_of b around) small top s =
    let e = buddy-right p.headers p.top_level b around level o small s.shown in
    let inside = s.shown.0 in
    let before : ltb (o - block_size level) o ≡ true = ground (arith, block_size-pos level) in
    rw e (elim (mergeable-cases p.headers level (o - block_size level) b s.shown.1) [
      | inl (free_half, test) ↦
          let s2 = subst (λ x. IsSplit p level o (right_of x around)) free_half s in
          let (t, tiled, counted) =
            merge-IsMerged left (register_as_used p (o - block_size level) level) (suc level)
              (o - block_size level) around small (omega arith)
              (merge_right-IsSplit p level o around s2) in
          rw (test, before, free_half) (t, tiled, λ j a. omega (arith, counted j a))
      | inr test ↦ rw test (released p level o (right_of b around) s)
    ])

pub free-IsTiled :
    (p : Page) (t : Blocks) (h level : ℕ)
    → p.top_level ≤ 27
    → IsTiled p t
    → 0 < in_tree false level h p.top_level 0 t
    → (after : Blocks) × IsTiled (free p h) after
      × ((j a : ℕ)
          → in_tree false j a p.top_level 0 after + one false j a false level h
            ≡ in_tree false j a p.top_level 0 t)
unfolding free
free-IsTiled p t h level small tiled used =
    let r =
      find p.headers p.top_level false level h p.top_level 0 t whole tiled.shown (refl, refl)
        used in
    let below = level-le p.headers p.top_level level h r.context r.shown in
    let s : IsSplit p level h r.context = record {
      shown = r.shown;
      chains = λ j a. omega (arith, tiled.chains j a, r.counted true j a);
    } in
    let (after, tiled_after, counted) =
      merge-IsMerged (p.top_level - level) p level h r.context small (omega arith) s in
    rw (ap (λ x. x.level) r.here)
      (after, tiled_after, λ j a. omega (arith, counted j a, r.counted false j a))
