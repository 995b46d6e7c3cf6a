-- ===== src/Buddy/Allocate.antt =====
-- `allocate` of `memory::buddy::page`.
use prototype_bundle.Prelude.{
  ℕ, zero, suc, ◌+◌, ◌-◌, ◌≤◌, ◌<◌, ◌≡◌, ◌≢◌, ltb, Bool, true, false, List, [], ◌∷◌, Option, none,
  some, Option-cases, refl, ◌∙◌, sym, ap, subst, arith, ◌⊎◌, inl, inr, count, count-nil, count-cons,
  dec_lt, ◌==◌,
}
use prototype_bundle.Buddy.{
  Page, find_buddy, register_as_used, register_as_free, unless_empty, fitting_level, split_blocks,
  Allocated, out_of_range, out_of_memory, allocated, allocate_at, allocate_found, allocate_level,
}
use prototype_bundle.Buddy.Xor.{block_size, block_size-pos, find_buddy-left}
use prototype_bundle.Buddy.Tree.{
  Blocks, block, halves, Context, whole, left_of, header, one, in_tree, in_context, plug,
  in_tree-plug, find, Aligned, level-le,
}
use prototype_bundle.Buddy.Moves.{
  IsTiled, IsSplit, halve-IsSplit, take-IsSplit, hold-IsTiled, with_header-other,
}

list_cases : (l : List ℕ) → (l ≡ []) ⊎ ((h : ℕ) × (chain : List ℕ) × (l ≡ h ∷ chain))
list_cases [] = inl refl
list_cases (h ∷ chain) = inr (h, chain, refl)

fitting_level-empty :
    (free_levels : ℕ → List ℕ) (left level : ℕ)
    → free_levels level ≡ []
    → fitting_level free_levels (suc left) level ≡ fitting_level free_levels left (suc level)
unfolding fitting_level
fitting_level-empty free_levels left level e =
    ap (λ c. unless_empty c level (fitting_level free_levels left (suc level))) e

fitting_level-filled :
    (free_levels : ℕ → List ℕ) (left level h : ℕ) (chain : List ℕ)
    → free_levels level ≡ h ∷ chain
    → fitting_level free_levels (suc left) level ≡ some level
unfolding fitting_level
fitting_level-filled free_levels left level h chain e =
    ap (λ c. unless_empty c level (fitting_level free_levels left (suc level))) e

some-inj : {a b : ℕ} → Option.some a ≡ some b → a ≡ b
some-inj q = cc

some-none : {a : ℕ} → Option.some a ≢ none
some-none q = cc

fitting_level-spent :
    (free_levels : ℕ → List ℕ) (level found : ℕ) → fitting_level free_levels zero level ≢ some found
unfolding fitting_level
fitting_level-spent free_levels level found e = cc

-- What the search finds is the level of a chain with a block,
fitting_level-some :
    (free_levels : ℕ → List ℕ) (left level found : ℕ)
    → fitting_level free_levels left level ≡ some found
    → (level ≤ found) × ((h : ℕ) × (chain : List ℕ) × (free_levels found ≡ h ∷ chain))
fitting_level-some free_levels zero level found e =
    absurd (fitting_level-spent free_levels level found e)
fitting_level-some free_levels (suc left) level found e = elim (list_cases (free_levels level)) [
  | inl none_here ↦
      let r =
        fitting_level-some free_levels left (suc level) found
          (sym (fitting_level-empty free_levels left level none_here) ∙ e) in
      (omega (arith, r.0), r.1)
  | inr (h, chain, here) ↦
      let found_here : level ≡ found =
        some-inj (sym (fitting_level-filled free_levels left level h chain here) ∙ e) in
      (omega arith, (h, chain, ap free_levels (sym found_here) ∙ here))
]

-- and it finds none only when no chain from the level on has any.
fitting_level-none :
    (free_levels : ℕ → List ℕ) (left level k : ℕ)
    → fitting_level free_levels left level ≡ none
    → k < left
    → free_levels (level + k) ≡ []
fitting_level-none free_levels zero level k e lt = absurd (omega arith)
fitting_level-none free_levels (suc left) level zero e lt = elim (list_cases (free_levels level)) [
  | inl none_here ↦ let e0 : level + 0 ≡ level = omega arith in rw e0 none_here
  | inr (h, chain, here) ↦
      absurd (some-none (sym (fitting_level-filled free_levels left level h chain here) ∙ e))
]
fitting_level-none free_levels (suc left) level (suc k) e lt =
    elim (list_cases (free_levels level)) [
      | inl none_here ↦
          let e1 : level + suc k ≡ suc level + k = omega arith in
          let rest = sym (fitting_level-empty free_levels left level none_here) ∙ e in
          rw e1 (fitting_level-none free_levels left (suc level) k rest (omega arith))
      | inr (h, chain, here) ↦
          absurd (some-none (sym (fitting_level-filled free_levels left level h chain here) ∙ e))
    ]

-- A split leaves the block at the expected level, and the blocks in use around it.
IsCarved : Page → Page → ℕ → ℕ → ℕ → Context → Type 0
IsCarved p after expected level h around =
    (inner : Context) × IsSplit after expected h inner
    × (after.headers h ≡ header false expected)
    × ((j a : ℕ) → in_context false j a expected h inner ≡ in_context false j a level h around)

split_blocks-IsCarved :
    (down : ℕ) (p : Page) (expected h : ℕ) (around : Context)
    → p.top_level ≤ 27
    → IsSplit p (expected + down) h around
    → p.headers h ≡ header false expected
    → IsCarved p (split_blocks h expected down p) expected (expected + down) h around
unfolding split_blocks IsCarved
split_blocks-IsCarved zero p expected h around small s held =
    let e : expected + 0 ≡ expected = omega arith in
    (
      around,
      subst (λ l. IsSplit p l h around) e s,
      held,
      λ j a. ap (λ l. in_context false j a l h around) (sym e),
    )
split_blocks-IsCarved (suc down) p expected h around small s held =
    let level = expected + down in
    let e : expected + suc down ≡ suc level = omega arith in
    let s1 = subst (λ l. IsSplit p l h around) e s in
    let low = level-le p.headers p.top_level (suc level) h around s1.shown in
    let (m, aligned) = Aligned p.headers p.top_level around (suc level) h s1.shown in
    let buddy : find_buddy h level ≡ h + block_size level =
      ap (λ x. find_buddy x level) aligned
      ∙ find_buddy-left level m (omega arith)
      ∙ ap (λ x. x + block_size level) (sym aligned) in
    let p1 = register_as_free p (h + block_size level) level in
    let held1 : p1.headers h ≡ header false expected =
      with_header-other (h + block_size level) (header true level) p.headers h
        (λ q. omega (arith, block_size-pos level))
      ∙ held in
    let (inner, split, held2, counted) =
      split_blocks-IsCarved down p1 expected h (left_of (block true) around) small
        (halve-IsSplit p level h around s1) held1 in
    subst
      (λ b.
        IsCarved p (split_blocks h expected down (register_as_free p b level)) expected
          (expected + suc down) h around)
      (sym buddy)
      (
        inner,
        split,
        held2,
        λ j a. omega (arith, counted j a, ap (λ l. in_context false j a l h around) e),
      )

-- No tree has a block above its own level.
in_tree-above : (f : Bool) (j a level o : ℕ) (t : Blocks) → level < j → in_tree f j a level o t ≡ 0
in_tree-above true j a level o (block true) lt = ground arith
in_tree-above true j a level o (block false) lt = refl
in_tree-above false j a level o (block true) lt = refl
in_tree-above false j a level o (block false) lt = ground arith
in_tree-above f j a zero o (halves x y) lt = refl
in_tree-above f j a (suc level) o (halves x y) lt = omega (
  arith,
  in_tree-above f j a level o x (omega arith),
  in_tree-above f j a level (o + block_size level) y (omega arith),
)

-- What `allocate` comes to on a page with the tree `t`: a block of the expected level, which is in use
-- beside those that were, on a page that is tiled again; or no memory, where no free block is of the
-- expected level or above.
unfoldable pub IsAllocation : Page → Blocks → ℕ → Allocated → Type 0
IsAllocation p t expected out_of_range = ⊥
IsAllocation p t expected out_of_memory =
    (k a : ℕ) → in_tree true (expected + k) a p.top_level 0 t ≡ 0
IsAllocation p t expected (allocated h after) =
    (after_tree : Blocks) × IsTiled after after_tree
    × (after.top_level ≡ p.top_level)
    × ((j a : ℕ)
        → in_tree false j a p.top_level 0 after_tree
          ≡ one false j a false expected h + in_tree false j a p.top_level 0 t)

top_level-split_blocks :
    (h expected down : ℕ) (p : Page) → (split_blocks h expected down p).top_level ≡ p.top_level
unfolding split_blocks
top_level-split_blocks h expected zero p = refl
top_level-split_blocks h expected (suc down) p = top_level-split_blocks h expected down _

allocate_at-IsAllocation :
    (p : Page) (t : Blocks) (expected level h : ℕ) (chain : List ℕ)
    → p.top_level ≤ 27
    → IsTiled p t
    → expected ≤ level
    → p.free_levels level ≡ h ∷ chain
    → IsAllocation p t expected (allocate_at p expected level (h ∷ chain))
unfolding allocate_at IsAllocation IsCarved
allocate_at-IsAllocation p t expected level h chain small tiled le first =
    let listed : 0 < count h (p.free_levels level) =
      rw first (ground (arith, count-cons h h chain)) in
    let r =
      find p.headers p.top_level true level h p.top_level 0 t whole tiled.shown (refl, refl)
        (omega (arith, listed, tiled.chains level h)) in
    let down = level - expected in
    let e : level ≡ expected + down = omega arith in
    let p1 = register_as_used p h expected in
    let taken =
      take-IsSplit p level expected h r.context r.shown r.here
        (λ j a. omega (arith, tiled.chains j a, r.counted true j a)) in
    let held : p1.headers h ≡ header false expected =
      (let q : (h == h) ≡ true = ground arith in rw q refl) in
    let (inner, split, held2, counted) =
      split_blocks-IsCarved down p1 expected h r.context small
        (subst (λ l. IsSplit p1 l h r.context) e taken) held in
    let after = split_blocks h expected down p1 in
    let top = top_level-split_blocks h expected down p1 in
    (
      plug inner (block false),
      hold-IsTiled after expected h inner split held2,
      top,
      λ j a. omega (
        arith,
        counted j a,
        r.counted false j a,
        ap (λ l. in_tree false j a l 0 (plug inner (block false))) top,
        ap (λ l. in_context false j a l h r.context) e,
        in_tree-plug after.headers after.top_level false j a inner expected h (block false)
            split.shown,
      ),
    )

-- `allocate` of a size whose level the page has, of a page of 4 GiB at most, that is, with a top level
-- of 27 at most, that is tiled by blocks with every free
-- block once in the chain of its level, returns a block of that level, which is in use beside those
-- that were, and leaves the page tiled so; and it throws only where no block of that level or above is
-- free.
pub allocate-IsTiled :
    (p : Page) (t : Blocks) (expected : ℕ)
    → p.top_level ≤ 27
    → IsTiled p t
    → expected ≤ p.top_level
    → IsAllocation p t expected (allocate_level p expected)
unfolding allocate_level allocate_found IsAllocation
allocate-IsTiled p t expected small tiled le =
    let left = suc p.top_level - expected in
    let in_range : ltb p.top_level expected ≡ false = ground arith in
    rw in_range (elim (Option-cases (fitting_level p.free_levels left expected)) [
      | inl e ↦ rw e (λ k a. elim (dec_lt k left) [
        | yes lt ↦
            let nothing = fitting_level-none p.free_levels left expected k e lt in
            omega (arith, tiled.chains (expected + k) a, ap (count a) nothing, count-nil a)
        | no above ↦ in_tree-above true (expected + k) a p.top_level 0 t (omega arith)
      ])
      | inr (level, e) ↦
          let (from, (h, chain, first)) = fitting_level-some p.free_levels left expected level e in
          rw (e, first) (allocate_at-IsAllocation p t expected level h chain small tiled from first)
    ])
