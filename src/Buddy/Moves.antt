-- ===== src/Buddy/Moves.antt =====
-- What `register_as_free` and `register_as_used` do to the tree of a page.
use prototype_bundle.Prelude.{
  ℕ, zero, suc, ◌+◌, ◌-◌, ◌≤◌, ◌<◌, ◌≡◌, ◌≢◌, ◌==◌, true, false, if◌then◌else◌, List, [], ◌∷◌, refl,
  ◌∙◌, ap, arith, ◌⊎◌, inl, inr, count, count-nil, count-cons, ℕ_discrete, Bool-cases,
}
use prototype_bundle.Buddy.{
  Header, Page, remove, with_header, register_as_used, register_as_free, make_page,
}
use prototype_bundle.Buddy.Xor.{block_size, block_size-suc, block_size-pos}
use prototype_bundle.Buddy.Tree.{
  Blocks, block, halves, Context, whole, left_of, right_of, header, Shows, ShowsAround, one,
  in_tree, in_context, plug, Shows-plug, in_tree-plug,
}

with_header-same : (h : ℕ) (v : Header) (headers : ℕ → Header) → with_header h v headers h ≡ v
with_header-same h v headers = let e : (h == h) ≡ true = ground arith in rw e refl

pub with_header-other :
    (h : ℕ) (v : Header) (headers : ℕ → Header) (a : ℕ)
    → a ≢ h
    → with_header h v headers a ≡ headers a
with_header-other h v headers a other = let e : (a == h) ≡ false = ground arith in rw e refl

-- A header that is written outside a block leaves what is shown of it.
Shows-other :
    (h : ℕ) (v : Header) (headers : ℕ → Header) (level o : ℕ) (t : Blocks)
    → (h < o) ⊎ (o + block_size level ≤ h)
    → Shows headers level o t
    → Shows (with_header h v headers) level o t
Shows-other h v headers level o (block f) outside shown =
    with_header-other h v headers o (λ e. apart e outside) ∙ shown
  where
    apart : o ≡ h → (h < o) ⊎ (o + block_size level ≤ h) → ⊥
    apart e (inl lt) = omega arith
    apart e (inr le) = omega (arith, block_size-pos level)
Shows-other h v headers zero o (halves a b) outside shown = shown
Shows-other h v headers (suc level) o (halves a b) (inl lt) shown = (
  Shows-other h v headers level o a (inl lt) shown.0,
  Shows-other h v headers level (o + block_size level) b (inl (omega arith)) shown.1,
)
Shows-other h v headers (suc level) o (halves a b) (inr le) shown = (
  Shows-other h v headers level o a (inr (omega (arith, block_size-suc level))) shown.0,
  Shows-other h v headers level (o + block_size level) b (inr (omega (arith, block_size-suc level)))
      shown.1,
)

-- One that is written inside a block leaves what is shown around it.
ShowsAround-other :
    (h : ℕ) (v : Header) (headers : ℕ → Header) (top level o : ℕ) (around : Context)
    → o ≤ h
    → h < o + block_size level
    → ShowsAround headers top level o around
    → ShowsAround (with_header h v headers) top level o around
ShowsAround-other h v headers top level o whole from to shown = shown
ShowsAround-other h v headers top level o (left_of b around) from to (beside, above) = (
  Shows-other h v headers level (o + block_size level) b (inl to) beside,
  ShowsAround-other h v headers top (suc level) o around from (omega (arith, block_size-suc level))
      above,
)
ShowsAround-other h v headers top level o (right_of a around) from to (inside, beside, above) = (
  inside,
  Shows-other h v headers level (o - block_size level) a (inr (omega arith)) beside,
  ShowsAround-other h v headers top (suc level) (o - block_size level) around (omega arith)
      (omega (arith, block_size-suc level)) above,
)

-- The page shows the tree, and each chain holds the free blocks of its level, each once.
pub record IsTiled (p : Page) (t : Blocks) : Type 0 where
  pub shown : Shows p.headers p.top_level 0 t
  pub chains : (j a : ℕ) → count a (p.free_levels j) ≡ in_tree true j a p.top_level 0 t

-- The same but for the block of a level at an offset, which is in no chain
pub record IsSplit (p : Page) (level o : ℕ) (around : Context) : Type 0 where
  pub shown : ShowsAround p.headers p.top_level level o around
  pub chains : (j a : ℕ) → count a (p.free_levels j) ≡ in_context true j a level o around

chain-free :
    (p : Page) (h level j a : ℕ)
    → count a ((register_as_free p h level).free_levels j)
      ≡ one true j a true level h + count a (p.free_levels j)
chain-free p h level j a = elim (ℕ_discrete j level) [
  | yes here ↦
      let e : (j == level) ≡ true = ground arith in
      let at : count a (p.free_levels j) ≡ count a (p.free_levels level) =
        ap (λ l. count a (p.free_levels l)) here in
      rw e (ground (arith, at, count-cons a h (p.free_levels level)))
  | no other ↦ let e : (j == level) ≡ false = ground arith in rw e (omega arith)
]

count-remove :
    (h a : ℕ) (chain : List ℕ)
    → 0 < count h chain
    → count a (remove h chain) + (if a == h then 1 else 0) ≡ count a chain
count-remove h a [] has = absurd (omega (arith, count-nil h))
count-remove h a (n ∷ chain) has = elim (Bool-cases (n == h)) [
  | inl e ↦ rw e (ground (arith, count-cons a n chain))
  | inr e ↦
      let rest = count-remove h a chain (ground (arith, count-cons h n chain)) in
      rw e (ground (arith, rest, count-cons a n chain, count-cons a n (remove h chain)))
]

chain-used :
    (p : Page) (h level old j a : ℕ)
    → (p.headers h).level ≡ old
    → 0 < count h (p.free_levels old)
    → count a ((register_as_used p h level).free_levels j) + one true j a true old h
      ≡ count a (p.free_levels j)
chain-used p h level old j a at has = elim (ℕ_discrete j old) [
  | yes here ↦
      let e : (j == old) ≡ true = ground arith in
      let same_chain : count a (p.free_levels j) ≡ count a (p.free_levels old) =
        ap (λ l. count a (p.free_levels l)) here in
      rw (at, e) (omega (arith, same_chain, count-remove h a (p.free_levels old) has))
  | no other ↦ let e : (j == old) ≡ false = ground arith in rw (at, e) (omega arith)
]

-- A block that is in no chain is made free.
pub release-IsTiled :
    (p : Page) (level o : ℕ) (around : Context)
    → IsSplit p level o around
    → IsTiled (register_as_free p o level) (plug around (block true))
release-IsTiled p level o around s =
    let kept =
      ShowsAround-other o (header true level) p.headers p.top_level level o around (omega arith)
        (omega (arith, block_size-pos level)) s.shown in
    record {
      shown =
          Shows-plug _ p.top_level around level o (block true) kept
            (with_header-same o (header true level) p.headers);
      chains = λ j a. omega (
        arith,
        chain-free p o level j a,
        s.chains j a,
        in_tree-plug _ p.top_level true j a around level o (block true) kept,
      );
    }

-- A block that is in no chain and has the header of a block in use
pub hold-IsTiled :
    (p : Page) (level o : ℕ) (around : Context)
    → IsSplit p level o around
    → p.headers o ≡ header false level
    → IsTiled p (plug around (block false))
hold-IsTiled p level o around s held = record {
  shown = Shows-plug p.headers p.top_level around level o (block false) s.shown held;
  chains = λ j a. omega (
    arith,
    s.chains j a,
    in_tree-plug p.headers p.top_level true j a around level o (block false) s.shown,
  );
}

-- A page that is made is one free block.
pub make_page-IsTiled : (top_level : ℕ) → IsTiled (make_page top_level) (block true)
make_page-IsTiled top_level =
    release-IsTiled _ top_level 0 whole
      (record { shown = (refl, refl); chains = λ j a. count-nil a })

-- A block that is in no chain is split, and its right half made free.
pub halve-IsSplit :
    (p : Page) (level o : ℕ) (around : Context)
    → IsSplit p (suc level) o around
    → IsSplit
        (register_as_free p (o + block_size level) level)
        level
        o
        (left_of (block true) around)
halve-IsSplit p level o around s = record {
  shown = (
    with_header-same (o + block_size level) (header true level) p.headers,
    ShowsAround-other (o + block_size level) (header true level) p.headers p.top_level (suc level) o
        around (omega arith) (omega (arith, block_size-suc level, block_size-pos level)) s.shown,
  );
  chains = λ j a. omega (arith, chain-free p (o + block_size level) level j a, s.chains j a);
}

one-itself : (level h : ℕ) → one true level h true level h ≡ 1
one-itself level h = ground arith

-- A block that is in no chain is merged with its free right half,
pub merge_left-IsSplit :
    (p : Page) (level o : ℕ) (around : Context)
    → IsSplit p level o (left_of (block true) around)
    → IsSplit (register_as_used p (o + block_size level) level) (suc level) o around
merge_left-IsSplit p level o around s =
    let (beside, above) = s.shown in
    let b = o + block_size level in
    let has : 0 < count b (p.free_levels level) =
      omega (arith, s.chains level b, one-itself level b) in
    record {
      shown =
          ShowsAround-other b (header false level) p.headers p.top_level (suc level) o around
            (omega arith) (omega (arith, block_size-suc level, block_size-pos level)) above;
      chains = λ j a.
          omega
            (arith, chain-used p b level level j a (ap (λ h. h.level) beside) has, s.chains j a);
    }

-- or with its free left half.
pub merge_right-IsSplit :
    (p : Page) (level o : ℕ) (around : Context)
    → IsSplit p level o (right_of (block true) around)
    → IsSplit
        (register_as_used p (o - block_size level) level)
        (suc level)
        (o - block_size level)
        around
merge_right-IsSplit p level o around s =
    let (inside, beside, above) = s.shown in
    let b = o - block_size level in
    let has : 0 < count b (p.free_levels level) =
      omega (arith, s.chains level b, one-itself level b) in
    record {
      shown =
          ShowsAround-other b (header false level) p.headers p.top_level (suc level) b around
            (omega arith) (omega (arith, block_size-suc level, block_size-pos level)) above;
      chains = λ j a.
          omega
            (arith, chain-used p b level level j a (ap (λ h. h.level) beside) has, s.chains j a);
    }

-- A free block is taken out of its chain.
pub take-IsSplit :
    (p : Page) (level expected o : ℕ) (around : Context)
    → ShowsAround p.headers p.top_level level o around
    → p.headers o ≡ header true level
    → ((j a : ℕ)
        → count a (p.free_levels j)
          ≡ one true j a true level o + in_context true j a level o around)
    → IsSplit (register_as_used p o expected) level o around
take-IsSplit p level expected o around shown at chains =
    let has : 0 < count o (p.free_levels level) =
      omega (arith, chains level o, one-itself level o) in
    record {
      shown =
          ShowsAround-other o (header false expected) p.headers p.top_level level o around
            (omega arith) (omega (arith, block_size-pos level)) shown;
      chains = λ j a.
          omega (arith, chain-used p o expected level j a (ap (λ h. h.level) at) has, chains j a);
    }
