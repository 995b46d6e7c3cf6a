-- ===== src/Buddy/Tree.antt =====
-- A page as a tree of blocks: each block is free or in use, or two halves, which are buddies.
use prototype_bundle.Prelude.{
  ℕ, zero, suc, ◌+◌, ◌-◌, ◌*◌, ◌≤◌, ◌<◌, ◌≡◌, ◌==◌, Bool, true, false, ◌&&◌, not, if◌then◌else◌,
  refl, ◌∙◌, sym, ap, subst, arith, dec_lt,
}
use prototype_bundle.Buddy.{Header, find_buddy}
use prototype_bundle.Buddy.Xor.{block_size, block_size-suc, find_buddy-left, find_buddy-right}

pub data Blocks : Type 0 where
  block : Bool → Blocks
  halves : Blocks → Blocks → Blocks

-- The way down to a block: the other half at each level, the nearest one first
pub data Context : Type 0 where
  whole : Context
  left_of : Blocks → Context → Context
  right_of : Blocks → Context → Context

abbrev pub header : Bool → ℕ → Header
header free level = record { free = free; level = level }

-- The headers show the tree at a level and an offset.
abbrev pub Shows : (ℕ → Header) → ℕ → ℕ → Blocks → Type 0
Shows headers level o (block free) = headers o ≡ header free level
Shows headers zero o (halves a b) = ⊥
Shows headers (suc level) o (halves a b) =
    Shows headers level o a × Shows headers level (o + block_size level) b

-- They show what stands around the block of a level at an offset.
abbrev pub ShowsAround : (ℕ → Header) → ℕ → ℕ → ℕ → Context → Type 0
ShowsAround headers top level o whole = (level ≡ top) × (o ≡ 0)
ShowsAround headers top level o (left_of b around) =
    Shows headers level (o + block_size level) b × ShowsAround headers top (suc level) o around
ShowsAround headers top level o (right_of a around) =
    (block_size level ≤ o)
    × Shows headers level (o - block_size level) a
    × ShowsAround headers top (suc level) (o - block_size level) around

abbrev pub same : Bool → Bool → Bool
same true b = b
same false b = not b

-- Whether the block of a level at an offset is the one of the level `j` at `a`, of the kind `f`
abbrev pub one : Bool → ℕ → ℕ → Bool → ℕ → ℕ → ℕ
one f j a g level o = if same f g && ((j == level) && (a == o)) then 1 else 0

-- How many blocks of a kind, free or in use, a tree has of the level `j` at the offset `a`
abbrev pub in_tree : Bool → ℕ → ℕ → ℕ → ℕ → Blocks → ℕ
in_tree f j a level o (block g) = one f j a g level o
in_tree f j a zero o (halves x y) = 0
in_tree f j a (suc level) o (halves x y) =
    in_tree f j a level o x + in_tree f j a level (o + block_size level) y

abbrev pub in_context : Bool → ℕ → ℕ → ℕ → ℕ → Context → ℕ
in_context f j a level o whole = 0
in_context f j a level o (left_of y around) =
    in_tree f j a level (o + block_size level) y + in_context f j a (suc level) o around
in_context f j a level o (right_of x around) =
    in_tree f j a level (o - block_size level) x
    + in_context f j a (suc level) (o - block_size level) around

abbrev pub plug : Context → Blocks → Blocks
plug whole t = t
plug (left_of b around) t = plug around (halves t b)
plug (right_of a around) t = plug around (halves a t)

doubled : (s t m o : ℕ) → t ≡ s + s → o ≡ t * m → o ≡ s * (2 * m)
doubled s t m o e at = let p : t * m ≡ (s + s) * m = ap (λ x. x * m) e in grind arith

doubled_and_one : (s t m o : ℕ) → t ≡ s + s → o ≡ t * m + s → o ≡ s * (2 * m + 1)
doubled_and_one s t m o e at = let p : t * m ≡ (s + s) * m = ap (λ x. x * m) e in grind arith

module _ (headers : ℕ → Header) (top : ℕ) where
  pub Shows-plug :
      (around : Context) (level o : ℕ) (t : Blocks)
      → ShowsAround headers top level o around
      → Shows headers level o t
      → Shows headers top 0 (plug around t)
  Shows-plug whole level o t (at, start) shown =
      subst (λ l. Shows headers l 0 t) at (subst (λ x. Shows headers level x t) start shown)
  Shows-plug (left_of b around) level o t (beside, above) shown =
      Shows-plug around (suc level) o (halves t b) above (shown, beside)
  Shows-plug (right_of a around) level o t (inside, beside, above) shown =
      let e : o ≡ (o - block_size level) + block_size level = omega arith in
      Shows-plug around (suc level) (o - block_size level) (halves a t) above
        (beside, subst (λ x. Shows headers level x t) e shown)

  pub in_tree-plug :
      (f : Bool) (j a : ℕ) (around : Context) (level o : ℕ) (t : Blocks)
      → ShowsAround headers top level o around
      → in_tree f j a top 0 (plug around t)
        ≡ in_tree f j a level o t + in_context f j a level o around
  in_tree-plug f j a whole level o t (at, start) =
      let e : in_tree f j a top 0 t ≡ in_tree f j a level o t =
        ap (λ l. in_tree f j a l 0 t) (sym at) ∙ ap (λ x. in_tree f j a level x t) (sym start) in
      omega arith
  in_tree-plug f j a (left_of b around) level o t (beside, above) =
      let rest = in_tree-plug f j a around (suc level) o (halves t b) above in omega arith
  in_tree-plug f j a (right_of x around) level o t (inside, beside, above) =
      let e : (o - block_size level) + block_size level ≡ o = omega arith in
      let moved = ap (λ y. in_tree f j a level y t) e in
      let rest = in_tree-plug f j a around (suc level) (o - block_size level) (halves x t) above in
      omega arith

  -- The context of a block of the tree
  pub record IsFound (f : Bool) (j a level o : ℕ) (t : Blocks) (around : Context) : Type 0 where
    pub context : Context
    pub shown : ShowsAround headers top j a context
    pub here : headers a ≡ header f j
    pub counted :
        (g : Bool) (k b : ℕ)
        → in_tree g k b level o t + in_context g k b level o around
          ≡ one g k b f j a + in_context g k b j a context

  one-same :
      (f g : Bool) (j a level o : ℕ) → 0 < one f j a g level o → (f ≡ g) × (j ≡ level) × (a ≡ o)
  one-same true true j a level o h = (refl, ground arith, ground arith)
  one-same false false j a level o h = (refl, ground arith, ground arith)
  one-same true false j a level o h = absurd (omega arith)
  one-same false true j a level o h = absurd (omega arith)

  pub find :
      (f : Bool) (j a level o : ℕ) (t : Blocks) (around : Context)
      → Shows headers level o t
      → ShowsAround headers top level o around
      → 0 < in_tree f j a level o t
      → IsFound f j a level o t around
  find f j a level o (block g) around shown above has =
      let (ef, ej, ea) = one-same f g j a level o has in
      let place = sym ej in
      record {
        context = around;
        shown =
            subst (λ l. ShowsAround headers top l a around) place
              (subst (λ x. ShowsAround headers top level x around) (sym ea) above);
        here = ap headers ea ∙ shown ∙ ap (λ b. header b level) (sym ef) ∙ ap (header f) place;
        counted = λ k c b.
            ap (λ x. one k c b x level o + in_context k c b level o around) (sym ef)
            ∙ ap (λ x. one k c b f x o + in_context k c b x o around) place
            ∙ ap (λ x. one k c b f j x + in_context k c b j x around) (sym ea);
      }
  find f j a zero o (halves x y) around shown above has = absurd shown
  find f j a (suc level) o (halves x y) around (left, right) above has =
      elim (dec_lt 0 (in_tree f j a level o x)) [
        | yes there ↦
            let r = find f j a level o x (left_of y around) left (right, above) there in
            record {
              context = r.context;
              shown = r.shown;
              here = r.here;
              counted = λ g k b. let e = r.counted g k b in omega arith;
            }
        | no elsewhere ↦
            let back : (o + block_size level) - block_size level ≡ o = omega arith in
            let r =
              find f j a level (o + block_size level) y (right_of x around) right
                (
                  omega arith,
                  subst (λ z. Shows headers level z x) (sym back) left,
                  subst (λ z. ShowsAround headers top (suc level) z around) (sym back) above,
                )
                (omega arith) in
            record {
              context = r.context;
              shown = r.shown;
              here = r.here;
              counted = λ g k b.
                  let e = r.counted g k b in
                  let e1 = ap (λ z. in_tree g k b level z x) back in
                  let e2 = ap (λ z. in_context g k b (suc level) z around) back in omega arith;
            }
      ]

  -- A block begins at a multiple of its size.
  pub Aligned :
      (around : Context) (level o : ℕ)
      → ShowsAround headers top level o around
      → (m : ℕ) × (o ≡ block_size level * m)
  Aligned whole level o (at, start) = (0, omega arith)
  Aligned (left_of b around) level o (beside, above) =
      let (m, e) = Aligned around (suc level) o above in
      (2 * m, doubled (block_size level) _ m o (block_size-suc level) e)
  Aligned (right_of a around) level o (inside, beside, above) =
      let (m, e) = Aligned around (suc level) (o - block_size level) above in
      let back : o ≡ (o - block_size level) + block_size level = omega arith in
      (2 * m + 1, doubled_and_one (block_size level) _ m o (block_size-suc level) (omega arith))

  pub level-le :
      (level o : ℕ) (around : Context) → ShowsAround headers top level o around → level ≤ top
  level-le level o whole shown = let e = shown.0 in omega arith
  level-le level o (left_of b around) shown =
      let e = level-le (suc level) o around shown.1 in omega arith
  level-le level o (right_of b around) shown =
      let e = level-le (suc level) (o - block_size level) around shown.2 in omega arith

  pub buddy-left :
      (b : Blocks) (around : Context) (level o : ℕ)
      → top ≤ 27
      → ShowsAround headers top level o (left_of b around)
      → find_buddy o level ≡ o + block_size level
  buddy-left b around level o small (beside, above) =
      let low = level-le (suc level) o around above in
      let (m, e) = Aligned around (suc level) o above in
      ap (λ x. find_buddy x level) e
      ∙ find_buddy-left level m (omega arith)
      ∙ ap (λ x. x + block_size level) (sym e)

  pub buddy-right :
      (a : Blocks) (around : Context) (level o : ℕ)
      → top ≤ 27
      → ShowsAround headers top level o (right_of a around)
      → find_buddy o level ≡ o - block_size level
  buddy-right a around level o small (inside, beside, above) =
      let low = level-le (suc level) (o - block_size level) around above in
      let (m, e) = Aligned around (suc level) (o - block_size level) above in
      let back : o ≡ block_size (suc level) * m + block_size level = omega arith in
      ap (λ x. find_buddy x level) back ∙ find_buddy-right level m (omega arith) ∙ sym e
