-- ===== src/Tmap/Split.antt =====
-- The two parts that `seq_split` makes of a sequence.
use prototype_bundle.Prelude.{
  ℕ, zero, suc, ◌+◌, ◌-◌, ◌/◌, ◌≤◌, ◌≡◌, ◌∙◌, sym, ap, ap₂, refl, false, ◌==◌, if◌then◌else◌, List,
  [], ◌∷◌, ◌++◌, arith, ltb, length, take, drop, Shorter, append-nil, append_assoc, length-append,
  length-take, length-drop, take-append-drop, Bool-cases, inl, inr,
}
use prototype_bundle.Tmap.{seq_pop_rest, seq_split_left, seq_split_right, split_first, split_second}

module _ {ℓ} {A : Type ℓ} where
  seq_split_left-take :
      (n : ℕ) (left right : List A)
      → length left ≤ n
      → seq_split_left n left right ≡ left ++ take (n - length left) right
  unfolding seq_split_left
  seq_split_left-take n left [] h =
      sym (ap (λ t. left ++ t) (none_left (n - length left)) ∙ append-nil left)
    where
      none_left : (m : ℕ) → take {A = A} m [] ≡ []
      none_left zero = refl
      none_left (suc m) = refl
  seq_split_left-take n left (top ∷ right) h = elim (Bool-cases (ltb (length left) n)) [
    | inl more ↦
        let len : length (left ++ top ∷ []) ≡ length left + 1 = length-append left (top ∷ []) in
        let step : n - length left ≡ suc (n - length (left ++ top ∷ [])) = ground (arith, len) in
        rw more (
          seq_split_left-take n (left ++ top ∷ []) right (ground (arith, len))
          ∙ append_assoc left (top ∷ []) _
          ∙ ap (λ t. left ++ take t (top ∷ right)) (sym step))
    | inr full ↦
        let stop : n - length left ≡ 0 = ground arith in rw (full, stop) (sym (append-nil left))
  ]

  seq_split_right-drop :
      (n : ℕ) (top : A) (right : List A)
      → n ≤ length right
      → seq_split_right n (top ∷ right) ≡ drop (suc (length right) - n) (top ∷ right)
  unfolding seq_split_right
  seq_split_right-drop n top [] h =
      let one : suc (length {A = A} []) - n ≡ 1 = omega arith in
      let stop : ltb n (length {A = A} []) ≡ false = ground arith in rw (one, stop)
  seq_split_right-drop n top (x ∷ right) h = elim (Bool-cases (ltb n (length (x ∷ right)))) [
    | inl more ↦
        let step : suc (length (x ∷ right)) - n ≡ suc (suc (length right) - n) = ground arith in
        rw (more, step) (seq_split_right-drop n x right (ground arith))
    | inr last ↦ let one : suc (length (x ∷ right)) - n ≡ 1 = ground arith in rw (last, one)
  ]

  pub split_two :
      (x y : A) (zs : List A)
      → let items = x ∷ y ∷ zs in
        (split_first items ≡ take (length items / 2) items)
        × (split_second items ≡ drop (length items / 2) items)
  unfolding split_first split_second
  split_two x y zs =
      let items = x ∷ y ∷ zs in
      let whole : length items / 2 - 0 ≡ length items / 2 = omega arith in
      let rest : suc (length (y ∷ zs)) - (length items - length items / 2) ≡ length items / 2 =
        omega arith in
      (
        seq_split_left-take (length items / 2) [] items (omega arith)
            ∙ ap (λ t. take t items) whole,
        seq_split_right-drop (length items - length items / 2) x (y ∷ zs) (omega arith)
            ∙ ap (λ t. drop t items) rest,
      )

  -- `seq_split` gives the first half of the items, rounded down, and, of any number of items but one,
  -- the others; of one item both of its parts are empty.
  pub split_lem :
      (items : List A)
      → (split_first items ≡ take (length items / 2) items)
        × (split_second items ≡ (if length items == 1 then [] else drop (length items / 2) items))
  unfolding split_first split_second seq_split_left seq_split_right
  split_lem [] = (refl, refl)
  split_lem (x ∷ []) = (refl, refl)
  split_lem (x ∷ y ∷ zs) =
      let many : (length (x ∷ y ∷ zs) == 1) ≡ false = ground arith in rw many (split_two x y zs)

  module _ (x y : A) (zs : List A) where
    abbrev items : List A
    items = x ∷ y ∷ zs

    pub split-append : split_first items ++ split_second items ≡ items
    split-append =
        let (first, second) = split_two x y zs in
        ap₂ ◌++◌ first second ∙ take-append-drop (length items / 2) items

    pub length-split_first : length (split_first items) ≡ length items / 2
    length-split_first =
        omega (arith, ap length (split_two x y zs).0, length-take (length items / 2) items)

    pub length-split_second : length (split_second items) ≡ length items - length items / 2
    length-split_second =
        omega (arith, ap length (split_two x y zs).1, length-drop (length items / 2) items)

  length-seq_pop_rest : (xs : List A) → length (seq_pop_rest xs) ≡ length xs - 1
  length-seq_pop_rest [] = omega arith
  length-seq_pop_rest (x ∷ xs) = omega arith

  pub length-split_rest :
      (x y : A) (zs : List A)
      → suc (length (seq_pop_rest (split_second (x ∷ y ∷ zs))))
        ≡ length (x ∷ y ∷ zs) - length (x ∷ y ∷ zs) / 2
  length-split_rest x y zs =
      omega (arith, length-split_second x y zs, length-seq_pop_rest (split_second (x ∷ y ∷ zs)))

  pub Shorter-first : (x y : A) (zs : List A) → Shorter (split_first (x ∷ y ∷ zs)) (x ∷ y ∷ zs)
  Shorter-first x y zs = omega (arith, length-split_first x y zs)

  pub Shorter-rest :
      (x y : A) (zs : List A) → Shorter (seq_pop_rest (split_second (x ∷ y ∷ zs))) (x ∷ y ∷ zs)
  Shorter-rest x y zs = omega (arith, length-split_rest x y zs)
