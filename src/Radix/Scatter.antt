-- ===== src/Radix/Scatter.antt =====
-- The moves into `swap` put every item at its place: what `swap` holds at the end are the buckets,
-- one after the other, each in the order of the items.
use prototype_bundle.Prelude.{
  ℕ, zero, suc, ◌+◌, ◌%◌, ◌≤◌, ◌<◌, ◌≡◌, ◌≢◌, ◌∙◌, sym, ap, ap₂, subst, refl, append-nil, some,
  List, [], ◌∷◌, ◌++◌, arith, ◌==◌, if◌then◌else◌, length, get_or, get_elem?, set, length-append,
  length-set, append_assoc, get_elem?-set_self, get_elem?-set_ne, get_elem?-append_left,
  get_elem?-append_last, lt→ltb, dec_lt,
}
use native.Mathlib.Nat.{mod-eq_of_lt}
use prototype_bundle.Radix.{digit, scatter}
use prototype_bundle.Radix.Digits.{
  digit-lt, size, size-cons, with_digit, with_digit-append, start, start-le_start, start-eq-length,
  buckets,
}
use prototype_bundle.Radix.Histogram.{get_or-set}

-- The list `xs` stands in `a` from `pos` on.
abbrev pub Holds : List ℕ → ℕ → List ℕ → Type 0
Holds a pos xs = (j : ℕ) → j < length xs → get_elem? a (pos + j) ≡ get_elem? xs j

Holds-append :
    (a : List ℕ) (pos : ℕ) (xs ys : List ℕ)
    → Holds a pos xs
    → Holds a (pos + length xs) ys
    → Holds a pos (xs ++ ys)
Holds-append a pos [] ys p q j lt = rw (ap (λ t. get_elem? a t) e) (q j lt)
  where
    e : pos + j ≡ pos + 0 + j
    e = omega arith
Holds-append a pos (x ∷ xs) ys p q zero lt = p zero (omega arith)
Holds-append a pos (x ∷ xs) ys p q (suc j) lt =
    ap (λ t. get_elem? a t) e ∙ Holds-append a (suc pos) xs ys tail rest j (omega arith)
  where
    e : pos + suc j ≡ suc pos + j
    e = omega arith

    tail : Holds a (suc pos) xs
    tail i h = ap (λ t. get_elem? a t) (omega arith) ∙ p (suc i) (omega arith)

    rest : Holds a (suc pos + length xs) ys
    rest i h = ap (λ t. get_elem? a t) (omega arith) ∙ q i h

Holds-eq : (a xs : List ℕ) → length a ≡ length xs → Holds a 0 xs → a ≡ xs
Holds-eq [] [] len h = refl
Holds-eq [] (x ∷ xs) len h = absurd (omega arith)
Holds-eq (y ∷ a) [] len h = absurd (omega arith)
Holds-eq (y ∷ a) (x ∷ xs) len h =
    ground (arith, h 0 (omega arith), Holds-eq a xs (omega arith) tail)
  where
    tail : Holds a 0 xs
    tail i lt =
        ap (λ t. get_elem? a t) (omega arith)
        ∙ ap (λ t. get_elem? (y ∷ a) t) {x = suc i} (omega arith)
        ∙ h (suc i) (omega arith)

module _ (limit k : ℕ) (items : List ℕ) where
  -- What the loop has done when it has moved the items `done`.
  record Placed (done h swap : List ℕ) : Type 0 where
    counters : length h ≡ 256
    room : length swap ≡ length items
    next : (e : ℕ) → e < 256 → get_or h e 0 ≡ start k items e + size k e done
    filled : (e : ℕ) → e < 256 → Holds swap (start k items e) (with_digit k e done)

  size-append : (e : ℕ) (xs ys : List ℕ) → size k e (xs ++ ys) ≡ size k e xs + size k e ys
  size-append e xs ys =
      ap length (with_digit-append k e xs ys)
      ∙ length-append (with_digit k e xs) (with_digit k e ys)

  start-suc : (e : ℕ) → start k items (suc e) ≡ start k items e + size k e items
  unfolding start
  start-suc e = refl

  module _ (done rest h swap : List ℕ) (x : ℕ) (split : done ++ x ∷ rest ≡ items)
      (p : Placed done h swap) (small : length items < limit) where
    abbrev d : ℕ
    d = digit k x

    abbrev index : ℕ
    index = get_or h d 0

    index_lem : index ≡ start k items d + size k d done
    index_lem = p.next d (digit-lt k x)

    size-split :
        (e : ℕ) → size k e items ≡ size k e done + (if d == e then 1 else 0) + size k e rest
    size-split e =
        ground (arith, ap (size k e) split, size-append e done (x ∷ rest), size-cons k e x rest)

    size-moved : (e : ℕ) → size k e (done ++ x ∷ []) ≡ size k e done + (if d == e then 1 else 0)
    unfolding with_digit
    size-moved e = ground (arith, size-append e done (x ∷ []), size-cons k e x [])

    index-lt : index < start k items (suc d)
    index-lt = ground (arith, index_lem, start-suc d, size-split d)

    index-in : index < length swap
    index-in = omega (
      arith,
      index-lt,
      start-le_start k items (suc d) 256 (digit-lt k x),
      start-eq-length k items,
      p.room,
    )

    -- The place of another moved item is another place.
    index-ne : (e j : ℕ) → e < 256 → j < size k e done → index ≢ start k items e + j
    index-ne e j lt hj = ground (
      arith,
      index_lem,
      index-lt,
      start-suc e,
      size-split e,
      start-le_start k items (suc e) d,
      start-le_start k items (suc d) e,
    )

    next_moved :
        (e : ℕ)
        → e < 256
        → get_or (set h d ((index + 1) % limit)) e 0 ≡ start k items e + size k e (done ++ x ∷ [])
    next_moved e lt = ground (
      arith,
      get_or-set h d e ((index + 1) % limit) (omega (arith, digit-lt k x, p.counters)),
      mod-eq_of_lt {n = index + 1} {m = limit} (omega (arith, index-in, p.room)),
      p.next e lt,
      size-moved e,
    )

    moved_here :
        (e j : ℕ)
        → j < size k e done + (if d == e then 1 else 0)
        → ¬ (j < size k e done)
        → get_elem? (set swap index x) (start k items e + j)
          ≡ get_elem? (with_digit k e (done ++ x ∷ [])) j
    unfolding with_digit
    moved_here e j hj new =
        ap (get_elem? (set swap index x)) place
        ∙ get_elem?-set_self swap index x index-in
        ∙ sym (get_elem?-append_last (with_digit k e done) x)
        ∙ ap₂ get_elem? (sym last) (sym end)
      where
        same : d ≡ e
        same = ground arith

        end : j ≡ size k e done
        end = ground arith

        place : start k items e + j ≡ index
        place = ground (arith, index_lem, same, end)

        last : with_digit k e (done ++ x ∷ []) ≡ with_digit k e done ++ x ∷ []
        last = ground (arith, with_digit-append k e done (x ∷ []), same)

    filled_moved :
        (e : ℕ)
        → e < 256
        → Holds (set swap index x) (start k items e) (with_digit k e (done ++ x ∷ []))
    filled_moved e lt j hj = elim (dec_lt j (size k e done)) [
      | yes old ↦
          get_elem?-set_ne swap x (index-ne e j lt old)
          ∙ p.filled e lt j old
          ∙ sym (
              ap (λ l. get_elem? l j) (with_digit-append k e done (x ∷ []))
              ∙ get_elem?-append_left (with_digit k e done) _ j old)
      | no new ↦ moved_here e j (omega (arith, hj, size-moved e)) new
    ]

    Placed-moved : Placed (done ++ x ∷ []) (set h d ((index + 1) % limit)) (set swap index x)
    Placed-moved = record {
      counters = length-set h d ((index + 1) % limit) ∙ p.counters;
      room = length-set swap index x ∙ p.room;
      next = next_moved;
      filled = filled_moved;
    }

  scatter_from :
      (rest done h swap : List ℕ)
      → done ++ rest ≡ items
      → length items < limit
      → Placed done h swap
      → (out : List ℕ) × (scatter limit k rest h swap ≡ some out)
        × (h' : List ℕ) × Placed items h' out
  unfolding scatter
  scatter_from [] done h swap split small p =
      (swap, refl, h, subst (λ t. Placed t h swap) (sym (append-nil done) ∙ split) p)
  scatter_from (x ∷ rest) done h swap split small p =
      let in_range = index-in done rest h swap x split p small in
      let moved = Placed-moved done rest h swap x split p small in
      let (out, e, h', q) =
        scatter_from rest (done ++ x ∷ []) _ _ (append_assoc done (x ∷ []) rest ∙ split) small
          moved in
      (out, rw (lt→ltb _ _ in_range) e, h', q)

  pub length-buckets : (e : ℕ) → length (buckets k items e) ≡ start k items e
  unfolding buckets start
  length-buckets zero = refl
  length-buckets (suc e) =
      length-append (buckets k items e) (with_digit k e items)
      ∙ ap (λ t. t + size k e items) (length-buckets e)

  Holds-buckets :
      (out h : List ℕ) → Placed items h out → (e : ℕ) → e ≤ 256 → Holds out 0 (buckets k items e)
  unfolding buckets
  Holds-buckets out h p zero le j lt = absurd (omega arith)
  Holds-buckets out h p (suc e) le j lt =
      Holds-append out 0 (buckets k items e) (with_digit k e items)
        (Holds-buckets out h p e (omega arith))
        (subst (λ t. Holds out t (with_digit k e items)) place (p.filled e le)) j lt
    where
      place : start k items e ≡ 0 + length (buckets k items e)
      place = omega (arith, length-buckets e)

  -- With the starts of the buckets for counters, the moves leave the joined buckets in `swap`.
  pub scatter-buckets :
      (h swap : List ℕ)
      → length h ≡ 256
      → length swap ≡ length items
      → length items < limit
      → ((e : ℕ) → e < 256 → get_or h e 0 ≡ start k items e)
      → scatter limit k items h swap ≡ some (buckets k items 256)
  unfolding with_digit
  scatter-buckets h swap counters room small starts =
      let (out, e, h', p) = scatter_from items [] h swap refl small at_first in
      e
      ∙ ap some (
          Holds-eq out (buckets k items 256)
            (omega (arith, p.room, length-buckets 256, start-eq-length k items))
            (Holds-buckets out h' p 256 (omega arith)))
    where
      at_first : Placed [] h swap
      at_first = record {
        counters = counters;
        room = room;
        next = λ e lt. omega (arith, starts e lt);
        filled = λ e lt j hj. absurd (omega arith);
      }
