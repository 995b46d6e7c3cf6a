-- ===== src/Radix/Agreement.antt =====
-- The three sorters against one another.
use prototype_bundle.Prelude.{
  ℕ, ◌^◌, ◌<◌, ◌≡◌, ◌∙◌, sym, some, List, ltb, length, All, IsSorted-unique, Bool-cases, inl, inr,
  arith,
}
use prototype_bundle.Radix.{Vectors, vectors, reference_sort, shortcut_sort, precalc_sort}
use prototype_bundle.Radix.Passes.{IsSortOf, reference_sort_lem, sort_radix_lem}
use prototype_bundle.Radix.Insertion.{sort_insert_lem}
use prototype_bundle.Radix.Precalc.{precalc_sort_radix_lem}

IsSortOf-unique : {items xs ys : List ℕ} → IsSortOf items xs → IsSortOf items ys → xs ≡ ys
IsSortOf-unique {items} {xs} {ys} p q =
    IsSorted-unique xs ys p.ascending q.ascending (λ v. p.same v ∙ sym (q.same v))

module _ (v : Vectors) (room : length v.swap ≡ length v.items)
    (words : All (λ x. x < 2 ^ 64) v.items) (small : length v.items < 2 ^ 31) where
  -- `shortcut_radix::sort` of fewer than 2 ^ 31 items of 64 bits, with a `swap` of their number,
  -- makes no access out of range and leaves the items in ascending order: by insertion below 64
  -- items, by their bytes from there.
  pub shortcut_sort_lem :
      (out : Vectors) × (shortcut_sort v ≡ some out) × IsSortOf v.items out.items
  unfolding shortcut_sort
  shortcut_sort_lem = elim (Bool-cases (ltb (length v.items) 64)) [
    | inl few ↦
        let (items, run, sorted) = sort_insert_lem v.items in
        (vectors items v.swap, rw (few, run), sorted)
    | inr many ↦ rw many (sort_radix_lem v room words small)
  ]

  -- `precalc_shortcut_radix::sort`, which counts all eight histograms before the first round, makes
  -- no access out of range and leaves the items in ascending order, for fewer than 2 ^ 31 items of
  -- 64 bits and a `swap` of their number.
  pub precalc_sort_lem : (out : Vectors) × (precalc_sort v ≡ some out) × IsSortOf v.items out.items
  unfolding precalc_sort
  precalc_sort_lem = elim (Bool-cases (ltb (length v.items) 64)) [
    | inl few ↦
        let (items, run, sorted) = sort_insert_lem v.items in
        (vectors items v.swap, rw (few, run), sorted)
    | inr many ↦ rw many (precalc_sort_radix_lem v room words small)
  ]

  -- The three sorters leave one and the same vector, for fewer than 2 ^ 31 items of 64 bits and a
  -- `swap` of their number.
  pub sorters_agree :
      (a b c : Vectors) × (reference_sort v ≡ some a)
      × (shortcut_sort v ≡ some b)
      × (precalc_sort v ≡ some c)
      × (a.items ≡ b.items)
      × (b.items ≡ c.items)
  sorters_agree =
      let (a, run_a, sort_a) = reference_sort_lem v room words (omega arith) in
      let (b, run_b, sort_b) = shortcut_sort_lem in
      let (c, run_c, sort_c) = precalc_sort_lem in
      (a, b, c, run_a, run_b, run_c, IsSortOf-unique sort_a sort_b, IsSortOf-unique sort_b sort_c)
