-- ===== src/Radix/Histogram.antt =====
-- The histogram of a vector holds the size of each bucket, and its offsets the start of each.
use prototype_bundle.Prelude.{
  ℕ, zero, suc, ◌+◌, ◌%◌, ◌<◌, ◌≡◌, ◌∙◌, refl, List, [], ◌∷◌, arith, ◌==◌, if◌then◌else◌, length,
  get_or, set, length-set, get_or-set_self, get_or-set_ne, ℕ_discrete,
}
use native.Mathlib.Nat.{mod-eq_of_lt}
use prototype_bundle.Radix.{digit, count_hits, offsets}
use prototype_bundle.Radix.Digits.{digit-lt, size, size-cons, with_digit, start, start-eq-length}

pub get_or-set :
    (h : List ℕ) (i e v : ℕ)
    → i < length h
    → get_or (set h i v) e 0 ≡ (if i == e then v else get_or h e 0)
get_or-set h i e v lt = elim (ℕ_discrete i e) [
  | yes p ↦ ground (arith, get_or-set_self h i v 0 lt)
  | no p ↦ ground (arith, get_or-set_ne h i e v 0 p)
]

module _ (limit k : ℕ) where
  pub length-count_hits : (h xs : List ℕ) → length (count_hits limit k h xs) ≡ length h
  unfolding count_hits
  length-count_hits h [] = refl
  length-count_hits h (x ∷ xs) = omega (
    arith,
    length-count_hits (set h (digit k x) ((get_or h (digit k x) 0 + 1) % limit)) xs,
    length-set h (digit k x) ((get_or h (digit k x) 0 + 1) % limit),
  )

  pub count_hits-size :
      (xs h : List ℕ)
      → length h ≡ 256
      → ((e : ℕ) → get_or h e 0 + length xs < limit)
      → (e : ℕ) → get_or (count_hits limit k h xs) e 0 ≡ get_or h e 0 + size k e xs
  unfolding count_hits with_digit
  count_hits-size [] h len small e = omega arith
  count_hits-size (x ∷ xs) h len small e = ground (
    arith,
    count_hits-size xs (set h d v) (length-set h d v ∙ len) below e,
    bumped e,
    size-cons k e x xs,
  )
    where
      d : ℕ
      d = digit k x

      v : ℕ
      v = (get_or h d 0 + 1) % limit

      bumped :
          (j : ℕ) → get_or (set h d v) j 0 ≡ (if d == j then get_or h d 0 + 1 else get_or h j 0)
      bumped j = ground (
        arith,
        get_or-set h d j v (omega (arith, digit-lt k x)),
        mod-eq_of_lt {n = get_or h d 0 + 1} {m = limit} (omega (arith, small d)),
      )

      below : (j : ℕ) → get_or (set h d v) j 0 + length xs < limit
      below j = ground (arith, bumped j, small j, small d)

-- The sum of the first counters of a histogram.
sum_first : ℕ → List ℕ → ℕ
sum_first zero cs = 0
sum_first (suc e) [] = 0
sum_first (suc e) (c ∷ cs) = c + sum_first e cs

sum_first-suc : (e : ℕ) (cs : List ℕ) → sum_first (suc e) cs ≡ sum_first e cs + get_or cs e 0
unfolding sum_first
sum_first-suc zero [] = refl
sum_first-suc zero (c ∷ cs) = omega arith
sum_first-suc (suc e) [] = refl
sum_first-suc (suc e) (c ∷ cs) = omega (arith, sum_first-suc e cs)

module _ (limit : ℕ) where
  pub length-offsets : (o : ℕ) (cs : List ℕ) → length (offsets limit o cs) ≡ length cs
  unfolding offsets
  length-offsets o [] = refl
  length-offsets o (c ∷ cs) = omega (arith, length-offsets ((o + c) % limit) cs)

  offsets-sum_first :
      (cs : List ℕ) (o e : ℕ)
      → o + sum_first (length cs) cs < limit
      → e < length cs
      → get_or (offsets limit o cs) e 0 ≡ o + sum_first e cs
  unfolding offsets sum_first
  offsets-sum_first [] o e small lt = absurd (omega arith)
  offsets-sum_first (c ∷ cs) o zero small lt = omega arith
  offsets-sum_first (c ∷ cs) o (suc e) small lt =
      let no_wrap : (o + c) % limit ≡ o + c = mod-eq_of_lt (omega arith) in
      omega (
        arith,
        no_wrap,
        offsets-sum_first cs ((o + c) % limit) e (omega (arith, no_wrap)) (omega arith),
      )

module _ (limit k : ℕ) (xs cs : List ℕ) (sizes : (e : ℕ) → get_or cs e 0 ≡ size k e xs) where
  sum_first-start : (e : ℕ) → sum_first e cs ≡ start k xs e
  unfolding start sum_first
  sum_first-start zero = refl
  sum_first-start (suc e) = omega (arith, sum_first-suc e cs, sizes e, sum_first-start e)

  -- From the sizes of the buckets the loop computes the place where each bucket starts.
  pub offsets-start :
      length cs ≡ 256
      → length xs < limit
      → (e : ℕ) → e < 256
      → get_or (offsets limit 0 cs) e 0 ≡ start k xs e
  offsets-start len small e lt =
      omega (arith, offsets-sum_first limit cs 0 e total (omega arith), sum_first-start e)
    where
      total : 0 + sum_first (length cs) cs < limit
      total = rw (len, sum_first-start 256, start-eq-length k xs) (omega arith)
