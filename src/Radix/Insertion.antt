-- ===== src/Radix/Insertion.antt =====
-- `sort_insert`: the inner loop carries an item down to its place among the items before it. The
-- items before the index are read backwards, as `before`; the list is `join before after`.
use prototype_bundle.Prelude.{
  ℕ, suc, ◌+◌, ◌-◌, ◌≤◌, ◌≡◌, ◌∙◌, ap, refl, some, false, List, [], ◌∷◌, arith, ltb, if◌then◌else◌,
  length, get_elem?, get_or, set, All, All-imp, IsSorted, count, count-cons, count-nil, Bool-cases,
  inl, inr,
}
use prototype_bundle.Radix.{swap_at, insert_down, insert_rounds, sort_insert}
use prototype_bundle.Radix.Passes.{IsSortOf}

join : List ℕ → List ℕ → List ℕ
join [] after = after
join (y ∷ before) after = join before (y ∷ after)

get_or-join :
    (before after : List ℕ) (i : ℕ)
    → get_or (join before after) (length before + i) 0 ≡ get_or after i 0
unfolding join
get_or-join [] after i = ap (λ t. get_or after t 0) (omega arith)
get_or-join (y ∷ before) after i =
    ap (λ t. get_or (join before (y ∷ after)) t 0) (omega arith)
    ∙ get_or-join before (y ∷ after) (suc i)

get_elem?-join :
    (before after : List ℕ) (i : ℕ)
    → get_elem? (join before after) (length before + i) ≡ get_elem? after i
unfolding join
get_elem?-join [] after i = ap (λ t. get_elem? after t) (omega arith)
get_elem?-join (y ∷ before) after i =
    ap (λ t. get_elem? (join before (y ∷ after)) t) (omega arith)
    ∙ get_elem?-join before (y ∷ after) (suc i)

set-join :
    (before after : List ℕ) (i v : ℕ)
    → set (join before after) (length before + i) v ≡ join before (set after i v)
unfolding join
set-join [] after i v = ap (λ t. set after t v) (omega arith)
set-join (y ∷ before) after i v =
    ap (λ t. set (join before (y ∷ after)) t v) (omega arith)
    ∙ set-join before (y ∷ after) (suc i) v

-- The items before the index, backwards, once `x` has come to its place.
place : ℕ → List ℕ → List ℕ
place x [] = x ∷ []
place x (y ∷ before) = if ltb x y then y ∷ place x before else x ∷ y ∷ before

module _ (x y : ℕ) (before after : List ℕ) where
  abbrev whole : List ℕ
  whole = join before (y ∷ x ∷ after)

  get_elem?-here : get_elem? whole (length before) ≡ some y
  get_elem?-here =
      ap (λ t. get_elem? whole t) (omega arith) ∙ get_elem?-join before (y ∷ x ∷ after) 0

  get_elem?-next : get_elem? whole (suc (length before)) ≡ some x
  get_elem?-next =
      ap (λ t. get_elem? whole t) (omega arith) ∙ get_elem?-join before (y ∷ x ∷ after) 1

  get_or-here : get_or whole (length before) 0 ≡ y
  get_or-here = ap (λ t. get_or whole t 0) (omega arith) ∙ get_or-join before (y ∷ x ∷ after) 0

  get_or-next : get_or whole (suc (length before)) 0 ≡ x
  get_or-next = ap (λ t. get_or whole t 0) (omega arith) ∙ get_or-join before (y ∷ x ∷ after) 1

  swap_at-join : swap_at (length before) whole ≡ join before (x ∷ y ∷ after)
  unfolding swap_at
  swap_at-join =
      rw (get_or-here, get_or-next)
        (ap (λ t. set t (suc (length before)) y) first
          ∙ ap (λ t. set (join before (x ∷ x ∷ after)) t y) (omega arith)
          ∙ set-join before (x ∷ x ∷ after) 1 y)
    where
      first : set whole (length before) x ≡ join before (x ∷ x ∷ after)
      first = ap (λ t. set whole t x) (omega arith) ∙ set-join before (y ∷ x ∷ after) 0 x

insert_down-place :
    (x : ℕ) (before after : List ℕ)
    → insert_down (length before) (join before (x ∷ after)) ≡ some (join (place x before) after)
unfolding insert_down place join
insert_down-place x [] after = refl
insert_down-place x (y ∷ before) after = elim (Bool-cases (ltb x y)) [
  | inl less ↦
      rw (get_elem?-here x y before after, get_elem?-next x y before after, less)
        (ap (insert_down (length before)) (swap_at-join x y before after)
          ∙ insert_down-place x before (y ∷ after))
  | inr not_less ↦ rw (get_elem?-here x y before after, get_elem?-next x y before after, not_less)
]

place_all : List ℕ → List ℕ → List ℕ
place_all before [] = before
place_all before (x ∷ after) = place_all (place x before) after

length-place : (x : ℕ) (before : List ℕ) → length (place x before) ≡ suc (length before)
unfolding place
length-place x [] = refl
length-place x (y ∷ before) = ground (arith, length-place x before)

insert_rounds-more :
    (left i : ℕ) (l : List ℕ) {l' : List ℕ}
    → insert_down i l ≡ some l'
    → insert_rounds (suc left) i l ≡ insert_rounds left (suc i) l'
unfolding insert_rounds
insert_rounds-more left i l e = rw (insert_rounds, e) refl

insert_rounds-place_all :
    (before after : List ℕ)
    → insert_rounds (length after) (length before) (join before after)
      ≡ some (join (place_all before after) [])
unfolding insert_rounds place_all
insert_rounds-place_all before [] = refl
insert_rounds-place_all before (x ∷ after) =
    insert_rounds-more (length after) (length before) _ (insert_down-place x before after)
    ∙ ap (λ t. insert_rounds (length after) t (join (place x before) after))
        (omega (arith, length-place x before))
    ∙ insert_rounds-place_all (place x before) after

-- The items before the index, read backwards, descend.
abbrev IsDescending : List ℕ → Type 0
IsDescending [] = Unit
IsDescending (y ∷ before) = All (λ z. z ≤ y) before × IsDescending before

All-place : (P : ℕ → Type 0) (x : ℕ) (before : List ℕ) → P x → All P before → All P (place x before)
unfolding place
All-place P x [] p h = (p, tt)
All-place P x (y ∷ before) p h = elim (Bool-cases (ltb x y)) [
  | inl less ↦ rw less (h.0, All-place P x before p h.1)
  | inr not_less ↦ rw not_less (p, h)
]

IsDescending-place : (x : ℕ) (before : List ℕ) → IsDescending before → IsDescending (place x before)
unfolding place
IsDescending-place x [] d = (tt, tt)
IsDescending-place x (y ∷ before) d = elim (Bool-cases (ltb x y)) [
  | inl less ↦ rw less (All-place _ x before (ground arith) d.0, IsDescending-place x before d.1)
  | inr not_less ↦
      let below : y ≤ x = ground arith in
      rw not_less ((below, All-imp (λ z (h : z ≤ y). omega arith) before d.0), d)
]

IsDescending-place_all :
    (before after : List ℕ) → IsDescending before → IsDescending (place_all before after)
unfolding place_all
IsDescending-place_all before [] d = d
IsDescending-place_all before (x ∷ after) d =
    IsDescending-place_all (place x before) after (IsDescending-place x before d)

IsSorted-join :
    (before after : List ℕ)
    → IsDescending before
    → IsSorted after
    → All (λ y. All (λ z. y ≤ z) after) before
    → IsSorted (join before after)
unfolding join
IsSorted-join [] after d s cross = s
IsSorted-join (y ∷ before) after d s cross =
    IsSorted-join before (y ∷ after) d.1 (cross.0, s) (both before d.0 cross.1)
  where
    both :
        (zs : List ℕ)
        → All (λ z. z ≤ y) zs
        → All (λ z. All (λ t. z ≤ t) after) zs
        → All (λ z. (z ≤ y) × All (λ t. z ≤ t) after) zs
    both [] p q = tt
    both (z ∷ zs) p q = ((p.0, q.0), both zs p.1 q.1)

All-nil : (before : List ℕ) → All (λ y. All (λ z. y ≤ z) []) before
All-nil [] = tt
All-nil (y ∷ before) = (tt, All-nil before)

count-join :
    (v : ℕ) (before after : List ℕ) → count v (join before after) ≡ count v before + count v after
unfolding join
count-join v [] after = omega (arith, count-nil v)
count-join v (y ∷ before) after =
    ground (arith, count-join v before (y ∷ after), count-cons v y after, count-cons v y before)

count-place : (v x : ℕ) (before : List ℕ) → count v (place x before) ≡ count v (x ∷ before)
unfolding place
count-place v x [] = refl
count-place v x (y ∷ before) = ground (
  arith,
  count-place v x before,
  count-cons v y (place x before),
  count-cons v x (y ∷ before),
  count-cons v x before,
  count-cons v y before,
)

count-place_all :
    (v : ℕ) (before after : List ℕ)
    → count v (place_all before after) ≡ count v before + count v after
unfolding place_all
count-place_all v before [] = omega (arith, count-nil v)
count-place_all v before (x ∷ after) = ground (
  arith,
  count-place_all v (place x before) after,
  count-place v x before,
  count-cons v x before,
  count-cons v x after,
)

sort_insert-place_all :
    (x y : ℕ) (after : List ℕ)
    → sort_insert (x ∷ y ∷ after) ≡ some (join (place_all (x ∷ []) (y ∷ after)) [])
unfolding sort_insert join
sort_insert-place_all x y after =
    let rounds = insert_rounds-place_all (x ∷ []) (y ∷ after) in
    let left : length (x ∷ y ∷ after) - 1 ≡ length (y ∷ after) = omega arith in
    let long : ltb (length (x ∷ y ∷ after)) 2 ≡ false = ground arith in rw (long, left) rounds

-- `sort_insert` of every vector makes no access out of range and leaves the items in ascending order.
pub sort_insert_lem :
    (items : List ℕ) → (out : List ℕ) × (sort_insert items ≡ some out) × IsSortOf items out
unfolding sort_insert
sort_insert_lem [] = ([], refl, record { ascending = tt; same = λ v. refl })
sort_insert_lem (x ∷ []) = (x ∷ [], refl, record { ascending = (tt, tt); same = λ v. refl })
sort_insert_lem (x ∷ y ∷ after) = (join done [], sort_insert-place_all x y after, result)
  where
    done : List ℕ
    done = place_all (x ∷ []) (y ∷ after)

    result : IsSortOf (x ∷ y ∷ after) (join done [])
    result = record {
      ascending =
          IsSorted-join done [] (IsDescending-place_all (x ∷ []) (y ∷ after) (tt, tt)) tt
            (All-nil done);
      same = λ v. ground (
        arith,
        count-join v done [],
        count-place_all v (x ∷ []) (y ∷ after),
        count-nil v,
        count-cons v x [],
        count-cons v x (y ∷ after),
      );
    }
