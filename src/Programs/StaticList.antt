-- ===== src/Programs/StaticList.antt =====
-- static_initializer_list.cpp: a list whose length is part of its type.
use prototype_bundle.Prelude.{
  ℕ, zero, suc, ◌+◌, ◌-◌, ◌≡◌, if◌then◌else◌, List, [], ◌∷◌, ◌++◌, length, refl, ap, ap₂, get_elem?,
  some, none, Option, arith, ◌∙◌, sym, false, ltb, map, append_assoc,
}

-- `std::make_index_sequence`, from the number `from` on
abbrev pub make_index_sequence : ℕ → ℕ → List ℕ
make_index_sequence from zero = []
make_index_sequence from (suc n) = from ∷ make_index_sequence (suc from) n

-- `static_initializer_list_base` with the index sequence of its type: the place of its content in
-- memory, counted in elements, and the content
pub record StaticInitializerList {ℓ} (A : Type ℓ) (sequence : List ℕ) : Type ℓ where
  pub address : ℕ
  pub content : List A

-- The constructor has one argument for each index.
abbrev pub Arguments {ℓ} : Type ℓ → List ℕ → Type ℓ
Arguments A [] = Unit
Arguments A (i ∷ sequence) = A × Arguments A sequence

module _ {ℓ} {A : Type ℓ} where
  abbrev pub contents : (sequence : List ℕ) → Arguments A sequence → List A
  contents [] args = []
  contents (i ∷ sequence) args = args.0 ∷ contents sequence args.1

  abbrev pub construct :
      {sequence : List ℕ} → ℕ → Arguments A sequence → StaticInitializerList A sequence
  construct {sequence} address args = record { address = address; content = contents sequence args }

  abbrev pub size : {sequence : List ℕ} → StaticInitializerList A sequence → ℕ
  size {sequence} l = length sequence

  abbrev pub begin : {sequence : List ℕ} → StaticInitializerList A sequence → ℕ
  begin l = l.address

  abbrev pub end : {sequence : List ℕ} → StaticInitializerList A sequence → ℕ
  end l = l.address + size l

  -- What stands at an address that the list holds
  pub element : {sequence : List ℕ} → StaticInitializerList A sequence → ℕ → Option A
  element l p = if ltb p l.address then none else get_elem? l.content (p - l.address)

  -- `for (auto & item : list)`: from `begin` as many steps as lead to `end`
  pub traverse : {sequence : List ℕ} → StaticInitializerList A sequence → ℕ → ℕ → List (Option A)
  traverse l zero p = []
  traverse l (suc left) p = element l p ∷ traverse l left (suc p)

  get_elem?-after :
      (before : List A) (x : A) (rest : List A)
      → get_elem? (before ++ x ∷ rest) (length before) ≡ some x
  get_elem?-after [] x rest = refl
  get_elem?-after (b ∷ before) x rest = get_elem?-after before x rest

  element-after :
      {sequence : List ℕ} (l : StaticInitializerList A sequence) (before : List A) (x : A)
      (rest : List A)
      → l.content ≡ before ++ x ∷ rest
      → element l (l.address + length before) ≡ some x
  unfolding element
  element-after l before x rest same =
      let inside : ltb (l.address + length before) l.address ≡ false = ground arith in
      let at : (l.address + length before) - l.address ≡ length before = omega arith in
      rw (inside, at, same) (get_elem?-after before x rest)

  length-more : (before : List A) (x : A) → length (before ++ x ∷ []) ≡ suc (length before)
  length-more [] x = refl
  length-more (b ∷ before) x = ap suc (length-more before x)

  traverse-after :
      {sequence : List ℕ} (l : StaticInitializerList A sequence) (before rest : List A) (p : ℕ)
      → p ≡ l.address + length before
      → l.content ≡ before ++ rest
      → traverse l (length rest) p ≡ map some rest
  unfolding traverse
  traverse-after l before [] p at same = refl
  traverse-after l before (x ∷ rest) p at same =
      let here : element l p ≡ some x = ap (element l) at ∙ element-after l before x rest same in
      let more = length-more before x in
      let next =
        traverse-after l (before ++ x ∷ []) rest (suc p) (omega arith)
          (same ∙ sym (append_assoc before (x ∷ []) rest)) in
      ap₂ (λ o os. o ∷ os) here next

length-contents {ℓ} :
    (A : Type ℓ) (sequence : List ℕ) (args : Arguments A sequence)
    → length (contents sequence args) ≡ length sequence
length-contents A [] args = refl
length-contents A (i ∷ sequence) args = ap suc (length-contents A sequence args.1)

-- A loop from `begin` to `end` of a list that is constructed from its arguments passes them all, in
-- their order, and reads nothing else.
pub traverse-construct {ℓ} :
    (A : Type ℓ) (sequence : List ℕ) (address : ℕ) (args : Arguments A sequence)
    → let l : StaticInitializerList A sequence = construct address args in
      traverse l (end l - begin l) (begin l) ≡ map some (contents sequence args)
traverse-construct A sequence address args =
    let l : StaticInitializerList A sequence = construct address args in
    let steps : (address + length sequence) - address ≡ length (contents sequence args) =
      (let e = length-contents A sequence args in omega arith) in
    ap (λ n. traverse l n address) steps
    ∙ traverse-after l [] (contents sequence args) address (omega arith) refl
