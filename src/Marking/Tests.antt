-- ===== src/Marking/Tests.antt =====
-- The marking of a small table.
use prototype_bundle.Prelude.{
  ℕ, zero, suc, ◌+◌, ◌*◌, ◌≡◌, ◌↔◌, Bool, true, false, List, [], ◌∷◌, length, Option, some, none,
  map, refl, inl, inr, arith,
}
use prototype_bundle.Prelude.Places.{Has, without}
use prototype_bundle.Marking.{Marks, mark_from, mark_rounds, round, unmarked_refs, Reaches}
use prototype_bundle.Marking.{Table, collect, swept, sweep, rem_obj_nodes}
use prototype_bundle.Marking.Collect.{IsTable, collect_lem}
use prototype_bundle.Marking.Reach.{mark_from_lem}

-- The object 0 refers to 1 and 2, and 1 back to 0; 3 refers to 1.
abbrev table : ℕ → List ℕ
table zero = 1 ∷ 2 ∷ []
table (suc zero) = 2 ∷ 0 ∷ []
table (suc (suc zero)) = []
table (suc (suc (suc x))) = 1 ∷ []

abbrev objects : List ℕ
objects = 0 ∷ 1 ∷ 2 ∷ 3 ∷ []

table-within : (x to : ℕ) → Has x objects → Has to (table x) → Has to objects
unfolding Has
table-within zero to inside (inl e) = inr (inl e)
table-within zero to inside (inr (inl e)) = inr (inr (inl e))
table-within zero to inside (inr (inr h)) = absurd h
table-within (suc zero) to inside (inl e) = inr (inr (inl e))
table-within (suc zero) to inside (inr (inl e)) = inl e
table-within (suc zero) to inside (inr (inr h)) = absurd h
table-within (suc (suc zero)) to inside h = absurd h
table-within (suc (suc (suc x))) to inside (inl e) = inr (inl e)
table-within (suc (suc (suc x))) to inside (inr h) = absurd h

root_inside : Has 0 objects
unfolding Has
root_inside = inl refl

abbrev not_marked : Marks
not_marked x = false

mark_from_lem_example :
    (last : Marks) × (mark_from table (2 * length objects + 1) not_marked 0 ≡ some last)
    × ((x : ℕ) → (last x ≡ true) ↔ Reaches table 0 x)
mark_from_lem_example =
    mark_from_lem table objects table-within 0 not_marked root_inside (λ x e. absurd (cc))

-- The object 3 is not marked.
marks : Option Marks → List Bool
marks none = []
marks (some m) = map m objects

small_marking : marks (mark_from table 9 not_marked 0) ≡ true ∷ true ∷ true ∷ false ∷ []
unfolding marks mark_from mark_rounds round unmarked_refs
small_marking = refl

-- The table with the root 0
abbrev whole_table : Table
whole_table = record { root = 0; objects = 1 ∷ 2 ∷ 3 ∷ []; ref_chain = table; marked = not_marked }

whole_table-IsTable : IsTable whole_table
unfolding Has
whole_table-IsTable = record {
  distinct = (
    (λ h. elim h [ inl e ↦ omega arith | inr r ↦ elim r [ inl e ↦ omega arith | inr q ↦ q ] ]),
    ((λ h. elim h [ inl e ↦ omega arith | inr r ↦ r ]), ((λ h. h), tt)),
  );
  root_apart = λ h. elim h [
    | inl e ↦ omega arith
    | inr r ↦ elim r [ inl e ↦ omega arith | inr q ↦ elim q [ inl e ↦ omega arith | inr z ↦ z ] ]
  ];
  within = table-within;
  only_root = λ x e. absurd (cc);
}

collect_lem_example :
    (s : Table) × (collect (2 * suc (length whole_table.objects) + 1) whole_table ≡ some s)
    × ((x : ℕ) → Has x s.objects ↔ (Has x whole_table.objects × Reaches table 0 x))
    × ((x : ℕ) → Has x s.objects → s.ref_chain x ≡ table x)
    × IsTable s
collect_lem_example = collect_lem whole_table whole_table-IsTable

-- The object 3 is removed.
objects_of : Option Table → List ℕ
objects_of none = []
objects_of (some t) = t.objects

small_collection : objects_of (collect 9 whole_table) ≡ 1 ∷ 2 ∷ []
unfolding objects_of collect swept sweep rem_obj_nodes mark_from mark_rounds round unmarked_refs
    without
small_collection = refl
