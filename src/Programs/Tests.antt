-- ===== src/Programs/Tests.antt =====
-- Concrete runs of the small programs.
use prototype_bundle.Prelude.{ℕ, [], ◌∷◌, some, true, refl, ◌≡◌}
use prototype_bundle.Programs.Console.{
  stored, returned_zero, main, mode_after, reads_of, main-escape,
}
use prototype_bundle.Programs.StaticList.{
  Arguments, make_index_sequence, construct, traverse, traverse-construct,
}

main-escape_example :
    ((main {A = ℕ} 1 2 (stored 97 ∷ returned_zero ∷ stored 27 ∷ stored 98 ∷ [])).1 ≡ true)
    × (reads_of {A = ℕ}
          (main {A = ℕ} 1 2 (stored 97 ∷ returned_zero ∷ stored 27 ∷ stored 98 ∷ [])).0
        ≡ 3)
    × (mode_after {A = ℕ} 1
          (main {A = ℕ} 1 2 (stored 97 ∷ returned_zero ∷ stored 27 ∷ stored 98 ∷ [])).0
        ≡ 1)
main-escape_example =
    main-escape {A = ℕ} 1 2 (stored 97 ∷ returned_zero ∷ []) (stored 27) (stored 98 ∷ [])
      (refl, (refl, tt)) refl

-- A list of three numbers, passed from its begin to its end
three_numbers :
    let args : Arguments ℕ (make_index_sequence 0 3) = (7, (8, (9, tt))) in
    traverse (construct {sequence = make_index_sequence 0 3} 100 args) 3 100
    ≡ some 7 ∷ some 8 ∷ some 9 ∷ []
three_numbers = traverse-construct ℕ (make_index_sequence 0 3) 100 (7, (8, (9, tt)))
