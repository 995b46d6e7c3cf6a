-- ===== src/Tmap/Main.antt =====
-- `printer` and `main` of binary_search.cpp: what the program writes, line by line.
use prototype_bundle.Prelude.{
  ℕ, Bool, ◌≡◌, refl, List, [], ◌∷◌, ◌++◌, Option, ltb, IsSorted, SameItems, ap, ap₂, ◌∙◌,
  append-nil,
}
use prototype_bundle.Tmap.{sort}
use prototype_bundle.Tmap.Sort.{sort_lem}
use prototype_bundle.Tmap.Search.{search}

-- A line of the output: an id, a node that a search passes, and the two lines of `main`
pub data Line : Type 0 where
  id_line : ℕ → Line
  node_line : ℕ → Line
  dashes : Line
  found_line : Bool → Option ℕ → Line

-- `printer::print`
pub print : List ℕ → List Line
print [] = []
print (item ∷ items) = id_line item ∷ print items

abbrev print_visited : List ℕ → List Line
print_visited [] = []
print_visited (id ∷ ids) = node_line id ∷ print_visited ids

-- The sequence of `main`
abbrev pub seq_type : List ℕ
seq_type = 3 ∷ 5 ∷ 8 ∷ 2 ∷ 4 ∷ 6 ∷ 1 ∷ 9 ∷ 7 ∷ 10 ∷ 0 ∷ []

-- `main` with its sequence and the key that it looks up; `found`, which is -1 until the callback is
-- called, is `none`.
pub main : List ℕ → ℕ → List Line
main seq key =
    let o = search key seq in
    print (sort ltb seq) ++ dashes ∷ (print_visited o.visited ++ found_line o.result o.called ∷ [])

-- The ids that `print` writes
pub ids_of : List Line → List ℕ
ids_of [] = []
ids_of (id_line id ∷ lines) = id ∷ ids_of lines
ids_of (node_line id ∷ lines) = ids_of lines
ids_of (dashes ∷ lines) = ids_of lines
ids_of (found_line result called ∷ lines) = ids_of lines

ids_of-append : (a b : List Line) → ids_of (a ++ b) ≡ ids_of a ++ ids_of b
unfolding ids_of
ids_of-append [] b = refl
ids_of-append (id_line id ∷ a) b = ap (λ l. id ∷ l) (ids_of-append a b)
ids_of-append (node_line id ∷ a) b = ids_of-append a b
ids_of-append (dashes ∷ a) b = ids_of-append a b
ids_of-append (found_line result called ∷ a) b = ids_of-append a b

ids_of-print : (l : List ℕ) → ids_of (print l) ≡ l
unfolding ids_of print
ids_of-print [] = refl
ids_of-print (item ∷ l) = ap (λ m. item ∷ m) (ids_of-print l)

ids_of-visited : (l : List ℕ) → ids_of (print_visited l) ≡ []
unfolding ids_of
ids_of-visited [] = refl
ids_of-visited (id ∷ l) = ids_of-visited l

ids_of-main : (seq : List ℕ) (key : ℕ) → ids_of (main seq key) ≡ sort ltb seq
unfolding main ids_of
ids_of-main seq key =
    let o = search key seq in
    let tail = print_visited o.visited ++ found_line o.result o.called ∷ [] in
    let rest : ids_of tail ≡ [] =
      ids_of-append (print_visited o.visited) (found_line o.result o.called ∷ [])
      ∙ ap (λ l. l ++ []) (ids_of-visited o.visited) in
    ids_of-append (print (sort ltb seq)) (dashes ∷ tail)
    ∙ ap₂ (λ a b. a ++ b) (ids_of-print (sort ltb seq)) rest
    ∙ append-nil (sort ltb seq)

-- The ids that `main` writes, of any sequence and key, ascend, and are those of the sequence.
pub main-IsSorted :
    (seq : List ℕ) (key : ℕ)
    → IsSorted (ids_of (main seq key)) × SameItems (ids_of (main seq key)) seq
main-IsSorted seq key = rw (ids_of-main seq key) (sort_lem seq)
