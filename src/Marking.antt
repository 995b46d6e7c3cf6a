-- ===== src/Marking.antt =====
-- `collect` of `collector` and of `collector_buddy` in benchmarks/gc_prototype.cpp.
pub mod Rounds
pub mod Reach
pub mod Sweep
pub mod Collect
mod Tests
use prototype_bundle.Prelude.{
  ℕ, zero, suc, Bool, true, false, List, [], ◌∷◌, ◌++◌, Option, none, some, if◌then◌else◌,
}
use mathlib.Core.Option.{map as optional}
use prototype_bundle.Prelude.Places.{update_at, Has, without}

-- `obj.flags.marked` of each object, by its number
abbrev pub Marks : Type 0
Marks = ℕ → Bool

-- `obj.flags.marked = true`
abbrev pub mark : Marks → ℕ → Marks
mark marked node = update_at marked node true

-- `for (auto & ref : obj.ref_chain)`: the objects that it adds to `gray_nodes`
pub unmarked_refs : Marks → List ℕ → List ℕ
unmarked_refs marked [] = []
unmarked_refs marked (to ∷ refs) =
    let rest = unmarked_refs marked refs in if marked to then rest else to ∷ rest

module _ (ref_chain : ℕ → List ℕ) where
  -- `for (auto * node : black_nodes)`, with the marks and `gray_nodes`
  pub round : Marks → List ℕ → List ℕ → Marks × List ℕ
  round marked [] gray_nodes = (marked, gray_nodes)
  round marked (node ∷ black_nodes) gray_nodes =
      round (mark marked node) black_nodes
        (gray_nodes ++ unmarked_refs (mark marked node) (ref_chain node))

  -- `while (!black_nodes.empty ())`, on fuel
  pub mark_rounds : ℕ → Marks → List ℕ → Option Marks
  mark_rounds fuel marked [] = some marked
  mark_rounds zero marked (node ∷ black_nodes) = none
  mark_rounds (suc fuel) marked (node ∷ black_nodes) =
      let r = round marked (node ∷ black_nodes) [] in mark_rounds fuel r.0 r.1

  -- The marking of `collect`, from the root, with the marks that it finds
  pub mark_from : ℕ → Marks → ℕ → Option Marks
  mark_from fuel marked root = mark_rounds fuel marked (root ∷ [])

-- An object that the references lead to from the root
pub data Reaches (ref_chain : ℕ → List ℕ) (root : ℕ) : ℕ → Type 0 where
  itself : Reaches ref_chain root root
  follows :
      (node to : ℕ)
      → Reaches ref_chain root node
      → Has to (ref_chain node)
      → Reaches ref_chain root to

-- `for (auto & obj : _table.objects ())` of `collect`: the marks after it, and `black_nodes`, the
-- objects that were not marked
pub sweep : Marks → List ℕ → Marks × List ℕ
sweep marked [] = (marked, [])
sweep marked (obj ∷ objects) =
    let rest = sweep (update_at marked obj false) objects in
    (rest.0, if marked obj then rest.1 else obj ∷ rest.1)

-- `table` with the marks of its objects
pub record Table : Type 0 where
  pub root : ℕ
  pub objects : List ℕ
  pub ref_chain : ℕ → List ℕ
  pub marked : Marks

-- `table::rem_obj_node`, for each of `black_nodes`
pub rem_obj_nodes : List ℕ → Table → Table
rem_obj_nodes [] t = t
rem_obj_nodes (object ∷ black_nodes) t =
    rem_obj_nodes black_nodes
      (record t { ref_chain = update_at t.ref_chain object []; objects = without object t.objects })

-- `collect` after its marking
pub swept : Table → Marks → Table
swept t marked = let s = sweep marked t.objects in rem_obj_nodes s.1 (record t { marked = s.0 })

-- `collect`, on the fuel of its marking
pub collect : ℕ → Table → Option Table
collect fuel t = optional (swept t) (mark_from t.ref_chain fuel t.marked t.root)
