-- ===== src/Orchestrate/Validation.antt =====
-- The references of a graph (orchestrate/orchestrate.go): the first two loops of `ValidateDAG`,
-- before its search for cycles, and `BuildDAG` up to its call of `ValidateDAG`. A set or a map of
-- which only the keys matter is the list of its keys.
pub mod References
mod Tests
use vagent.Common.{
  String, str_eq, Bool, true, false, ◌&&◌, ◌||◌, not, List, [], ◌∷◌, ◌++◌, map, Option, none, some,
  if◌then◌else◌,
}
use vagent.Schema.{Types}
use vagent.Orchestrate.Node.{Node, Edge, update}

pub data GraphError : Type 0 where
  duplicate_id : String → GraphError
  unknown_dep : String → String → GraphError
  deps_set : String → GraphError
  unknown_from unknown_to : String → GraphError

unfoldable pub has_id : List String → String → Bool
has_id [] x = false
has_id (y ∷ ys) x = str_eq y x || has_id ys x

-- The first loop: `seen` grows by each node.
unfoldable pub check_ids : {T : Types} → List String → List (Node T) → Option GraphError
unfolding has_id
check_ids seen [] = none
check_ids seen (n ∷ ns) =
    let rest = check_ids (n.id ∷ seen) ns in
    if has_id seen n.id then some (duplicate_id n.id) else rest

unfoldable pub check_deps : List String → String → List String → Option GraphError
unfolding has_id
check_deps seen id [] = none
check_deps seen id (d ∷ ds) =
    let rest = check_deps seen id ds in if has_id seen d then rest else some (unknown_dep id d)

-- The second loop.
unfoldable pub check_all_deps : {T : Types} → List String → List (Node T) → Option GraphError
unfolding check_deps
check_all_deps seen [] = none
check_all_deps seen (n ∷ ns) = elim (check_deps seen n.id n.deps) [
  | some e ↦ some e
  | none ↦ check_all_deps seen ns
]

abbrev pub ids : {T : Types} → List (Node T) → List String
ids ns = map (λ n. n.id) ns

unfoldable pub validate_references : {T : Types} → List (Node T) → Option GraphError
unfolding check_ids check_all_deps
validate_references ns = elim (check_ids [] ns) [
  | some e ↦ some e
  | none ↦ check_all_deps (ids ns) ns
]

-- The first loop of `BuildDAG`.
unfoldable pub index_nodes : {T : Types} → List String → List (Node T) → Option GraphError
unfolding has_id
index_nodes seen [] = none
index_nodes seen (n ∷ ns) =
    let rest = index_nodes (n.id ∷ seen) ns in
    if has_id seen n.id
    then some (duplicate_id n.id)
    else (elim n.deps [ [] ↦ rest | d ∷ ds ↦ some (deps_set n.id) ])

-- The loop over the edges: `depsMap` in the end, or the edge that names no node.
unfoldable pub collect_deps :
    List String → List Edge → (String → List String) → Option GraphError × (String → List String)
unfolding has_id
collect_deps known [] deps = (none, deps)
collect_deps known (e ∷ es) deps =
    let rest = collect_deps known es (update e.to_id (deps e.to_id ++ e.from_id ∷ []) deps) in
    if has_id known e.from_id
    then (if has_id known e.to_id then rest else (some (unknown_to e.to_id), deps))
    else (some (unknown_from e.from_id), deps)

abbrev pub fill_node : {T : Types} → (String → List String) → Node T → Node T
fill_node deps n = record n { deps = deps n.id }

-- `BuildDAG` before the validation: the nodes with their dependencies filled in.
unfoldable pub fill_deps :
    {T : Types} → List (Node T) → List Edge → Option GraphError × List (Node T)
unfolding index_nodes collect_deps
fill_deps ns es = elim (index_nodes [] ns) [
  | some e ↦ (some e, [])
  | none ↦
      let (problem, deps) = collect_deps (ids ns) es (λ x. []) in
      elim problem [ some e ↦ (some e, []) | none ↦ (none, map (fill_node deps) ns) ]
]
