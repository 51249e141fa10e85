-- ===== src/Orchestrate/Cycle.antt =====
-- The search for cycles (orchestrate/dag.go, `detectCycle`). The recursion of `visit` is on fuel.
pub mod Steps
pub mod Fuel
pub mod Acyclic
pub mod Decides
pub mod Sound
use vagent.Common.{ℕ, zero, suc, String, List, [], ◌∷◌, length}
use vagent.Schema.{Types}
use vagent.Orchestrate.Node.{Node, update}
use vagent.Orchestrate.Topology.{add_deps}

pub data Color : Type 0 where
  white gray black : Color

-- The end of a search: the colors, or the node of a cycle.
pub data Search : Type 0 where
  finished : (String → Color) → Search
  cycle : String → Search
  out_of_fuel : Search

-- The edges, from a dependency to its dependents.
unfoldable pub adjacency :
    {T : Types} → List (Node T) → (String → List String) → String → List String
unfolding add_deps
adjacency [] adj = adj
adjacency (n ∷ ns) adj = adjacency ns (add_deps n.id n.deps adj)

-- The loop of `visit`, where `step` is the recursive call.
unfoldable pub visit_next :
    (String → (String → Color) → Search) → List String → (String → Color) → Search
visit_next step [] color = finished color
visit_next step (next ∷ rest) color = elim (color next) [
  | gray ↦ cycle next
  | black ↦ visit_next step rest color
  | white ↦ elim (step next color) [
    | cycle x ↦ cycle x
    | out_of_fuel ↦ out_of_fuel
    | finished color' ↦ visit_next step rest color'
  ]
]

unfoldable pub visit : (String → List String) → ℕ → String → (String → Color) → Search
unfolding visit_next
visit adj zero id color = out_of_fuel
visit adj (suc fuel) id color = elim (visit_next (visit adj fuel) (adj id) (update id gray color)) [
  | cycle x ↦ cycle x
  | out_of_fuel ↦ out_of_fuel
  | finished color' ↦ finished (update id black color')
]

-- The loop over the nodes.
unfoldable pub visit_nodes :
    {T : Types} → (String → List String) → ℕ → List (Node T) → (String → Color) → Search
unfolding visit
visit_nodes adj fuel [] color = finished color
visit_nodes adj fuel (n ∷ ns) color = elim (color n.id) [
  | gray ↦ visit_nodes adj fuel ns color
  | black ↦ visit_nodes adj fuel ns color
  | white ↦ elim (visit adj fuel n.id color) [
    | cycle x ↦ cycle x
    | out_of_fuel ↦ out_of_fuel
    | finished color' ↦ visit_nodes adj fuel ns color'
  ]
]

-- As much fuel as there are nodes.
unfoldable pub detect_cycle : {T : Types} → List (Node T) → Search
unfolding adjacency visit_nodes
detect_cycle ns = visit_nodes (adjacency ns (λ x. [])) (length ns) ns (λ x. white)
