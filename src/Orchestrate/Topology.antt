-- ===== src/Orchestrate/Topology.antt =====
-- The adjacency maps of the scheduler (orchestrate/topo.go, `buildDAGMaps`).
pub mod Degrees
mod Tests
use vagent.Common.{ℕ, zero, suc, String, List, [], ◌∷◌, ◌++◌, length, str_eq, if◌then◌else◌}
use vagent.Schema.{Types}
use vagent.Orchestrate.Node.{Node, update}

-- The inner loop: `n` is appended to the list of each of its dependencies.
unfoldable pub add_deps : String → List String → (String → List String) → String → List String
add_deps n [] down = down
add_deps n (d ∷ ds) down = add_deps n ds (update d (down d ++ n ∷ []) down)

unfoldable pub build_maps :
    {T : Types}
    → List (Node T)
    → (String → List String)
    → (String → ℕ)
    → (String → List String) × (String → ℕ)
unfolding add_deps
build_maps [] down degree = (down, degree)
build_maps (n ∷ ns) down degree =
    build_maps ns (add_deps n.id n.deps down) (update n.id (length n.deps) degree)

unfoldable pub build_dag_maps : {T : Types} → List (Node T) → (String → List String) × (String → ℕ)
unfolding build_maps
build_dag_maps ns = build_maps ns (λ x. []) (λ x. 0)
