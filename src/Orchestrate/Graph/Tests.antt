-- ===== src/Orchestrate/Graph/Tests.antt =====
-- The validation of small graphs (orchestrate/orchestrate.go).
use vagent.Common.{ℕ, false, ◌≡◌, ◌≢◌, ◌↔◌, refl, String, List, [], ◌∷◌, none}
use vagent.Schema.{number_types}
use vagent.Orchestrate.Node.{Node}
use vagent.Orchestrate.Topology.Degrees.{HasDistinctIds}
use vagent.Orchestrate.Validation.{validate_references}
use vagent.Orchestrate.Dag.Liveness.{IsRanked}
use vagent.Orchestrate.Cycle.{Color, finished, out_of_fuel, detect_cycle}
use vagent.Orchestrate.Cycle.Decides.{detect_cycle_lem}
use vagent.Orchestrate.Graph.{valid, cyclic, apart, unfinished, validate_dag, build_dag}
use vagent.Orchestrate.Graph.Valid.{IsConnected, validate_dag_lem}

abbrev node : String → List String → Node number_types
node id deps = record {
  id = id;
  deps = deps;
  optional = false;
  condition = none;
  input_mapper = none;
}

abbrev diamond : List (Node number_types)
diamond = node "d" ("b" ∷ "c" ∷ []) ∷ node "b" ("a" ∷ []) ∷ node "c" ("a" ∷ []) ∷ node "a" [] ∷ []

diamond_valid : validate_dag diamond ≡ valid
unfolding validate_dag
diamond_valid = refl

circle : validate_dag (node "a" ("b" ∷ []) ∷ node "b" ("a" ∷ []) ∷ []) ≡ cyclic "a"
unfolding validate_dag
circle = refl

two_parts : validate_dag (node "a" [] ∷ node "b" [] ∷ []) ≡ apart "b"
unfolding validate_dag
two_parts = refl

edges_fill :
    build_dag (node "a" [] ∷ node "b" [] ∷ []) (record { from_id = "a"; to_id = "b" } ∷ [])
    ≡ (valid, node "a" [] ∷ node "b" ("a" ∷ []) ∷ [])
unfolding build_dag
edges_fill = refl

detect_cycle_lem_example :
    (detect_cycle diamond ≢ out_of_fuel)
    × (((color : String → Color) × (detect_cycle diamond ≡ finished color))
        ↔ ((rank : String → ℕ) × IsRanked diamond rank))
detect_cycle_lem_example = detect_cycle_lem diamond (unfold validate_references in refl)

validate_dag_lem_example :
    (validate_dag diamond ≢ unfinished)
    × (validate_dag diamond ≡ valid
        → HasDistinctIds diamond
          × ((rank : String → ℕ) × IsRanked diamond rank)
          × IsConnected diamond)
validate_dag_lem_example = validate_dag_lem diamond
