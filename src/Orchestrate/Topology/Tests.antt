-- ===== src/Orchestrate/Topology/Tests.antt =====
-- The adjacency maps of a small graph (orchestrate/topo.go).
use vagent.Common.{◌≡◌, refl, String, false, List, [], ◌∷◌, none, length}
use vagent.Schema.{number_types}
use vagent.Orchestrate.Node.{Node, node_of}
use vagent.Orchestrate.Topology.{build_dag_maps}
use vagent.Orchestrate.Topology.Degrees.{occurrences, deps_of, HasDistinctIds, build_dag_maps_lem}

abbrev task : String → List String → Node number_types
task id deps = record {
  id = id;
  deps = deps;
  optional = false;
  condition = none;
  input_mapper = none;
}

abbrev diamond : List (Node number_types)
diamond = task "a" [] ∷ task "b" ("a" ∷ []) ∷ task "c" ("a" ∷ []) ∷ task "d" ("b" ∷ "c" ∷ []) ∷ []

diamond_down : (build_dag_maps diamond).0 "a" ≡ "b" ∷ "c" ∷ []
unfolding build_dag_maps
diamond_down = refl

diamond-HasDistinctIds : HasDistinctIds diamond
unfolding node_of
diamond-HasDistinctIds = (refl, (refl, (refl, (refl, tt))))

build_dag_maps_lem_example :
    (occurrences "d" ((build_dag_maps diamond).0 "b") ≡ occurrences "b" (deps_of diamond "d"))
    × ((build_dag_maps diamond).1 "d" ≡ length (deps_of diamond "d"))
build_dag_maps_lem_example = build_dag_maps_lem diamond "d" "b" diamond-HasDistinctIds
