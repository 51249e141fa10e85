-- ===== src/Orchestrate/Dag/Tests.antt =====
-- A run of the executor on a small graph (orchestrate/dag.go).
use vagent.Common.{◌≤◌, ◌≡◌, ◌⊎◌, refl, String, true, false, List, [], ◌∷◌, none, some, length, All}
use vagent.Schema.{number_types, RunRequest, RunResponse, ok, err}
use vagent.Orchestrate.Node.{pending, running, done, skipped, Node, node_of, skip}
use vagent.Orchestrate.Topology.{build_dag_maps}
use vagent.Orchestrate.Topology.Degrees.{HasDistinctIds}
use vagent.Orchestrate.Dag.{
  Config, Executor, is_running, start_ready, handle_completion, new_executor,
}
use vagent.Orchestrate.Dag.Order.{is_settled}
use vagent.Orchestrate.Dag.Liveness.{
  started_executor, Reached, begin, complete, Reached-order, Reached-bound,
}
use vagent.Orchestrate.Graph.{validate_dag}
use vagent.Orchestrate.Graph.Valid.{validated_progress}

abbrev task : String → List String → Node number_types
task id deps = record {
  id = id;
  deps = deps;
  optional = false;
  condition = none;
  input_mapper = none;
}

-- "c" may fail; "e" runs only if "c" has a result.
abbrev graph : List (Node number_types)
graph =
    task "a" []
    ∷ record (task "c" ("a" ∷ [])) { optional = true }
    ∷ record (task "e" ("c" ∷ [])) {
      condition =
          some (λ up. elim up [ [] ↦ true | ◌∷◌ u us ↦ elim u.1 [ none ↦ false | some r ↦ true ] ]);
    }
    ∷ []

abbrev cfg : Config number_types
cfg = record { error_strategy = skip; early_exit = none; checkpoints = none; replay_mode = false }

abbrev req : RunRequest number_types
req = record { messages = 1 ∷ []; session_id = "s"; options = none; metadata = none }

abbrev resp : RunResponse number_types
resp = record {
  messages = 2 ∷ [];
  session_id = "s";
  usage = some 10;
  metadata = none;
  duration = 0;
  stop_reason = none;
}

abbrev first : Executor number_types
first = started_executor cfg graph req

abbrev second : Executor number_types
second = (handle_completion cfg graph req false "a" (ok (some resp)) first).0

abbrev third : Executor number_types
third = (handle_completion cfg graph req false "c" (err 5) second).0

runs : Unit {0}
unfolding new_executor start_ready handle_completion node_of build_dag_maps
runs = tt

first_runs : (first.status "a" ≡ running) × (first.status "c" ≡ pending) × (first.remaining ≡ 3)
unfolding runs
first_runs = (refl, refl, refl)

-- The failure of "c" skips "c", and with it "e".
third_skips :
    (third.status "a" ≡ done)
    × (third.status "c" ≡ skipped)
    × (third.status "e" ≡ skipped)
    × (third.remaining ≡ 0)
    × (third.usage ≡ some 10)
unfolding runs
third_skips = (refl, refl, refl, refl, refl)

graph-HasDistinctIds : HasDistinctIds graph
unfolding node_of
graph-HasDistinctIds = (refl, (refl, (refl, tt)))

second-Reached : Reached cfg graph req 1 second
unfolding runs
second-Reached = complete begin false "a" (task "a" []) (ok (some resp)) refl refl refl

third-Reached : Reached cfg graph req 2 third
unfolding runs
third-Reached =
    complete second-Reached false "c" (record (task "c" ("a" ∷ [])) { optional = true }) (err 5)
      refl refl refl

Reached-order_example : All (λ d. is_settled (second.status d) ≡ true) ("a" ∷ [])
unfolding runs
Reached-order_example =
    Reached-order cfg graph req graph-HasDistinctIds refl second-Reached "c"
      (record (task "c" ("a" ∷ [])) { optional = true }) refl refl

Reached-bound_example : 2 ≤ length graph
Reached-bound_example = Reached-bound cfg graph req graph-HasDistinctIds refl third-Reached

validated_progress_example :
    ((second.remaining ≡ 0) × All (λ n. is_settled (second.status n.id) ≡ true) graph)
    ⊎ ((x : String) × (n : Node number_types) × (node_of graph x ≡ some n)
        × (is_running (second.status x) ≡ true))
validated_progress_example =
    validated_progress cfg graph req (unfold validate_dag in refl) refl second-Reached
