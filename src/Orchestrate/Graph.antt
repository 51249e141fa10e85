-- ===== src/Orchestrate/Graph.antt =====
-- The validation of a whole graph and its making from edges (orchestrate/orchestrate.go,
-- `ValidateDAG` and `BuildDAG`).
pub mod Valid
mod Tests
use vagent.Common.{String, List, [], ◌∷◌, Option, none, some}
use vagent.Schema.{Types}
use vagent.Orchestrate.Node.{Node, Edge}
use vagent.Orchestrate.Validation.{GraphError, validate_references, fill_deps}
use vagent.Orchestrate.Cycle
use vagent.Orchestrate.Cycle.{detect_cycle}
use vagent.Orchestrate.Connected
use vagent.Orchestrate.Connected.{check_connected}

-- The answer of the validation; `unfinished` is out of fuel.
pub data Verdict : Type 0 where
  valid : Verdict
  bad_reference : GraphError → Verdict
  cyclic apart : String → Verdict
  unfinished : Verdict

unfoldable pub validate_dag : {T : Types} → List (Node T) → Verdict
unfolding validate_references detect_cycle check_connected
validate_dag ns = elim (validate_references ns) [
  | some e ↦ bad_reference e
  | none ↦ elim (detect_cycle ns) [
    | Cycle.cycle x ↦ cyclic x
    | Cycle.out_of_fuel ↦ unfinished
    | Cycle.finished color ↦ elim (check_connected ns) [
      | Connected.connected ↦ valid
      | Connected.disconnected x ↦ apart x
      | Connected.out_of_fuel ↦ unfinished
    ]
  ]
]

-- The nodes with their dependencies, if the graph is valid.
unfoldable pub build_dag : {T : Types} → List (Node T) → List Edge → Verdict × List (Node T)
unfolding validate_dag fill_deps
build_dag ns es =
    let (problem, filled) = fill_deps ns es in
    elim problem [
      | some e ↦ (bad_reference e, [])
      | none ↦ elim (validate_dag filled) [
        | valid ↦ (valid, filled)
        | bad_reference e ↦ (bad_reference e, [])
        | cyclic x ↦ (cyclic x, [])
        | apart x ↦ (apart x, [])
        | unfinished ↦ (unfinished, [])
      ]
    ]
