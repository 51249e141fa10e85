-- ===== src/Orchestrate/Validation/Tests.antt =====
-- Graphs from edges at concrete inputs (orchestrate/orchestrate.go).
use vagent.Common.{◌≡◌, refl, String, List, [], ◌∷◌, none, some, false}
use vagent.Schema.{number_types}
use vagent.Orchestrate.Node.{Node}
use vagent.Orchestrate.Validation.{duplicate_id, unknown_from, validate_references, fill_deps}

abbrev node : String → Node number_types
node id = record { id = id; deps = []; optional = false; condition = none; input_mapper = none }

fills :
    fill_deps (node "a" ∷ node "b" ∷ []) (record { from_id = "a"; to_id = "b" } ∷ [])
    ≡ (none, node "a" ∷ record (node "b") { deps = "a" ∷ [] } ∷ [])
unfolding fill_deps
fills = refl

unknown_edge :
    (fill_deps (node "a" ∷ []) (record { from_id = "c"; to_id = "a" } ∷ [])).0
    ≡ some (unknown_from "c")
unfolding fill_deps
unknown_edge = refl

twice : validate_references (node "a" ∷ node "a" ∷ []) ≡ some (duplicate_id "a")
unfolding validate_references
twice = refl

abbrev chain_of_two : List (Node number_types)
chain_of_two = node "a" ∷ record (node "b") { deps = "a" ∷ [] } ∷ []
