-- ===== src/Orchestrate/Node.antt =====
-- Nodes and their status (orchestrate/orchestrate.go), and the maps of the scheduler as functions
-- of a node's ID: a key that a Go map lacks reads as the zero value.
use vagent.Common.{String, Bool, List, [], ◌∷◌, Option, none, some, str_eq, if◌then◌else◌}
use vagent.Schema.{Types, RunRequest, RunResponse, Outcome}

pub data NodeStatus : Type 0 where
  pending running done failed skipped compensated : NodeStatus

-- The runner is the environment's; timeouts, retries and resource tags act inside the launched
-- goroutine.
pub record Node (T : Types) : Type 0 where
  pub id : String
  pub deps : List String
  pub optional : Bool
  pub condition : Option (List (String × Option (RunResponse T)) → Bool)
  pub input_mapper : Option (List (String × Option (RunResponse T)) → Outcome T (RunRequest T))

-- `m[k] = v`
abbrev pub update {ℓ} : {V : Type ℓ} → String → V → (String → V) → String → V
update k v m = λ x. if str_eq k x then v else m x

-- `nodeMap[id]`: IDs are distinct after validation, so the first node is the only one.
unfoldable pub node_of : {T : Types} → List (Node T) → String → Option (Node T)
node_of [] x = none
node_of (n ∷ ns) x = if str_eq n.id x then some n else node_of ns x

pub record Edge : Type 0 where
  pub from_id : String
  pub to_id : String

pub data ErrorStrategy : Type 0 where
  abort skip compensate : ErrorStrategy
