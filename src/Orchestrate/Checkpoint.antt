-- ===== src/Orchestrate/Checkpoint.antt =====
-- The checkpoints in memory (orchestrate/checkpoint.go): a map of maps, from a graph's ID and a
-- node's ID to a response `R`, which may be nil. Its methods return no error.
mod Store
use vagent.Common.{String, List, [], Option, none, some, lookup, insert, delete}

module _ {R : Type 0} where
  unfoldable pub save :
      String
      → String
      → Option R
      → List (String × List (String × Option R))
      → List (String × List (String × Option R))
  save dag_id node_id resp saves = elim (lookup dag_id saves) [
    | none ↦ insert dag_id (insert node_id resp []) saves
    | some nodes ↦ insert dag_id (insert node_id resp nodes) saves
  ]

  abbrev pub read : Option (Option R) → Option R
  read none = none
  read (some resp) = resp

  unfoldable pub load : String → String → List (String × List (String × Option R)) → Option R
  load dag_id node_id saves = elim (lookup dag_id saves) [
    | none ↦ none
    | some nodes ↦ read (lookup node_id nodes)
  ]

  unfoldable pub load_all :
      String → List (String × List (String × Option R)) → Option (List (String × Option R))
  load_all dag_id saves = lookup dag_id saves

  unfoldable pub clear :
      String → List (String × List (String × Option R)) → List (String × List (String × Option R))
  clear dag_id saves = delete dag_id saves
