-- ===== src/Orchestrate/Checkpoint/Store.antt =====
-- Checkpoints are kept apart by graph and by node (orchestrate/checkpoint.go).
use vagent.Common.{
  ◌≡◌, String, List, Option, none, Option-cases, inl, inr, arith, str_eq, eq_iff, lookup, insert,
  lookup-insert, lookup-delete, ◌&&◌, if◌then◌else◌, [],
}
use vagent.Orchestrate.Checkpoint.{save, load, clear}

module _ {R : Type 0} where
  load-save :
      (dag_id node_id d n : String) (resp : Option R)
      (saves : List (String × List (String × Option R)))
      → load d n (save dag_id node_id resp saves)
        ≡ (if str_eq dag_id d && str_eq node_id n then resp else load d n saves)
  unfolding load save lookup
  load-save dag_id node_id d n resp saves = elim (Option-cases (lookup dag_id saves)) [
    | inl gone ↦ ground (
      arith,
      gone,
      lookup-insert dag_id d (insert node_id resp []) saves,
      lookup-insert node_id n resp [],
      eq_iff dag_id d,
    )
    | inr (nodes, at) ↦ ground (
      arith,
      at,
      lookup-insert dag_id d (insert node_id resp nodes) saves,
      lookup-insert node_id n resp nodes,
      eq_iff dag_id d,
    )
  ]

  load-clear :
      (dag_id d n : String) (saves : List (String × List (String × Option R)))
      → load d n (clear dag_id saves) ≡ (if str_eq dag_id d then none else load d n saves)
  unfolding load clear
  load-clear dag_id d n saves = ground (arith, lookup-delete dag_id d saves)
