-- ===== src/Orchestrate/Dag/Invariant.antt =====
-- The invariant of the scheduler, and that its elementary changes keep it (orchestrate/dag.go).
use vagent.Common.{
  ℕ, ◌+◌, ◌-◌, ◌<◌, ◌≡◌, ◌⊎◌, String, Bool, true, false, List, [], ◌∷◌, ◌++◌, none, some, arith,
  eq_iff, ◌==◌, ◌&&◌,
}
use vagent.Schema.{Types}
use vagent.Orchestrate.Node.{NodeStatus, running, Node, update, node_of}
use vagent.Orchestrate.Topology.{build_dag_maps}
use vagent.Orchestrate.Topology.Degrees.{
  occurrences, occurrences-append, HasDistinctIds, build_dag_maps_lem,
}
use vagent.Orchestrate.Dag.{Executor, is_pending}
use vagent.Orchestrate.Dag.Order.{
  is_settled, is_active, unsettled, unsettled_keep, unsettled_settle, count_status,
  count_status-update,
}

-- `owed` are the decrements that a propagation has still to make, `waiting` the ready nodes that
-- are still to be scheduled, and `resumed` the nodes that a checkpoint had done.
pub record Schedules {T : Types} (ns : List (Node T)) (resumed : String → Bool)
    (owed waiting : List String) (status : String → NodeStatus) (degree : String → ℕ)
    (remaining : ℕ) : Type 0 where
  -- An in-degree counts the dependencies that are not settled.
  pub degrees :
      (x : String) (n : Node T)
      → node_of ns x ≡ some n
      → degree x ≡ unsettled status n.deps + occurrences x owed
  -- No ready node is forgotten.
  pub ready :
      (x : String) (n : Node T)
      → node_of ns x ≡ some n
      → is_pending (status x) ≡ true
      → degree x ≡ 0
      → 0 < occurrences x waiting
  -- A node that has started has all its dependencies settled, unless a checkpoint had it done.
  pub started :
      (x : String) (n : Node T)
      → node_of ns x ≡ some n
      → is_pending (status x) ≡ false
      → (unsettled status n.deps ≡ 0) ⊎ (resumed x ≡ true)
  -- `pending` counts the nodes that wait or run.
  pub counted : remaining ≡ count_status is_active ns status
  -- Between two handlers no node is failed or compensated.
  pub settling :
      (x : String) (n : Node T)
      → node_of ns x ≡ some n
      → (is_active (status x) ≡ true) ⊎ (is_settled (status x) ≡ true)

abbrev pub IsConsistent :
    {T : Types} → List (Node T) → (String → Bool) → List String → List String → Executor T → Type 0
IsConsistent ns resumed owed waiting s =
    Schedules ns resumed owed waiting s.status s.in_degree s.remaining

module _ {T : Types} (ns : List (Node T)) (distinct : HasDistinctIds ns)
    (resumed : String → Bool) where
  open_down :
      (x y : String) (n : Node T)
      → node_of ns y ≡ some n
      → occurrences y ((build_dag_maps ns).0 x) ≡ occurrences x n.deps
  open_down x y n at = ground (arith, (build_dag_maps_lem ns y x distinct).0)

  -- A scheduled node that is not ready after all can be taken off the list.
  pub IsConsistent-drop :
      (d : String) (owed waiting : List String) (s : Executor T)
      → (s.in_degree d == 0 && is_pending (s.status d)) ≡ false
      → IsConsistent ns resumed owed (d ∷ waiting) s
      → IsConsistent ns resumed owed waiting s
  IsConsistent-drop d owed waiting s idle c = record {
    degrees = c.degrees;
    ready = λ x n at p z. ground (arith, c.ready x n at p z, eq_iff d x);
    started = c.started;
    counted = c.counted;
    settling = c.settling;
  }

  pub IsConsistent-drop_unknown :
      (d : String) (owed waiting : List String) (s : Executor T)
      → node_of ns d ≡ none
      → IsConsistent ns resumed owed (d ∷ waiting) s
      → IsConsistent ns resumed owed waiting s
  IsConsistent-drop_unknown d owed waiting s unknown c = record {
    degrees = c.degrees;
    ready = λ x n at p z. ground (arith, c.ready x n at p z, eq_iff d x);
    started = c.started;
    counted = c.counted;
    settling = c.settling;
  }

  pub IsConsistent-add :
      (x : String) (owed waiting : List String) (s : Executor T)
      → IsConsistent ns resumed owed waiting s
      → IsConsistent ns resumed owed (x ∷ waiting) s
  IsConsistent-add x owed waiting s c = record {
    degrees = c.degrees;
    ready = λ y n at p z. ground (arith, c.ready y n at p z);
    started = c.started;
    counted = c.counted;
    settling = c.settling;
  }

  -- One decrement of a propagation.
  pub IsConsistent-decrement :
      (d : String) (owed waiting : List String) (s : Executor T)
      → IsConsistent ns resumed (d ∷ owed) waiting s
      → IsConsistent ns resumed owed
          (d ∷ waiting)
          (record s { in_degree = update d (s.in_degree d - 1) s.in_degree })
  IsConsistent-decrement d owed waiting s c = record {
    degrees = λ x n at. ground (arith, c.degrees x n at, eq_iff d x, eq_iff d d);
    ready = λ x n at p z. ground (arith, c.ready x n at p, eq_iff d x);
    started = c.started;
    counted = c.counted;
    settling = c.settling;
  }

  -- A node that starts to run.
  pub IsConsistent-run :
      (x : String) (n : Node T) (owed waiting : List String) (s : Executor T)
      → node_of ns x ≡ some n
      → is_pending (s.status x) ≡ true
      → s.in_degree x ≡ 0
      → IsConsistent ns resumed owed (x ∷ waiting) s
      → IsConsistent ns resumed owed waiting (record s { status = update x running s.status })
  IsConsistent-run x n owed waiting s at p z c = record {
    degrees = λ y m aty.
        ground (arith, c.degrees y m aty, unsettled_keep x running s.status m.deps (ground arith));
    ready = λ y m aty py zy. ground (arith, c.ready y m aty, eq_iff x y, eq_iff x x);
    started = λ y m aty py. ground (
      arith,
      c.started y m aty,
      c.degrees y m aty,
      unsettled_keep x running s.status m.deps (ground arith),
      eq_iff x y,
    );
    counted =
        ground (arith, c.counted, count_status-update is_active x running s.status ns distinct at);
    settling = λ y m aty. ground (arith, c.settling y m aty, eq_iff x y);
  }

  -- A node that is done or skipped: its downstream is owed a decrement each.
  pub IsConsistent-settle :
      (x : String) (n : Node T) (v : NodeStatus) (owed waiting : List String) (s : Executor T)
      → node_of ns x ≡ some n
      → is_active (s.status x) ≡ true
      → is_settled v ≡ true
      → unsettled s.status n.deps ≡ 0
      → IsConsistent ns resumed owed (x ∷ waiting) s
      → IsConsistent ns resumed
          ((build_dag_maps ns).0 x ++ owed)
          waiting
          (record s { status = update x v s.status; remaining = s.remaining - 1 })
  IsConsistent-settle x n v owed waiting s at a settles clear c = record {
    degrees = λ y m aty. ground (
      arith,
      c.degrees y m aty,
      unsettled_settle x v s.status m.deps,
      open_down x y m aty,
      occurrences-append y ((build_dag_maps ns).0 x) owed,
    );
    ready = λ y m aty py zy. ground (arith, c.ready y m aty, eq_iff x y, eq_iff x x);
    started = λ y m aty py.
        ground (arith, c.started y m aty, unsettled_settle x v s.status m.deps, eq_iff x y);
    counted = ground (arith, c.counted, count_status-update is_active x v s.status ns distinct at);
    settling = λ y m aty. ground (arith, c.settling y m aty, eq_iff x y);
  }

  pub node_of-id : (ms : List (Node T)) (x : String) {n : Node T} → node_of ms x ≡ some n → n.id ≡ x
  unfolding node_of
  node_of-id [] x h = cc
  node_of-id (m ∷ ms) x {n} h = ground (arith, node_of-id ms x {n = n}, eq_iff m.id x)
