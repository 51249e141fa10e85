-- ===== src/Orchestrate/Compensate.antt =====
-- Compensation (orchestrate/compensate.go) and the order that it follows (orchestrate/topo.go,
-- `topologicalSort`). What compensates a node, or runs it again, with its timeout, acts on a world
-- `W`, and so does the wait before a retry, which ends with an error when the context is done. The
-- queue of the sort is on fuel.
mod Calls
mod Placed
mod Order
mod Sorted
mod Tests
use vagent.Common.{
  ℕ, zero, suc, ◌+◌, ◌-◌, ◌*◌, ◌^◌, String, Bool, true, false, ◌&&◌, List, [], ◌∷◌, ◌++◌, Option,
  none, some, ◌==◌, ltb, if◌then◌else◌,
}
use vagent.Schema.{Types, RunRequest, RunResponse, Outcome, ok, err}
use vagent.Orchestrate.Node.{
  NodeStatus, pending, running, done, failed, skipped, compensated, Node, update, node_of,
}
use vagent.Orchestrate.Topology.{build_dag_maps}

-- The loop over the downstream nodes: the degrees and the queue.
unfoldable pub release_downstream :
    List String → (String → ℕ) → List String → (String → ℕ) × List String
release_downstream [] degree queue = (degree, queue)
release_downstream (d ∷ ds) degree queue =
    let degree' = update d (degree d - 1) degree in
    release_downstream ds degree' (if degree' d == 0 then queue ++ d ∷ [] else queue)

-- The loop over the queue; `none` is out of fuel.
unfoldable pub sort_queue :
    (String → List String) → ℕ → (String → ℕ) → List String → List String → Option (List String)
unfolding release_downstream
sort_queue down fuel degree [] order = some order
sort_queue down zero degree (cur ∷ queue) order = none
sort_queue down (suc fuel) degree (cur ∷ queue) order =
    let after = release_downstream (down cur) degree queue in
    sort_queue down fuel after.0 after.1 (order ++ cur ∷ [])

-- The nodes without dependencies.
unfoldable pub roots : {T : Types} → (String → ℕ) → List (Node T) → List String
roots degree [] = []
roots degree (n ∷ ns) = let rest = roots degree ns in if degree n.id == 0 then n.id ∷ rest else rest

unfoldable pub topological_sort : {T : Types} → ℕ → List (Node T) → Option (List String)
unfolding sort_queue roots build_dag_maps
topological_sort fuel ns =
    let (down, degree) = build_dag_maps ns in sort_queue down fuel degree (roots degree ns) []

pub record CompensateConfig : Type 0 where
  pub max_retries : ℕ

-- `Compensatable` with the answer of `Idempotent`.
pub record Compensator (T : Types) (W : Type 0) : Type 0 where
  pub compensate : RunResponse T → W → Option T.Error × W
  pub is_idempotent : Bool

-- `(1 << attempt) * 100ms`, in nanoseconds.
abbrev pub backoff : ℕ → ℕ
backoff attempt = 2 ^ attempt * 100000000

pub data CompensationError (T : Types) : Type 0 where
  gave_up : ℕ → T.Error → CompensationError T
  cancelled : T.Error → CompensationError T

abbrev pub max_attempts : CompensateConfig → Bool → ℕ
max_attempts cfg is_idempotent =
    if is_idempotent && ltb 0 cfg.max_retries then cfg.max_retries + 1 else 1

abbrev pub is_done : NodeStatus → Bool
is_done done = true
is_done _ = false

-- The done nodes, the last one of the order first.
unfoldable pub completed_reverse : (String → NodeStatus) → List String → List String
completed_reverse status [] = []
completed_reverse status (id ∷ order) =
    let rest = completed_reverse status order in
    if is_done (status id) then rest ++ id ∷ [] else rest

-- The status, the errors and the world of a rollback.
pub record Rollback (T : Types) (W : Type 0) : Type 0 where
  pub status : String → NodeStatus
  pub errors : List (String × CompensationError T)
  pub world : W

module _ {T : Types} {W : Type 0} (cfg : CompensateConfig) (wait : ℕ → W → Option T.Error × W) where
  -- The attempts, with the number of those that are left after the next.
  unfoldable pub compensate_attempts :
      Compensator T W → RunResponse T → ℕ → ℕ → W → Option (CompensationError T) × W
  compensate_attempts comp resp zero attempt w =
      let (problem, w₁) = comp.compensate resp w in
      elim problem [ none ↦ (none, w₁) | some e ↦ (some (gave_up (suc attempt) e), w₁) ]
  compensate_attempts comp resp (suc left) attempt w =
      let (problem, w₁) = comp.compensate resp w in
      elim problem [
        | none ↦ (none, w₁)
        | some e ↦
            let (stopped, w₂) = wait (backoff attempt) w₁ in
            elim stopped [
              | some stop ↦ (some (cancelled stop), w₂)
              | none ↦ compensate_attempts comp resp left (suc attempt) w₂
            ]
      ]

  unfoldable pub execute_node_compensation :
      Compensator T W → RunResponse T → W → Option (CompensationError T) × W
  unfolding compensate_attempts
  execute_node_compensation comp resp w =
      compensate_attempts comp resp (max_attempts cfg comp.is_idempotent - 1) 0 w

  module _ (compensator : String → Option (Compensator T W))
      (results : String → Option (RunResponse T)) where
    -- One node of the loop: it has a compensator and a response, or it is passed over.
    unfoldable pub compensate_node : String → Rollback T W → Rollback T W
    unfolding execute_node_compensation
    compensate_node id r = elim (compensator id) [
      | none ↦ r
      | some comp ↦ elim (results id) [
        | none ↦ r
        | some resp ↦
            let (problem, w) = execute_node_compensation comp resp r.world in
            elim problem [
              | some e ↦ record r { errors = r.errors ++ (id, e) ∷ []; world = w }
              | none ↦ record r { status = update id compensated r.status; world = w }
            ]
      ]
    ]

    unfoldable pub compensate_nodes : List String → Rollback T W → Rollback T W
    unfolding compensate_node
    compensate_nodes [] r = r
    compensate_nodes (id ∷ ids) r = compensate_nodes ids (compensate_node id r)

    -- The errors are those of the nodes whose compensation failed.
    unfoldable pub execute_backward_compensation : List String → Rollback T W → Rollback T W
    unfolding compensate_nodes completed_reverse
    execute_backward_compensation order r = compensate_nodes (completed_reverse r.status order) r
