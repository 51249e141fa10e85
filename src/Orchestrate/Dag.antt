-- ===== src/Orchestrate/Dag.antt =====
-- The DAG executor (orchestrate/dag.go) in first-in-first-out mode: the state of `dagExecutor`, and
-- its handlers in the order of their calls. Goroutines are the environment: `launched` records what
-- was started, and `handle_completion` is called with the completions that they send. With
-- `PriorityScheduling` off, `pq` is nil and `drainPQ` does nothing.
pub mod Order
pub mod Invariant
mod Schedule
mod Progress
pub mod Liveness
mod Tests
use vagent.Common.{
  ℕ, zero, suc, ◌+◌, ◌-◌, String, Bool, true, false, not, ◌&&◌, ◌||◌, List, [], ◌∷◌, ◌++◌, Option,
  none, some, ◌==◌, length, str_eq, if◌then◌else◌, lookup,
}
use vagent.Schema.{Types, RunRequest, RunResponse, Outcome, ok, err}
use vagent.Orchestrate.Node.{
  NodeStatus, pending, running, done, failed, skipped, compensated, Node, update, node_of,
  ErrorStrategy, abort, skip, compensate,
}
use vagent.Orchestrate.Topology.{build_dag_maps}

-- The calls of `DAGEventHandler` and of the checkpoint store's `Save`.
pub data Event (T : Types) : Type 0 where
  node_start : String → Event T
  node_complete : String → NodeStatus → Event T
  saved : String → Option (RunResponse T) → Event T
  checkpoint_error : String → Event T

-- What a goroutine was started with; an `InputMapper` that fails sends its error itself.
pub data Launch (T : Types) : Type 0 where
  with_input : RunRequest T → Launch T
  with_error : T.Error → Launch T

pub record Config (T : Types) : Type 0 where
  pub error_strategy : ErrorStrategy
  pub early_exit : Option (String → Option (RunResponse T) → Bool)
  -- `CheckpointStore`: what `LoadAll` returns, and which saves fail.
  pub checkpoints : Option (List (String × RunResponse T) × (String → Bool))
  pub replay_mode : Bool

pub record Executor (T : Types) : Type 0 where
  pub status : String → NodeStatus
  pub results : String → Option (RunResponse T)
  pub in_degree : String → ℕ
  pub remaining : ℕ
  pub launched : List (String × Launch T)
  pub events : List (Event T)
  pub usage : Option T.Usage

abbrev pub is_pending : NodeStatus → Bool
is_pending pending = true
is_pending _ = false

abbrev pub is_done : NodeStatus → Bool
is_done done = true
is_done _ = false

abbrev pub is_running : NodeStatus → Bool
is_running running = true
is_running _ = false

-- The upstream results that a condition or an input mapper sees.
abbrev pub upstream :
    {T : Types}
    → (String → Option (RunResponse T))
    → List String
    → List (String × Option (RunResponse T))
upstream results [] = []
upstream results (d ∷ ds) = (d, results d) ∷ upstream results ds

abbrev pub concat_messages :
    {T : Types} → (String → Option (RunResponse T)) → List String → List T.Message
concat_messages results [] = []
concat_messages results (d ∷ ds) =
    let rest = concat_messages results ds in
    elim (results d) [ none ↦ rest | some r ↦ r.messages ++ rest ]

default_input :
    {T : Types} → List String → RunRequest T → (String → Option (RunResponse T)) → RunRequest T
default_input [] req results = req
default_input (d ∷ []) req results = elim (results d) [
  | none ↦ req
  | some r ↦ record req { messages = r.messages }
]
default_input (d ∷ e ∷ ds) req results = record req {
  messages = concat_messages results (d ∷ e ∷ ds);
}

unfoldable pub build_node_input :
    {T : Types}
    → Node T
    → RunRequest T
    → (String → Option (RunResponse T))
    → Outcome T (RunRequest T)
unfolding default_input
build_node_input n req results = elim n.input_mapper [
  | some mapper ↦ mapper (upstream results n.deps)
  | none ↦ ok (default_input n.deps req results)
]

abbrev pub condition_holds : {T : Types} → Node T → (String → Option (RunResponse T)) → Bool
condition_holds n results = elim n.condition [
  | none ↦ true
  | some holds ↦ holds (upstream results n.deps)
]

-- `countRunning`
unfoldable pub count_running : {T : Types} → List (Node T) → (String → NodeStatus) → ℕ
count_running [] status = 0
count_running (n ∷ ns) status =
    let rest = count_running ns status in if is_running (status n.id) then suc rest else rest

-- How a handler leaves the loop of `run`, or goes on.
pub data Verdict (T : Types) : Type 0 where
  go_on exit_early cancelled : Verdict T
  node_failed : String → T.Error → Verdict T

module _ {T : Types} (cfg : Config T) (ns : List (Node T)) (req : RunRequest T) where
  -- The end of `scheduleReady`: the input is built and the goroutine started.
  unfoldable pub launch : Node T → Executor T → Executor T
  unfolding build_node_input
  launch n s = elim (build_node_input n req s.results) [
    | err e ↦ record s {
      status = update n.id running s.status;
      launched = (n.id, with_error e) ∷ s.launched;
    }
    | ok input ↦ record s {
      status = update n.id running s.status;
      launched = (n.id, with_input input) ∷ s.launched;
      events = node_start n.id ∷ s.events;
    }
  ]

  -- `propagateDownstream` over a downstream list, given how a ready node is scheduled.
  unfoldable pub propagate :
      (String → Executor T → Executor T) → List String → Executor T → Executor T
  propagate schedule [] s = s
  propagate schedule (d ∷ ds) s =
      let degree = s.in_degree d - 1 in
      let s' = record s { in_degree = update d degree s.in_degree } in
      propagate schedule ds (if degree == 0 && is_pending (s.status d) then schedule d s' else s')

  abbrev pub replays : Executor T → String → Bool
  replays s x =
      cfg.replay_mode
      && (elim cfg.checkpoints [ none ↦ false | some _ ↦ true ])
      && is_done (s.status x)

  -- `scheduleReady`. It calls itself through `propagateDownstream` for every node that it skips,
  -- so the fuel bounds a chain of skips; `length ns` is enough, since each takes a pending node.
  unfoldable pub schedule : ℕ → String → Executor T → Executor T
  unfolding launch propagate
  schedule zero x s = s
  schedule (suc fuel) x s =
      let down = (build_dag_maps ns).0 x in
      elim (node_of ns x) [
        | none ↦ s
        | some n ↦ elim (replays s x) [
          | true ↦ propagate (schedule fuel) down (record s { remaining = s.remaining - 1 })
          | false ↦ elim (condition_holds n s.results) [
            | true ↦ launch n s
            | false ↦
                propagate (schedule fuel) down
                  (record s { status = update x skipped s.status; remaining = s.remaining - 1 })
          ]
        ]
      ]

  -- `enqueueReady` with no priority queue.
  abbrev pub enqueue_ready : String → Executor T → Executor T
  enqueue_ready = schedule (length ns)

  abbrev pub propagate_downstream : String → Executor T → Executor T
  propagate_downstream x s = propagate enqueue_ready ((build_dag_maps ns).0 x) s

  -- The first loop of `run`.
  unfoldable pub start_ready : List (Node T) → Executor T → Executor T
  unfolding schedule
  start_ready [] s = s
  start_ready (n ∷ rest) s =
      start_ready rest
        (if s.in_degree n.id == 0 && is_pending (s.status n.id) then enqueue_ready n.id s else s)

  abbrev pub save_checkpoint : String → Option (RunResponse T) → Executor T → Executor T
  save_checkpoint x resp s = elim cfg.checkpoints [
    | none ↦ s
    | some (_, save_fails) ↦
        if save_fails x
        then record s { events = checkpoint_error x ∷ s.events }
        else record s { events = saved x resp ∷ s.events }
  ]

  abbrev pub usage_of : Option (RunResponse T) → Option T.Usage
  usage_of none = none
  usage_of (some r) = r.usage

  abbrev pub add_usage : Option (RunResponse T) → Option T.Usage → Option T.Usage
  add_usage resp total = elim (usage_of resp) [
    | none ↦ total
    | some u ↦ elim total [
      | none ↦ some (T.add_usage T.no_usage u)
      | some t ↦ some (T.add_usage t u)
    ]
  ]

  abbrev pub exits_early : String → Option (RunResponse T) → Bool
  exits_early x resp = elim cfg.early_exit [ none ↦ false | some f ↦ f x resp ]

  -- The part of `handleNodeSuccess` before the early exit.
  unfoldable pub record_success : String → Option (RunResponse T) → Executor T → Executor T
  record_success x resp s = save_checkpoint x resp (record s {
    status = update x done s.status;
    results = update x resp s.results;
    events = node_complete x done ∷ s.events;
    usage = add_usage resp s.usage;
  })

  -- `handleNodeSuccess`; `is_cancelled` is `de.ctx.Err() != nil`.
  unfoldable pub handle_success :
      Bool → String → Option (RunResponse T) → Executor T → Executor T × Verdict T
  unfolding record_success
  handle_success is_cancelled x resp s =
      let s' = record_success x resp s in
      if exits_early x resp
      then (s', exit_early)
      else (if is_cancelled then (s', cancelled) else (propagate_downstream x s', go_on))

  abbrev pub is_abort : ErrorStrategy → Bool
  is_abort abort = true
  is_abort _ = false

  abbrev pub is_optional : String → Bool
  is_optional x = elim (node_of ns x) [ none ↦ false | some n ↦ n.optional ]

  -- `handleNodeError` without compensation (`CompensateCfg` nil).
  unfoldable pub handle_error : String → T.Error → Executor T → Executor T × Verdict T
  handle_error x e s =
      let s' = record s {
        status = update x failed s.status;
        events = node_complete x failed ∷ s.events;
      } in
      if is_abort cfg.error_strategy || not (is_optional x)
      then (s', node_failed x e)
      else (propagate_downstream x (record s' { status = update x skipped s'.status }), go_on)

  -- The receipt of a completion in `run`, with `handleCompletion`.
  unfoldable pub handle_completion :
      Bool → String → Outcome T (Option (RunResponse T)) → Executor T → Executor T × Verdict T
  unfolding handle_success handle_error
  handle_completion is_cancelled x outcome s =
      let s' = record s { remaining = s.remaining - 1 } in
      elim outcome [ ok resp ↦ handle_success is_cancelled x resp s' | err e ↦ handle_error x e s' ]

  -- `newDagExecutor` after validation: the checkpoints are laid over the pending nodes.
  unfoldable pub resume : List (String × RunResponse T) → Executor T → Executor T
  resume [] s = s
  resume ((x, resp) ∷ saves) s = resume saves (elim (node_of ns x) [
    | none ↦ s
    | some _ ↦ record s {
      status = update x done s.status;
      results = update x (some resp) s.results;
    }
  ])

  -- The in-degrees below the nodes that are already done.
  unfoldable pub lower_degrees : List String → (String → ℕ) → String → ℕ
  lower_degrees [] degree = degree
  lower_degrees (d ∷ ds) degree = lower_degrees ds (update d (degree d - 1) degree)

  unfoldable pub lower_all : List (Node T) → (String → NodeStatus) → (String → ℕ) → String → ℕ
  unfolding lower_degrees
  lower_all [] status degree = degree
  lower_all (n ∷ rest) status degree =
      lower_all rest status (
        if is_done (status n.id) then lower_degrees ((build_dag_maps ns).0 n.id) degree else degree)

  unfoldable pub count_pending : List (Node T) → (String → NodeStatus) → ℕ
  count_pending [] status = 0
  count_pending (n ∷ rest) status =
      let count = count_pending rest status in if is_pending (status n.id) then suc count else count

  unfoldable pub new_executor : Executor T
  unfolding resume lower_all count_pending
  new_executor =
      let fresh : Executor T = record {
        status = λ x. pending;
        results = λ x. none;
        in_degree = (build_dag_maps ns).1;
        remaining = 0;
        launched = [];
        events = [];
        usage = none;
      } in
      let s = resume (elim cfg.checkpoints [ none ↦ [] | some (saves, _) ↦ saves ]) fresh in
      record s {
        in_degree = lower_all ns s.status s.in_degree;
        remaining = count_pending ns s.status;
      }
