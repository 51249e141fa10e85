-- ===== src/Agent/Workflow.antt =====
-- The workflow agent (agent/workflowagent/workflow.go). Steps, loops and the poll of the context act
-- on a world `W` with its clock in nanoseconds. `ExecuteDAG` runs goroutines: it is an argument, with
-- the final output and the usage of its result.
mod Sequence
mod Tests
use vagent.Common.{ℕ, zero, suc, ◌-◌, ◌/◌, List, [], ◌∷◌, Option, none, some}
use vagent.Schema.{Types, RunRequest, RunResponse, Outcome, ok, err}
use vagent.Orchestrate.Loop.{LoopNode, LoopError, LoopResult, answer, stopped, execute_loop}

abbrev pub Step : Types → Type 0 → Type 0
Step T W = RunRequest T → W → Outcome T (Option (RunResponse T)) × W

-- The mode of an agent, with what it runs.
pub data Mode (T : Types) (W : Type 0) : Type 0 where
  sequence_mode : List (Step T W) → Mode T W
  dag_mode : (RunRequest T → W → Outcome T (Option (RunResponse T) × Option T.Usage) × W) → Mode T W
  loop_mode : LoopNode T W → Mode T W

pub record Workflow (T : Types) (W : Type 0) : Type 0 where
  pub mode : Mode T W
  -- `ctx.Err()`
  pub poll : W → Option T.Error
  pub now : W → ℕ

-- Errors with the number of their step, from 1.
pub data WorkflowError (T : Types) : Type 0 where
  cancelled : T.Error → WorkflowError T
  step_failed : ℕ → T.Error → WorkflowError T
  nil_response : ℕ → WorkflowError T
  dag_failed : T.Error → WorkflowError T
  loop_failed : LoopError T → WorkflowError T
  out_of_fuel : WorkflowError T

pub data WorkflowResult (T : Types) : Type 0 where
  responds : RunResponse T → WorkflowResult T
  fails : WorkflowError T → WorkflowResult T

-- The variables of the loop over the steps; `total_usage` is `none` while `hasUsage` is false.
pub record Progress (T : Types) : Type 0 where
  pub current_req : RunRequest T
  pub last_resp : Option (RunResponse T)
  pub total_usage : Option T.Usage

abbrev pub add_usage : (T : Types) → Option T.Usage → Option T.Usage → Option T.Usage
add_usage T none total = total
add_usage T (some u) none = some (T.add_usage T.no_usage u)
add_usage T (some u) (some t) = some (T.add_usage t u)

module _ {T : Types} where
  abbrev pub plain_response : List T.Message → RunRequest T → RunResponse T
  plain_response messages req = record {
    messages = messages;
    session_id = req.session_id;
    usage = none;
    duration = 0;
    metadata = none;
    stop_reason = none;
  }

  abbrev pub next_progress : RunRequest T → RunResponse T → Progress T → Progress T
  next_progress req resp p = record {
    current_req = record req { messages = resp.messages };
    last_resp = some resp;
    total_usage = add_usage T resp.usage p.total_usage;
  }

  -- The response after the steps.
  abbrev pub sequence_response : RunRequest T → Progress T → RunResponse T
  sequence_response req p = elim p.last_resp [
    | none ↦ plain_response req.messages req
    | some last ↦ record (plain_response last.messages req) {
      usage = p.total_usage;
      metadata = last.metadata;
    }
  ]

  abbrev pub dag_output : RunRequest T → Option (RunResponse T) → RunResponse T
  dag_output req none = plain_response req.messages req
  dag_output req (some resp) = record resp { session_id = req.session_id }

  abbrev pub dag_response : RunRequest T → Option (RunResponse T) → Option T.Usage → RunResponse T
  dag_response req output none = dag_output req output
  dag_response req output (some u) = record (dag_output req output) { usage = some u }

module _ {T : Types} {W : Type 0} where
  -- The loop over the steps, of which the next has an index.
  unfoldable pub run_steps :
      (W → Option T.Error)
      → RunRequest T
      → ℕ
      → List (Step T W)
      → Progress T
      → W
      → WorkflowResult T × W
  run_steps poll req i [] p w = (responds (sequence_response req p), w)
  run_steps poll req i (step ∷ steps) p w = elim (poll w) [
    | some e ↦ (fails (cancelled e), w)
    | none ↦
        let (outcome, w') = step p.current_req w in
        elim outcome [
          | err e ↦ (fails (step_failed (suc i) e), w')
          | ok none ↦ (fails (nil_response (suc i)), w')
          | ok (some resp) ↦ run_steps poll req (suc i) steps (next_progress req resp p) w'
        ]
  ]

  unfoldable pub run_sequence :
      (W → Option T.Error) → List (Step T W) → RunRequest T → W → WorkflowResult T × W
  unfolding run_steps
  run_sequence poll steps req w =
      run_steps poll req zero steps
        (record { current_req = req; last_resp = none; total_usage = none }) w

  unfoldable pub run_dag :
      (RunRequest T → W → Outcome T (Option (RunResponse T) × Option T.Usage) × W)
      → RunRequest T
      → W
      → WorkflowResult T × W
  run_dag execute req w =
      let (outcome, w') = execute req w in
      elim outcome [
        | err e ↦ (fails (dag_failed e), w')
        | ok (output, total) ↦ (responds (dag_response req output total), w')
      ]

  unfoldable pub run_loop :
      (W → Option T.Error) → LoopNode T W → ℕ → RunRequest T → W → WorkflowResult T × W
  unfolding execute_loop
  run_loop poll loop fuel req w =
      let (result, w') = execute_loop loop poll req fuel w in
      elim result [
        | none ↦ (fails out_of_fuel, w')
        | some (stopped e) ↦ (fails (loop_failed e), w')
        | some (answer resp) ↦ (responds (record resp { session_id = req.session_id }), w')
      ]

  abbrev pub run_mode : Workflow T W → ℕ → RunRequest T → W → WorkflowResult T × W
  run_mode a fuel req w = elim a.mode [
    | sequence_mode steps ↦ run_sequence a.poll steps req w
    | dag_mode execute ↦ run_dag execute req w
    | loop_mode loop ↦ run_loop a.poll loop fuel req w
  ]

  -- `Run`, with fuel for a loop without bound.
  unfoldable pub run : Workflow T W → ℕ → RunRequest T → W → WorkflowResult T × W
  unfolding run_sequence run_dag run_loop
  run a fuel req w =
      let (result, w') = run_mode a fuel req w in
      elim result [
        | fails e ↦ (fails e, w')
        | responds resp ↦ (responds (record resp { duration = (a.now w' - a.now w) / 1000000 }), w')
      ]
