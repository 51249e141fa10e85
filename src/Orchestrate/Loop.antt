-- ===== src/Orchestrate/Loop.antt =====
-- Loops over a runner (orchestrate/loop.go, `ExecuteLoop`). The body and the poll of the context
-- act on a world `W`. `LoopNode.Body` is never nil here. `MaxIters` is a natural number, 0 for none
-- (Go takes a negative one as none too). A loop without `MaxIters` runs on fuel, and `none` says
-- that the fuel ran out; with it the number of rounds is `MaxIters`, and no fuel is used.
mod Rounds
mod Tests
use vagent.Common.{ℕ, zero, suc, Bool, true, false, not, ◌||◌, Option, none, some, if◌then◌else◌}
use vagent.Schema.{Types, RunRequest, RunResponse, Outcome, ok, err}

pub record LoopNode (T : Types) (W : Type 0) : Type 0 where
  pub body : RunRequest T → W → Outcome T (Option (RunResponse T)) × W
  pub condition : Option (Option (RunResponse T) → Bool)
  pub max_iters : ℕ
  pub convergence : Option (RunResponse T → RunResponse T → Bool)

-- The error of a round: the context's, the body's, or a response that is nil.
pub data LoopError (T : Types) : Type 0 where
  cancelled : T.Error → LoopError T
  iteration_failed : T.Error → LoopError T
  nil_response : LoopError T

pub data LoopResult (T : Types) : Type 0 where
  answer : RunResponse T → LoopResult T
  stopped : LoopError T → LoopResult T

-- The variables of the loop.
pub record LoopState (T : Types) : Type 0 where
  pub current_req : RunRequest T
  pub prev_resp : Option (RunResponse T)
  pub last_resp : Option (RunResponse T)
  pub total_usage : Option T.Usage

module _ {T : Types} {W : Type 0} (loop : LoopNode T W) (poll : W → Option T.Error)
    (req : RunRequest T) where
  -- The response after the loop.
  abbrev pub finish : LoopState T → LoopResult T
  finish st = elim st.last_resp [
    | none ↦ answer (record {
      messages = req.messages;
      session_id = req.session_id;
      usage = none;
      metadata = none;
      duration = 0;
      stop_reason = none;
    })
    | some last ↦ answer (record {
      messages = last.messages;
      session_id = req.session_id;
      usage = st.total_usage;
      metadata = last.metadata;
      duration = 0;
      stop_reason = none;
    })
  ]

  abbrev pub add_usage : Option T.Usage → Option T.Usage → Option T.Usage
  add_usage none total = total
  add_usage (some u) none = some (T.add_usage T.no_usage u)
  add_usage (some u) (some t) = some (T.add_usage t u)

  abbrev pub condition_stops : Option (RunResponse T) → Bool
  condition_stops resp = elim loop.condition [ none ↦ false | some holds ↦ not (holds resp) ]

  abbrev pub converged : Option (RunResponse T) → RunResponse T → Bool
  converged prev resp = elim loop.convergence [
    | none ↦ false
    | some same ↦ elim prev [ none ↦ false | some p ↦ same p resp ]
  ]

  -- The state after a round that answered.
  abbrev pub next_state : RunResponse T → LoopState T → LoopState T
  next_state resp st = record {
    current_req = record req { messages = resp.messages };
    prev_resp = some resp;
    last_resp = some resp;
    total_usage = add_usage resp.usage st.total_usage;
  }

  -- The loop, with the number of rounds left and what happens after them.
  unfoldable pub rounds :
      (LoopState T → Option (LoopResult T)) → ℕ → LoopState T → W → Option (LoopResult T) × W
  rounds at_end zero st w = (at_end st, w)
  rounds at_end (suc n) st w = elim (poll w) [
    | some e ↦ (some (stopped (cancelled e)), w)
    | none ↦
        let (outcome, w') = loop.body st.current_req w in
        elim outcome [
          | err e ↦ (some (stopped (iteration_failed e)), w')
          | ok none ↦ (some (stopped nil_response), w')
          | ok (some resp) ↦
              let rest = rounds at_end n (next_state resp st) w' in
              if condition_stops (some resp) || converged st.prev_resp resp
              then (some (finish (next_state resp st)), w')
              else rest
        ]
  ]

  abbrev pub start_state : LoopState T
  start_state = record { current_req = req; prev_resp = none; last_resp = none; total_usage = none }

  -- `ExecuteLoop`
  unfoldable pub execute_loop : ℕ → W → Option (LoopResult T) × W
  unfolding rounds
  execute_loop fuel w =
      if condition_stops none then (some (finish start_state), w) else (elim loop.max_iters [
        | zero ↦ rounds (λ st. none) fuel start_state w
        | suc n ↦ rounds (λ st. some (finish st)) (suc n) start_state w
      ])
