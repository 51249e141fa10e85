-- ===== src/Agent/TaskAgent/Stream.antt =====
-- The streaming run of the task agent (agent/taskagent/task.go, `buildSend`, `RunStream`,
-- `runStreamLoop`, `finalizeStream`). What the model streams is a list of chunks, then the end or an
-- error, and the usage if it was reported. The function that `RunStream` hands to the stream runs
-- right away.
pub mod Blocked
pub mod Quiet
pub mod Answer
pub mod Requests
pub mod Sends
mod Whole
mod Tests
use vagent.Common.{
  ℕ, zero, suc, ◌+◌, ◌-◌, ◌/◌, ltb, String, str_eq, Bool, true, false, not, ◌&&◌, List, [], ◌∷◌,
  ◌++◌, Option, none, some, if◌then◌else◌,
}
use vagent.Schema.{
  StopReason, complete, token_budget_exhausted, max_iterations_exceeded, RunRequest, RunResponse,
}
use vagent.Guard.{Result, ChainError}
use vagent.Tool.Registry.{ToolDef}
use vagent.Agent.Chat.{Chat, AgentMessage, agent_types, ChatRequest, ToolResult}
use vagent.Agent.TaskAgent.{
  Event, agent_start, agent_end, tool_call_start, tool_call_end, budget_exhausted, Agent,
}
use vagent.Agent.TaskAgent.Budget.{BudgetTracker, exhausted, add}
use vagent.Agent.TaskAgent.Prepare.{
  RunParams, resolve_run_params, build_initial_messages, inject_skill_instructions,
  prepare_ai_tools,
}
use vagent.Agent.TaskAgent.Guarding.{
  let_through, blocked, guard_failed, run_input_guards, run_output_guards,
}
use vagent.Agent.TaskAgent.Run.{
  RunContext, RunError, no_completer, input_blocked, input_guard_failed, prompt_failed,
  tool_result_text, is_complete, is_budget, since_ms, execute_tool_call, build_response_msgs,
  store_and_promote_messages, first_text, chat_request, new_run_context,
}
use vagent.Agent.TaskAgent.Chunks.{
  Streaming, ModelStream, Opened, streams, not_opened, StreamEvent, common, iteration_start,
  tool_result, StreamError, send_failed, stream_failed, recv_failed, output_blocked,
  output_guard_failed, not_started, Send, Accumulated, read_chunks, count_stream,
}

module _ {C : Chat} (S : Streaming C) {W : Type 0} (send : Send C W) (a : Agent C W) where
  abbrev pub send_budget : RunContext C → StopReason → W → Option C.Error × W
  send_budget rc stop w =
      if is_budget stop
      then send (common (budget_exhausted rc.tracker.budget rc.tracker.consumed (suc rc.iteration)))
          w
      else (none, w)

  abbrev pub sent : Option C.Error × W → Option (StreamError C) × W
  sent r = elim r.0 [ none ↦ (none, r.1) | some e ↦ (some (send_failed e), r.1) ]

  unfoldable pub finish_stream :
      RunContext C → StopReason → List (AgentMessage C) → W → Option (StreamError C) × W
  unfolding store_and_promote_messages
  finish_stream rc stop msgs w =
      let w₁ = store_and_promote_messages a rc.req_msgs msgs rc.session_msg_count w in
      let (problem, w₂) = send_budget rc stop w₁ in
      elim problem [
        | some e ↦ (some (send_failed e), w₂)
        | none ↦
            sent
              (send (common (agent_end (since_ms rc.start (a.now w₂)) (first_text a msgs) stop)) w₂)
      ]

  -- The error of the guards ends a completed stream; a partial one goes on with its messages.
  unfoldable pub finalize_stream : RunContext C → StopReason → W → Option (StreamError C) × W
  unfolding build_response_msgs run_output_guards finish_stream
  finalize_stream rc stop w =
      let msgs = build_response_msgs a rc.last_msg (not (is_complete stop)) (a.now w) in
      let partial = finish_stream rc stop msgs w in
      elim (run_output_guards a rc.session_id msgs w) [
        | let_through guarded ↦ finish_stream rc stop guarded w
        | blocked r ↦ if is_complete stop then (some (output_blocked r), w) else partial
        | guard_failed e ↦ if is_complete stop then (some (output_guard_failed e), w) else partial
      ]

  -- The loop over the tool calls: an error of a send, or the messages with the results.
  unfoldable pub run_stream_calls :
      List C.ToolCall → List C.Message → W → Option C.Error × (List C.Message × W)
  unfolding execute_tool_call tool_result_text
  run_stream_calls [] messages w = (none, (messages, w))
  run_stream_calls (tc ∷ tcs) messages w =
      let (problem, w₁) = send (common (tool_call_start tc)) w in
      elim problem [
        | some e ↦ (some e, (messages, w₁))
        | none ↦
            let (result, w₂) = execute_tool_call a tc w₁ in
            let (problem', w₃) =
              send (common (tool_call_end tc (since_ms (a.now w₁) (a.now w₂)))) w₂ in
            elim problem' [
              | some e ↦ (some e, (messages, w₃))
              | none ↦
                  let (problem'', w₄) = send (tool_result tc result) w₃ in
                  elim problem'' [
                    | some e ↦ (some e, (messages, w₄))
                    | none ↦
                        run_stream_calls tcs
                          (messages
                            ++ C.tool_message result.tool_call_id (tool_result_text result.content)
                              ∷ [])
                          w₄
                  ]
            ]
      ]

  module _ (open_stream : ChatRequest C → W → Opened S × W) (p : RunParams C)
      (tools : List (ToolDef C.Parameters)) where
    -- What follows a message that was streamed, where `continue` is the next iteration.
    abbrev pub after_stream :
        (List C.Message → RunContext C → W → Option (StreamError C) × W)
        → List C.Message
        → Accumulated C
        → RunContext C
        → W
        → Option (StreamError C) × W
    after_stream continue messages acc rc w =
        let calls = C.tool_calls acc.message in
        elim (acc.calls_tools && (elim calls [ [] ↦ false | c ∷ cs ↦ true ])) [
          | false ↦ finalize_stream rc complete w
          | true ↦ elim (exhausted rc.tracker) [
            | true ↦ finalize_stream rc token_budget_exhausted w
            | false ↦
                let (problem, (messages', w')) =
                  run_stream_calls calls (messages ++ acc.message ∷ []) w in
                elim problem [
                  | some e ↦ (some (send_failed e), w')
                  | none ↦ continue messages' rc w'
                ]
          ]
        ]

    -- What follows a stream that was opened.
    unfoldable pub consume :
        (List C.Message → RunContext C → W → Option (StreamError C) × W)
        → List C.Message
        → ModelStream S
        → RunContext C
        → W
        → Option (StreamError C) × W
    unfolding read_chunks count_stream run_stream_calls finalize_stream exhausted
    consume continue messages ms rc w =
        let start : Accumulated C = record {
          message = S.assistant_message;
          calls_tools = false;
          bytes = 0;
        } in
        let (problem, (acc, w₁)) = read_chunks S send ms.chunks start w in
        elim problem [
          | some e ↦ (some (send_failed e), w₁)
          | none ↦ elim ms.broken [
            | some e ↦ (some (recv_failed e), w₁)
            | none ↦
                let (rc', w₂) = count_stream S send ms.usage acc.bytes rc w₁ in
                after_stream continue messages acc (record rc' { last_msg = acc.message }) w₂
          ]
        ]

    -- The loop, with the number of iterations left and the next one.
    unfoldable pub stream_loop :
        ℕ → ℕ → List C.Message → RunContext C → W → Option (StreamError C) × W
    unfolding consume
    stream_loop zero iter messages rc w =
        finalize_stream (record rc { iteration = p.max_iter - 1 }) max_iterations_exceeded w
    stream_loop (suc rounds) iter messages rc w =
        let rc₀ = record rc { iteration = iter } in
        elim (exhausted rc.tracker) [
          | true ↦ finalize_stream rc₀ token_budget_exhausted w
          | false ↦
              let (problem, w₁) = send (iteration_start iter) w in
              elim problem [
                | some e ↦ (some (send_failed e), w₁)
                | none ↦
                    let (opened, w₂) = open_stream (chat_request a p tools messages) w₁ in
                    elim opened [
                      | not_opened e ↦ (some (stream_failed e), w₂)
                      | streams ms ↦ consume (stream_loop rounds (suc iter)) messages ms rc₀ w₂
                    ]
              ]
        ]

  unfoldable pub run_stream_loop :
      (ChatRequest C → W → Opened S × W)
      → RunRequest (agent_types C)
      → RunParams C
      → List (ToolDef C.Parameters)
      → List C.Message
      → ℕ
      → W
      → Option (StreamError C) × W
  unfolding stream_loop
  run_stream_loop open_stream req p tools messages count w =
      let (problem, w') = send (common agent_start) w in
      elim problem [
        | some e ↦ (some (send_failed e), w')
        | none ↦
            stream_loop open_stream p tools p.max_iter zero messages
              (record (new_run_context a req p (a.now w)) { session_msg_count = count }) w'
      ]

  -- `RunStream` after the input guards.
  unfoldable pub start_stream :
      (ChatRequest C → W → Opened S × W)
      → RunRequest (agent_types C)
      → W
      → Option (StreamError C) × W
  unfolding run_stream_loop resolve_run_params build_initial_messages inject_skill_instructions
      prepare_ai_tools
  start_stream open_stream req w =
      let p = resolve_run_params a req.options in
      let (built, w₁) = build_initial_messages a req.messages w in
      elim built [
        | none ↦ (some (not_started (prompt_failed a.prompt_error)), w₁)
        | some (messages, count) ↦
            run_stream_loop open_stream req p (prepare_ai_tools a p req.session_id)
              (inject_skill_instructions a req.session_id messages) count w₁
      ]

  -- `RunStream` and the function that it hands to the stream.
  unfoldable pub run_stream :
      Option (ChatRequest C → W → Opened S × W)
      → RunRequest (agent_types C)
      → W
      → Option (StreamError C) × W
  unfolding start_stream run_input_guards
  run_stream none req w = (some (not_started no_completer), w)
  run_stream (some open_stream) req w = elim (run_input_guards a req w) [
    | blocked r ↦ (some (not_started (input_blocked r)), w)
    | guard_failed e ↦ (some (not_started (input_guard_failed e)), w)
    | let_through req' ↦ start_stream open_stream req' w
  ]
