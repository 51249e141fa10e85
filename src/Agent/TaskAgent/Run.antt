-- ===== src/Agent/TaskAgent/Run.antt =====
-- The loop of the task agent (agent/taskagent/task.go, `Run`, `finalizeRun` and what they call).
pub mod Steps
pub mod Conversation
pub mod Requests
pub mod Opening
pub mod Entry
pub mod Sends
pub mod Spending
pub mod Whole
pub mod Blocked
use vagent.Common.{
  ℕ, zero, suc, ◌+◌, ◌-◌, ◌/◌, String, str_eq, Bool, true, false, not, ◌&&◌, ◌||◌, List, [], ◌∷◌,
  ◌++◌, Option, none, some, insert, if◌then◌else◌, ◌⊎◌, inl, inr,
}
use vagent.Schema.{
  StopReason, complete, token_budget_exhausted, max_iterations_exceeded, RunRequest, RunResponse,
}
use vagent.Guard.{Result, ChainError}
use vagent.Tool.Registry.{ToolDef, ToolOutcome, answered, refused}
use vagent.Agent.Chat.{
  Chat, AgentMessage, new_assistant_message, agent_types, ChatRequest, ChatResponse, Completion,
  completed, failed, ToolResult, error_result,
}
use vagent.Agent.TaskAgent.{
  Event, agent_start, agent_end, tool_call_start, tool_call_end, budget_exhausted, Agent, Memory,
}
use vagent.Agent.TaskAgent.Budget.{BudgetTracker, new_budget_tracker, exhausted, add}
use vagent.Agent.TaskAgent.Prepare.{
  RunParams, resolve_run_params, build_initial_messages, inject_skill_instructions,
  prepare_ai_tools,
}
use vagent.Agent.TaskAgent.Guarding.{
  Guarded, let_through, blocked, guard_failed, run_input_guards, run_output_guards,
}

pub record RunContext (C : Chat) : Type 0 where
  pub session_id : String
  pub start : ℕ
  pub tracker : BudgetTracker
  pub total_usage : C.Usage
  pub session_msg_count : ℕ
  pub req_msgs : List (AgentMessage C)
  pub last_msg : C.Message
  pub iteration : ℕ

pub data RunError (C : Chat) : Type 0 where
  no_completer empty_response : RunError C
  input_blocked : Result → RunError C
  input_guard_failed : ChainError C.Error → RunError C
  prompt_failed completion_failed : C.Error → RunError C

pub data RunOutcome (C : Chat) : Type 0 where
  responded : RunResponse (agent_types C) → RunOutcome C
  aborted : RunError C → RunOutcome C

-- `toolResultText`
unfoldable pub tool_result_text : List (Bool × String) → String
tool_result_text [] = ""
tool_result_text ((is_text, text) ∷ ps) =
    let rest = tool_result_text ps in if is_text then text else rest

abbrev pub is_complete : StopReason → Bool
is_complete complete = true
is_complete _ = false

abbrev pub is_budget : StopReason → Bool
is_budget token_budget_exhausted = true
is_budget _ = false

-- Milliseconds since a time, in nanoseconds.
abbrev pub since_ms : ℕ → ℕ → ℕ
since_ms start now = (now - start) / 1000000

-- `msg:%06d` for every message, from an index on, into the working memory.
unfoldable pub store_messages :
    {A : Type 0} → (ℕ → String) → ℕ → List A → List (String × A) → List (String × A)
store_messages key idx [] working = working
store_messages key idx (m ∷ ms) working =
    store_messages key (suc idx) ms (insert (key idx) m working)

module _ {C : Chat} {W : Type 0} (a : Agent C W) where
  -- The result of a call, with the ID of the call.
  unfoldable pub execute_tool_call : C.ToolCall → W → ToolResult × W
  execute_tool_call tc w = elim a.tool_registry [
    | none ↦ (error_result (C.call_id tc) (a.no_registry_text (C.call_name tc)), w)
    | some r ↦
        let (outcome, w') = r.execute (C.call_name tc) (C.call_arguments tc) w in
        elim outcome [
          | refused e ↦ (error_result (C.call_id tc) (r.error_text (refused e)), w')
          | answered tr ↦ (record tr { tool_call_id = C.call_id tc }, w')
        ]
  ]

  unfoldable pub build_response_msgs : C.Message → Bool → ℕ → List (AgentMessage C)
  build_response_msgs msg partial now =
      let whole = new_assistant_message now msg a.id ∷ [] in
      if partial
        && (str_eq (C.text msg) "" && (elim (C.tool_calls msg) [ [] ↦ true | c ∷ cs ↦ false ]))
      then []
      else whole

  unfoldable pub store_and_promote_messages :
      List (AgentMessage C) → List (AgentMessage C) → ℕ → W → W
  unfolding store_messages
  store_and_promote_messages req_msgs resp_msgs count w = elim a.memory_manager [
    | none ↦ w
    | some mem ↦
        mem.promote_to_session (store_messages mem.message_key count (req_msgs ++ resp_msgs) []) w
  ]

  -- The messages of the response. When the guards fail or block, those of the model stay.
  unfoldable pub guarded_or_raw : String → List (AgentMessage C) → W → List (AgentMessage C)
  unfolding run_output_guards
  guarded_or_raw session_id msgs w = elim (run_output_guards a session_id msgs w) [
    | let_through guarded ↦ guarded
    | blocked r ↦ msgs
    | guard_failed e ↦ msgs
  ]

  abbrev pub first_text : List (AgentMessage C) → String
  first_text [] = ""
  first_text (m ∷ ms) = C.text m.message

  abbrev pub dispatch_budget : RunContext C → StopReason → W → W
  dispatch_budget rc stop w =
      if is_budget stop
      then a.dispatch (budget_exhausted rc.tracker.budget rc.tracker.consumed (suc rc.iteration)) w
      else w

  unfoldable pub finalize_run : RunContext C → StopReason → W → RunResponse (agent_types C) × W
  unfolding build_response_msgs guarded_or_raw store_and_promote_messages
  finalize_run rc stop w =
      let msgs =
        guarded_or_raw rc.session_id
          (build_response_msgs rc.last_msg (not (is_complete stop)) (a.now w)) w in
      let w₁ = store_and_promote_messages rc.req_msgs msgs rc.session_msg_count w in
      let w₂ = dispatch_budget rc stop w₁ in
      let duration = since_ms rc.start (a.now w₂) in
      (
        record {
          messages = msgs;
          session_id = rc.session_id;
          usage = some rc.total_usage;
          duration = duration;
          metadata = none;
          stop_reason = some stop;
        },
        a.dispatch (agent_end duration (first_text msgs) stop) w₂,
      )

  -- The loop over the tool calls: the messages with a tool message for each.
  unfoldable pub run_tool_calls : List C.ToolCall → List C.Message → W → List C.Message × W
  unfolding execute_tool_call tool_result_text
  run_tool_calls [] messages w = (messages, w)
  run_tool_calls (tc ∷ tcs) messages w =
      let w₁ = a.dispatch (tool_call_start tc) w in
      let (result, w₂) = execute_tool_call tc w₁ in
      let w₃ = a.dispatch (tool_call_end tc (since_ms (a.now w₁) (a.now w₂))) w₂ in
      run_tool_calls tcs
        (messages ++ C.tool_message result.tool_call_id (tool_result_text result.content) ∷ []) w₃

  abbrev pub finish : RunContext C → StopReason → W → RunOutcome C × W
  finish rc stop w = let (resp, w') = finalize_run rc stop w in (responded resp, w')

  abbrev pub chat_request :
      RunParams C → List (ToolDef C.Parameters) → List C.Message → ChatRequest C
  chat_request p tools messages = record {
    model = p.model;
    messages = messages;
    temperature = p.temperature;
    max_tokens = p.max_tokens;
    stop = p.stop_seq;
    tools = tools;
  }

  -- The context after a completion.
  abbrev pub count_usage : ChatResponse C → RunContext C → RunContext C
  count_usage resp rc = record rc {
    total_usage = C.add_usage rc.total_usage resp.usage;
    tracker = (add (C.total_tokens resp.usage) rc.tracker).0;
  }

  -- The loop, with the number of iterations left and the next one. The completer and the parameters
  -- are those of the run.
  unfoldable pub react :
      (ChatRequest C → W → Completion C × W)
      → RunParams C
      → List (ToolDef C.Parameters)
      → ℕ
      → ℕ
      → List C.Message
      → RunContext C
      → W
      → RunOutcome C × W
  unfolding finalize_run run_tool_calls exhausted add
  react chat p tools zero iter messages rc w =
      finish (record rc { iteration = p.max_iter - 1 }) max_iterations_exceeded w
  react chat p tools (suc rounds) iter messages rc w =
      let rc₀ = record rc { iteration = iter } in
      elim (exhausted rc₀.tracker) [
        | true ↦ finish rc₀ token_budget_exhausted w
        | false ↦
            let (completion, w₁) = chat (chat_request p tools messages) w in
            elim completion [
              | failed e ↦ (aborted (completion_failed e), w₁)
              | completed resp ↦ elim resp.choices [
                | [] ↦ (aborted empty_response, w₁)
                | choice ∷ others ↦
                    let rc₁ = record (count_usage resp rc₀) { last_msg = choice.message } in
                    let calls = C.tool_calls choice.message in
                    elim (choice.calls_tools && (elim calls [ [] ↦ false | c ∷ cs ↦ true ])) [
                      | false ↦ finish rc₁ complete w₁
                      | true ↦ elim (exhausted rc₁.tracker) [
                        | true ↦ finish rc₁ token_budget_exhausted w₁
                        | false ↦
                            let after = run_tool_calls calls (messages ++ choice.message ∷ []) w₁ in
                            react chat p tools rounds (suc iter) after.0 rc₁ after.1
                      ]
                    ]
              ]
            ]
      ]

  abbrev pub new_run_context : RunRequest (agent_types C) → RunParams C → ℕ → RunContext C
  new_run_context req p start = record {
    session_id = req.session_id;
    start = start;
    tracker = new_budget_tracker p.run_token_budget;
    total_usage = C.no_usage;
    session_msg_count = zero;
    req_msgs = req.messages;
    last_msg = C.empty_message;
    iteration = zero;
  }

  -- `Run` after the input guards.
  unfoldable pub run_guarded :
      (ChatRequest C → W → Completion C × W) → RunRequest (agent_types C) → W → RunOutcome C × W
  unfolding react resolve_run_params build_initial_messages inject_skill_instructions
      prepare_ai_tools new_budget_tracker
  run_guarded chat req w =
      let p = resolve_run_params a req.options in
      let rc = new_run_context req p (a.now w) in
      let w₁ = a.dispatch agent_start w in
      let (built, w₂) = build_initial_messages a req.messages w₁ in
      elim built [
        | none ↦ (aborted (prompt_failed a.prompt_error), w₂)
        | some (messages, count) ↦
            react chat p (prepare_ai_tools a p req.session_id) p.max_iter zero
              (inject_skill_instructions a req.session_id messages)
              (record rc { session_msg_count = count }) w₂
      ]

  unfoldable pub run : RunRequest (agent_types C) → W → RunOutcome C × W
  unfolding run_guarded run_input_guards
  run req w = elim a.chat_completer [
    | none ↦ (aborted no_completer, w)
    | some chat ↦ elim (run_input_guards a req w) [
      | blocked r ↦ (aborted (input_blocked r), w)
      | guard_failed e ↦ (aborted (input_guard_failed e), w)
      | let_through req' ↦ run_guarded chat req' w
    ]
  ]
