-- ===== src/Agent/TaskAgent/Run/Requests.antt =====
-- The requests that a run sends to the model (agent/taskagent/task.go).
use vagent.Common.{
  ℕ, zero, suc, ◌+◌, ◌-◌, ◌≤◌, ◌≡◌, ◌∙◌, ap, inl, inr, refl, String, not, List, [], ◌∷◌, ◌++◌,
  Option, some, length, length-append, All, All-append, arith, Bool-cases, Option-cases,
}
use vagent.Schema.{StopReason, complete, token_budget_exhausted, max_iterations_exceeded}
use vagent.Tool.Registry.{ToolDef}
use vagent.Agent.Chat.{Chat, AgentMessage, ChatRequest, Completion}
use vagent.Agent.TaskAgent.{
  Event, tool_call_start, tool_call_end, agent_end, budget_exhausted, Agent, Memory, ToolRegistry,
}
use vagent.Agent.TaskAgent.Prepare.{RunParams}
use vagent.Agent.TaskAgent.Run.Conversation.{
  tool_messages, AllRan, no_calls, one_ran, Conversation, round, append_assoc, append_nil,
  tool_messages-append, Completes, Ran, execute_tool_call-Ran, execute_tool_call-id,
}
use vagent.Agent.TaskAgent.Run.Steps.{
  react-Iteration, answered_context, spent, fails, no_choice, answers, overspends, acts,
}
use vagent.Agent.TaskAgent.Run.{
  RunContext, tool_result_text, store_messages, execute_tool_call, store_and_promote_messages,
  dispatch_budget, guarded_or_raw, build_response_msgs, first_text, is_complete, is_budget,
  since_ms, finalize_run, run_tool_calls, finish, chat_request, react,
}

module _ {C : Chat} {W : Type 0} (a : Agent C W) where
  run_tool_calls-messages :
      (tcs : List C.ToolCall) (messages : List C.Message) (w : W)
      → (texts : List String) × AllRan C (Ran a) tcs texts
        × ((run_tool_calls a tcs messages w).0 ≡ messages ++ tool_messages C tcs texts)
  unfolding run_tool_calls
  run_tool_calls-messages [] messages w = ([], no_calls, ground (arith, append_nil messages))
  run_tool_calls-messages (tc ∷ tcs) messages w =
      let w₁ = a.dispatch (tool_call_start tc) w in
      let (result, w₂) = execute_tool_call a tc w₁ in
      let w₃ = a.dispatch (tool_call_end tc (since_ms (a.now w₁) (a.now w₂))) w₂ in
      let text = tool_result_text result.content in
      let next = messages ++ C.tool_message result.tool_call_id text ∷ [] in
      let (texts, all, same) = run_tool_calls-messages tcs next w₃ in
      let named = execute_tool_call-id a tc w₁ in
      (
        text ∷ texts,
        one_ran (execute_tool_call-Ran a tc w₁) all,
        tool_messages-append C tc tcs messages _ result.tool_call_id text texts named same,
      )

module _ {C : Chat} {W L : Type 0} (a : Agent C W) (log : W → L) where
  -- Hooks, tools, the prompt and the memory leave a log alone.
  pub record IsUntouched : Type 0 where
    pub by_dispatch : (e : Event C) (w : W) → log (a.dispatch e w) ≡ log w
    pub by_tools :
        (r : ToolRegistry C W) (name args : String) (w : W)
        → a.tool_registry ≡ some r
        → log (r.execute name args w).1 ≡ log w
    pub by_prompt :
        (render : W → Option String × W) (w : W)
        → a.system_prompt ≡ some render
        → log (render w).1 ≡ log w
    pub by_session :
        (mem : Memory C W) (list : W → Option (List (String × Option (AgentMessage C))) × W) (w : W)
        → a.memory_manager ≡ some mem
        → mem.session ≡ some list
        → log (list w).1 ≡ log w
    pub by_compression :
        (mem : Memory C W)
        (compress : List (AgentMessage C) → W → Option (List (AgentMessage C)) × W)
        (ms : List (AgentMessage C)) (w : W)
        → a.memory_manager ≡ some mem
        → mem.compress ≡ some compress
        → log (compress ms w).1 ≡ log w
    pub by_promotion :
        (mem : Memory C W) (entries : List (String × AgentMessage C)) (w : W)
        → a.memory_manager ≡ some mem
        → log (mem.promote_to_session entries w) ≡ log w

  module _ (u : IsUntouched) where
    pub execute_tool_call-log : (tc : C.ToolCall) (w : W) → log (execute_tool_call a tc w).1 ≡ log w
    unfolding execute_tool_call
    execute_tool_call-log tc w = elim (Option-cases a.tool_registry) [
      | inl missing ↦ ground (arith, missing)
      | inr (r, there) ↦
          ground (arith, there, u.by_tools r (C.call_name tc) (C.call_arguments tc) w there)
    ]

    pub run_tool_calls-log :
        (tcs : List C.ToolCall) (messages : List C.Message) (w : W)
        → log (run_tool_calls a tcs messages w).1 ≡ log w
    unfolding run_tool_calls
    run_tool_calls-log [] messages w = refl
    run_tool_calls-log (tc ∷ tcs) messages w =
        let w₁ = a.dispatch (tool_call_start tc) w in
        let (result, w₂) = execute_tool_call a tc w₁ in
        let e = tool_call_end tc (since_ms (a.now w₁) (a.now w₂)) in
        let next =
          messages ++ C.tool_message result.tool_call_id (tool_result_text result.content) ∷ [] in
        run_tool_calls-log tcs next (a.dispatch e w₂)
        ∙ u.by_dispatch e w₂
        ∙ execute_tool_call-log tc w₁
        ∙ u.by_dispatch (tool_call_start tc) w

    pub store_and_promote-log :
        (req resp : List (AgentMessage C)) (count : ℕ) (w : W)
        → log (store_and_promote_messages a req resp count w) ≡ log w
    unfolding store_and_promote_messages
    store_and_promote-log req resp count w = elim (Option-cases a.memory_manager) [
      | inl missing ↦ ground (arith, missing)
      | inr (mem, there) ↦ ground (
        arith,
        there,
        u.by_promotion mem (store_messages mem.message_key count (req ++ resp) []) w there,
      )
    ]

    dispatch_budget-log :
        (rc : RunContext C) (stop : StopReason) (w : W) → log (dispatch_budget a rc stop w) ≡ log w
    dispatch_budget-log rc stop w = elim (Bool-cases (is_budget stop)) [
      | inl yes_budget ↦ rw yes_budget (
          u.by_dispatch (budget_exhausted rc.tracker.budget rc.tracker.consumed (suc rc.iteration))
            w)
      | inr other ↦ rw other refl
    ]

    pub finish-log :
        (rc : RunContext C) (stop : StopReason) (w : W) → log (finish a rc stop w).1 ≡ log w
    unfolding finalize_run
    finish-log rc stop w =
        let msgs =
          guarded_or_raw a rc.session_id
            (build_response_msgs a rc.last_msg (not (is_complete stop)) (a.now w)) w in
        let w₁ = store_and_promote_messages a rc.req_msgs msgs rc.session_msg_count w in
        let w₂ = dispatch_budget a rc stop w₁ in
        u.by_dispatch (agent_end (since_ms rc.start (a.now w₂)) (first_text a msgs) stop) w₂
        ∙ dispatch_budget-log rc stop w₁
        ∙ store_and_promote-log rc.req_msgs msgs rc.session_msg_count w

module _ {C : Chat} {W : Type 0} (a : Agent C W) (chat : ChatRequest C → W → Completion C × W)
    (p : RunParams C) (tools : List (ToolDef C.Parameters)) (base : List C.Message)
    (log : W → List (ChatRequest C)) where
  -- The base, then answers of the model and the results of their calls.
  abbrev pub Continues : List C.Message → Type 0
  Continues = Conversation C (Completes chat) (Ran a) base

  -- Every request that was logged continues the base.
  abbrev pub AllContinue : W → Type 0
  AllContinue w = All (λ q. Continues q.messages) (log w)

  module _ (u : IsUntouched a log)
      (logs : (q : ChatRequest C) (w : W) → log (chat q w).1 ≡ log w ++ q ∷ []) where
    finish-requests :
        (rc : RunContext C) (stop : StopReason) (w : W) (before n : ℕ)
        → AllContinue w
        → length (log w) ≤ before + n
        → AllContinue (finish a rc stop w).1 × (length (log (finish a rc stop w).1) ≤ before + n)
    finish-requests rc stop w before n all le =
        let same = finish-log a log u rc stop w in (rw same all, rw same le)

    pub react-requests :
        (rounds iter : ℕ) (messages : List C.Message) (rc : RunContext C) (w : W)
        → Continues messages
        → AllContinue w
        → let w' = (react a chat p tools rounds iter messages rc w).1 in
          AllContinue w' × (length (log w') ≤ length (log w) + rounds)
    react-requests zero iter messages rc w conv all =
        unfold react in
        finish-requests (record rc { iteration = p.max_iter - 1 }) max_iterations_exceeded w
          (length (log w)) 0 all (omega arith)
    react-requests (suc rounds) iter messages rc w conv all =
        let q = chat_request a p tools messages in
        let w₁ = (chat q w).1 in
        let all₁ : AllContinue w₁ =
          rw (logs q w) (All-append (λ q. Continues q.messages) (log w) (q ∷ []) all (conv, tt)) in
        let one : length (log w₁) ≡ length (log w) + 1 =
          ap length (logs q w) ∙ length-append (log w) (q ∷ []) in
        elim (react-Iteration a chat p tools rounds iter messages rc w) [
          | spent over same ↦ rw same (
              finish-requests (record rc { iteration = iter }) token_budget_exhausted w
                (length (log w)) (suc rounds) all (omega arith))
          | fails e under broke same ↦ rw same (all₁, omega (arith, one))
          | no_choice resp under fine same ↦ rw same (all₁, omega (arith, one))
          | answers resp choice others under fine there silent same ↦ rw same (
              finish-requests (answered_context a chat p tools resp choice iter rc) complete w₁
                (length (log w)) (suc rounds) all₁ (omega (arith, one)))
          | overspends resp choice others under fine there asks over same ↦ rw same (
              finish-requests (answered_context a chat p tools resp choice iter rc)
                token_budget_exhausted w₁ (length (log w)) (suc rounds) all₁ (omega (arith, one)))
          | acts resp choice others under fine there asks room same ↦
              let calls = C.tool_calls choice.message in
              let (texts, ran, grown) =
                run_tool_calls-messages a calls (messages ++ choice.message ∷ []) w₁ in
              let after = run_tool_calls a calls (messages ++ choice.message ∷ []) w₁ in
              let kept = run_tool_calls-log a log u calls (messages ++ choice.message ∷ []) w₁ in
              let next : Continues after.0 =
                round conv choice.message texts
                  (q, w, resp, choice, others, refl, fine, there, refl) ran
                  (grown
                    ∙ append_assoc messages (choice.message ∷ []) (tool_messages C calls texts)) in
              let ih =
                react-requests rounds (suc iter) after.0
                  (answered_context a chat p tools resp choice iter rc) after.1 next
                  (rw kept all₁) in
              rw same (ih.0, omega (arith, ih.1, ap length kept, one))
        ]
