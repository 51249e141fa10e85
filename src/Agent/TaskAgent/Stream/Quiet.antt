-- ===== src/Agent/TaskAgent/Stream/Quiet.antt =====
-- What a streaming run leaves alone (agent/taskagent/task.go, `runStreamLoop`, `finalizeStream`).
use vagent.Common.{
  ℕ, suc, ◌≡◌, ◌∙◌, sym, ap, refl, inl, inr, String, str_eq, not, List, [], ◌∷◌, ◌++◌, Option, none,
  some, arith, Bool-cases, Option-cases,
}
use vagent.Schema.{StopReason}
use vagent.Agent.Chat.{Chat, AgentMessage}
use vagent.Agent.TaskAgent.{tool_call_start, tool_call_end, agent_end, budget_exhausted, Agent}
use vagent.Agent.TaskAgent.Guarding.{run_output_guards}
use vagent.Agent.TaskAgent.Run.Entry.{Guarded-cases}
use vagent.Agent.TaskAgent.Run.Conversation.{
  tool_messages, tool_messages-append, append_nil, AllRan, no_calls, one_ran, Ran,
  execute_tool_call-Ran, execute_tool_call-id,
}
use vagent.Agent.TaskAgent.Run.Requests.{IsUntouched, execute_tool_call-log, store_and_promote-log}
use vagent.Agent.TaskAgent.Run.{
  RunContext, tool_result_text, is_complete, is_budget, since_ms, execute_tool_call,
  build_response_msgs, store_and_promote_messages, first_text,
}
use vagent.Agent.TaskAgent.Chunks.{
  Streaming, Chunk, StreamEvent, common, text_delta, llm_call_end, tool_result, send_failed, Send,
  Accumulated, extend, read_chunks, count_stream,
}
use vagent.Agent.TaskAgent.Stream.{
  send_budget, sent, finish_stream, finalize_stream, run_stream_calls,
}

module _ {C : Chat} (S : Streaming C) {W L : Type 0} (send : Send C W) (log : W → L)
    (quiet : (e : StreamEvent C) (w : W) → log (send e w).1 ≡ log w) where
  pub read_chunks-log :
      (cs : List (Chunk S)) (acc : Accumulated C) (w : W)
      → log (read_chunks S send cs acc w).1.1 ≡ log w
  unfolding read_chunks
  read_chunks-log [] acc w = refl
  read_chunks-log (c ∷ cs) acc w = elim (Option-cases c.choice) [
    | inl empty ↦ ground (arith, empty, read_chunks-log cs acc w)
    | inr ((delta, reason), there) ↦
        let text = S.delta_text delta in
        elim (Bool-cases (str_eq text "")) [
          | inl silent ↦
              ground (arith, there, silent, read_chunks-log cs (extend S delta reason acc) w)
          | inr said ↦
              let w' = (send (text_delta text) w).1 in
              elim (Option-cases (send (text_delta text) w).0) [
                | inl fine ↦ ground (
                  arith,
                  there,
                  said,
                  fine,
                  quiet (text_delta text) w,
                  read_chunks-log cs (extend S delta reason acc) w',
                )
                | inr (e, broke) ↦ ground (arith, there, said, broke, quiet (text_delta text) w)
              ]
        ]
  ]

  pub count_stream-log :
      (u : Option C.Usage) (bytes : ℕ) (rc : RunContext C) (w : W)
      → log (count_stream S send u bytes rc w).1 ≡ log w
  unfolding count_stream
  count_stream-log none bytes rc w = refl
  count_stream-log (some u) bytes rc w = quiet (llm_call_end u) w

  module _ (a : Agent C W) (u : IsUntouched a log) where
    send_budget-log :
        (rc : RunContext C) (stop : StopReason) (w : W)
        → log (send_budget S send a rc stop w).1 ≡ log w
    send_budget-log rc stop w = elim (Bool-cases (is_budget stop)) [
      | inl over ↦ rw over (
          quiet (common (budget_exhausted rc.tracker.budget rc.tracker.consumed (suc rc.iteration)))
            w)
      | inr other ↦ rw other refl
    ]

    sent-log : (r : Option C.Error × W) → log (sent S send a r).1 ≡ log r.1
    sent-log (none, w) = refl
    sent-log (some e, w) = refl

    finish_stream-log :
        (rc : RunContext C) (stop : StopReason) (msgs : List (AgentMessage C)) (w : W)
        → log (finish_stream S send a rc stop msgs w).1 ≡ log w
    unfolding finish_stream
    finish_stream-log rc stop msgs w =
        let w₁ = store_and_promote_messages a rc.req_msgs msgs rc.session_msg_count w in
        let w₂ = (send_budget S send a rc stop w₁).1 in
        let last =
          send (common (agent_end (since_ms rc.start (a.now w₂)) (first_text a msgs) stop)) w₂ in
        let kept = send_budget-log rc stop w₁ in
        let stored = store_and_promote-log a log u rc.req_msgs msgs rc.session_msg_count w in
        elim (Option-cases (send_budget S send a rc stop w₁).0) [
          | inr (e, broke) ↦
              let same : finish_stream S send a rc stop msgs w ≡ (some (send_failed e), w₂) =
                ground (arith, broke) in
              ap (λ r. log r.1) same ∙ kept ∙ stored
          | inl fine ↦
              let same : finish_stream S send a rc stop msgs w ≡ sent S send a last =
                ground (arith, fine) in
              ap (λ r. log r.1) same
              ∙ sent-log last
              ∙ quiet (common (agent_end (since_ms rc.start (a.now w₂)) (first_text a msgs) stop))
                  w₂
              ∙ kept
              ∙ stored
        ]

    pub finalize_stream-log :
        (rc : RunContext C) (stop : StopReason) (w : W)
        → log (finalize_stream S send a rc stop w).1 ≡ log w
    unfolding finalize_stream
    finalize_stream-log rc stop w =
        let msgs = build_response_msgs a rc.last_msg (not (is_complete stop)) (a.now w) in
        let partial = finish_stream-log rc stop msgs w in
        elim (Guarded-cases (run_output_guards a rc.session_id msgs w)) [
          | inl (guarded, fine) ↦ ground (arith, fine, finish_stream-log rc stop guarded w)
          | inr (inl (r, held)) ↦ elim (Bool-cases (is_complete stop)) [
            | inl whole ↦ ground (arith, held, whole)
            | inr part ↦ ground (arith, held, part, partial)
          ]
          | inr (inr (e, held)) ↦ elim (Bool-cases (is_complete stop)) [
            | inl whole ↦ ground (arith, held, whole)
            | inr part ↦ ground (arith, held, part, partial)
          ]
        ]

    -- The calls of tools: the log stays, and without an error there is a message for each call.
    pub run_stream_calls-messages :
        (tcs : List C.ToolCall) (messages : List C.Message) (w : W)
        → (log (run_stream_calls S send a tcs messages w).1.1 ≡ log w)
          × ((run_stream_calls S send a tcs messages w).0 ≡ none
              → (texts : List String) × AllRan C (Ran a) tcs texts
                × ((run_stream_calls S send a tcs messages w).1.0
                    ≡ messages ++ tool_messages C tcs texts))
    unfolding run_stream_calls
    run_stream_calls-messages [] messages w =
        (refl, λ fine. ([], no_calls, sym (append_nil messages)))
    run_stream_calls-messages (tc ∷ tcs) messages w =
        let start = common (tool_call_start tc) in
        let w₁ = (send start w).1 in
        let (result, w₂) = execute_tool_call a tc w₁ in
        let end = common (tool_call_end tc (since_ms (a.now w₁) (a.now w₂))) in
        let w₃ = (send end w₂).1 in
        let w₄ = (send (tool_result tc result) w₃).1 in
        let text = tool_result_text result.content in
        let next = messages ++ C.tool_message result.tool_call_id text ∷ [] in
        let kept₁ = quiet start w in
        let kept₂ = execute_tool_call-log a log u tc w₁ in
        let kept₃ = quiet end w₂ in
        let kept₄ = quiet (tool_result tc result) w₃ in
        elim (Option-cases (send start w).0) [
          | inr (e, broke) ↦ (ground (arith, broke, kept₁), λ h. absurd (ground (arith, broke, h)))
          | inl fine₁ ↦ elim (Option-cases (send end w₂).0) [
            | inr (e, broke) ↦ (
              ground (arith, fine₁, broke, kept₁, kept₂, kept₃),
              λ h. absurd (ground (arith, fine₁, broke, h)),
            )
            | inl fine₃ ↦ elim (Option-cases (send (tool_result tc result) w₃).0) [
              | inr (e, broke) ↦ (
                ground (arith, fine₁, fine₃, broke, kept₁, kept₂, kept₃, kept₄),
                λ h. absurd (ground (arith, fine₁, fine₃, broke, h)),
              )
              | inl fine₄ ↦
                  let same : run_stream_calls S send a (tc ∷ tcs) messages w
                      ≡ run_stream_calls S send a tcs next w₄ =
                    ground (arith, fine₁, fine₃, fine₄) in
                  let (kept, more) = run_stream_calls-messages tcs next w₄ in
                  (
                    ap (λ r. log r.1.1) same ∙ kept ∙ kept₄ ∙ kept₃ ∙ kept₂ ∙ kept₁,
                    λ h.
                        let (texts, ran, grown) = more (ap (λ r. r.0) (sym same) ∙ h) in
                        (
                          text ∷ texts,
                          one_ran (execute_tool_call-Ran a tc w₁) ran,
                          ap (λ r. r.1.0) same
                              ∙ tool_messages-append C tc tcs messages _ result.tool_call_id text
                                  texts (execute_tool_call-id a tc w₁) grown,
                        ),
                  )
            ]
          ]
        ]
