-- ===== src/Agent/TaskAgent/Run/Sends.antt =====
-- A run that enters its loop asks the model (agent/taskagent/task.go).
use vagent.Common.{
  ℕ, zero, suc, ◌+◌, ◌-◌, ◌≤◌, ◌<◌, ◌≡◌, ◌∙◌, ap, inl, inr, false, Bool-cases, List, [], ◌∷◌, ◌++◌,
  length, length-append, arith,
}
use vagent.Schema.{StopReason, complete, token_budget_exhausted, max_iterations_exceeded}
use vagent.Tool.Registry.{ToolDef}
use vagent.Agent.Chat.{Chat, ChatRequest, Completion}
use vagent.Agent.TaskAgent.{Agent}
use vagent.Agent.TaskAgent.Budget.{exhausted}
use vagent.Agent.TaskAgent.Prepare.{RunParams}
use vagent.Agent.TaskAgent.Run.Steps.{
  react-Iteration, answered_context, spent, fails, no_choice, answers, overspends, acts,
}
use vagent.Agent.TaskAgent.Run.Requests.{IsUntouched, finish-log, run_tool_calls-log}
use vagent.Agent.TaskAgent.Run.{RunContext, run_tool_calls, finish, chat_request, react}

module _ {C : Chat} {W : Type 0} (a : Agent C W) (chat : ChatRequest C → W → Completion C × W)
    (p : RunParams C) (tools : List (ToolDef C.Parameters)) (log : W → List (ChatRequest C))
    (u : IsUntouched a log)
    (logs : (q : ChatRequest C) (w : W) → log (chat q w).1 ≡ log w ++ q ∷ []) where
  asked_once : (q : ChatRequest C) (w : W) → length (log (chat q w).1) ≡ length (log w) + 1
  asked_once q w = ap length (logs q w) ∙ length-append (log w) (q ∷ [])

  -- The rest of the rounds takes no request back.
  abbrev Grows : ℕ → Type 0
  Grows rounds =
      (iter : ℕ) (messages : List C.Message) (rc : RunContext C) (w : W)
      → length (log w) ≤ length (log (react a chat p tools rounds iter messages rc w).1)

  round_sends :
      (rounds iter : ℕ) (messages : List C.Message) (rc : RunContext C) (w : W)
      → Grows rounds
      → exhausted rc.tracker ≡ false
      → length (log w) < length (log (react a chat p tools (suc rounds) iter messages rc w).1)
  round_sends rounds iter messages rc w grows unspent =
      let q = chat_request a p tools messages in
      let one = asked_once q w in
      let w₁ = (chat q w).1 in
      let ended = λ (rc : RunContext C) (stop : StopReason) (w : W).
        ap length (finish-log a log u rc stop w) in
      elim (react-Iteration a chat p tools rounds iter messages rc w) [
        | spent over same ↦ absurd (ground (arith, over, unspent))
        | fails e under broke same ↦ rw same (omega (arith, one))
        | no_choice resp under fine same ↦ rw same (omega (arith, one))
        | answers resp choice others under fine there silent same ↦ rw same (
            omega
              (arith, one, ended (answered_context a chat p tools resp choice iter rc) complete w₁))
        | overspends resp choice others under fine there asks over same ↦ rw same (
            omega (
              arith,
              one,
              ended (answered_context a chat p tools resp choice iter rc) token_budget_exhausted w₁,
            ))
        | acts resp choice others under fine there asks room same ↦
            let calls = C.tool_calls choice.message in
            let after = run_tool_calls a calls (messages ++ choice.message ∷ []) w₁ in
            let kept = run_tool_calls-log a log u calls (messages ++ choice.message ∷ []) w₁ in
            let more =
              grows (suc iter) after.0 (answered_context a chat p tools resp choice iter rc)
                after.1 in
            rw same (omega (arith, one, more, ap length kept))
      ]

  react-Grows : (rounds : ℕ) → Grows rounds
  react-Grows zero iter messages rc w =
      unfold react in
      omega (
        arith,
        ap length (
            finish-log a log u (record rc { iteration = p.max_iter - 1 }) max_iterations_exceeded
              w),
      )
  react-Grows (suc rounds) iter messages rc w = elim (Bool-cases (exhausted rc.tracker)) [
    | inr unspent ↦
        omega (arith, round_sends rounds iter messages rc w (react-Grows rounds) unspent)
    | inl over ↦
        let rc₀ = record rc { iteration = iter } in
        let same : react a chat p tools (suc rounds) iter messages rc w
            ≡ finish a rc₀ token_budget_exhausted w =
          unfold react in ground (arith, over) in
        rw same (omega (arith, ap length (finish-log a log u rc₀ token_budget_exhausted w)))
  ]

  -- With a round left and a budget that is not used up, a request is sent.
  pub react_sends :
      (rounds iter : ℕ) (messages : List C.Message) (rc : RunContext C) (w : W)
      → 0 < rounds
      → exhausted rc.tracker ≡ false
      → length (log w) < length (log (react a chat p tools rounds iter messages rc w).1)
  react_sends zero iter messages rc w some_left unspent = absurd (omega (arith, some_left))
  react_sends (suc rounds) iter messages rc w some_left unspent =
      round_sends rounds iter messages rc w (react-Grows rounds) unspent
