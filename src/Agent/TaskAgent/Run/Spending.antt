-- ===== src/Agent/TaskAgent/Run/Spending.antt =====
-- The tokens that a run uses (agent/taskagent/task.go, agent/taskagent/budget.go).
use vagent.Common.{ℕ, zero, suc, ◌+◌, ◌-◌, ◌≤◌, ◌<◌, ◌≡◌, refl, List, [], ◌∷◌, ◌++◌, false, arith}
use vagent.Schema.{complete, token_budget_exhausted, max_iterations_exceeded}
use vagent.Tool.Registry.{ToolDef}
use vagent.Agent.Chat.{Chat, ChatRequest, ChatResponse, Completion, completed, failed}
use vagent.Agent.TaskAgent.{Agent}
use vagent.Agent.TaskAgent.Budget.{BudgetTracker, exhausted, add}
use vagent.Agent.TaskAgent.Prepare.{RunParams}
use vagent.Agent.TaskAgent.Run.{RunContext, run_tool_calls, chat_request, react}
use vagent.Agent.TaskAgent.Run.Steps.{
  react-Iteration, answered_context, spent, fails, no_choice, answers, overspends, acts,
}
use vagent.Agent.TaskAgent.Run.Requests.{IsUntouched, run_tool_calls-log, finish-log}

-- The model counts the tokens of its responses, at most m in each.
pub record Counts {C : Chat} {W : Type 0} (chat : ChatRequest C → W → Completion C × W)
    (total : W → ℕ) (m : ℕ) : Type 0 where
  pub counted :
      (q : ChatRequest C) (w : W) (resp : ChatResponse C)
      → (chat q w).0 ≡ completed resp
      → (total (chat q w).1 ≡ total w + C.total_tokens resp.usage) × (C.total_tokens resp.usage ≤ m)
  pub uncounted :
      (q : ChatRequest C) (w : W) (e : C.Error)
      → (chat q w).0 ≡ failed e
      → total (chat q w).1 ≡ total w

exhausted-lt : (t : BudgetTracker) → 0 < t.budget → exhausted t ≡ false → t.consumed < t.budget
unfolding exhausted
exhausted-lt t positive room = ground (arith, positive, room)

add-consumed :
    (n : ℕ) (t : BudgetTracker)
    → ((add n t).0.consumed ≡ t.consumed + n) × ((add n t).0.budget ≡ t.budget)
unfolding add
add-consumed n t = (refl, refl)

module _ {C : Chat} {W : Type 0} (a : Agent C W) (chat : ChatRequest C → W → Completion C × W)
    (p : RunParams C) (tools : List (ToolDef C.Parameters)) (total : W → ℕ) (m : ℕ)
    (u : IsUntouched a total) (counts : Counts chat total m) where
  pub react-spending :
      (rounds iter : ℕ) (messages : List C.Message) (rc : RunContext C) (w : W) (before : ℕ)
      → total w ≡ before + rc.tracker.consumed
      → 0 < rc.tracker.budget
      → rc.tracker.consumed < rc.tracker.budget + m
      → total (react a chat p tools rounds iter messages rc w).1 < before + rc.tracker.budget + m
  react-spending zero iter messages rc w before known positive below =
      unfold react in
      rw (finish-log a total u (record rc { iteration = p.max_iter - 1 }) max_iterations_exceeded w)
        (omega (arith, known, below))
  react-spending (suc rounds) iter messages rc w before known positive below =
      let q = chat_request a p tools messages in
      let w₁ = (chat q w).1 in
      elim (react-Iteration a chat p tools rounds iter messages rc w) [
        | spent over same ↦
            rw
              (same, finish-log a total u (record rc { iteration = iter }) token_budget_exhausted w)
              (omega (arith, known, below))
        | fails e under broke same ↦
            rw same (omega (arith, known, below, counts.uncounted q w e broke))
        | no_choice resp under fine same ↦
            let (more, few) = counts.counted q w resp fine in
            let room = exhausted-lt rc.tracker positive under in
            rw same (omega (arith, known, room, more, few))
        | answers resp choice others under fine there silent same ↦
            let (more, few) = counts.counted q w resp fine in
            let room = exhausted-lt rc.tracker positive under in
            rw
              (
                same,
                finish-log a total u (answered_context a chat p tools resp choice iter rc) complete
                    w₁,
              )
              (omega (arith, known, room, more, few))
        | overspends resp choice others under fine there asks over same ↦
            let (more, few) = counts.counted q w resp fine in
            let room = exhausted-lt rc.tracker positive under in
            rw
              (
                same,
                finish-log a total u (answered_context a chat p tools resp choice iter rc)
                    token_budget_exhausted w₁,
              )
              (omega (arith, known, room, more, few))
        | acts resp choice others under fine there asks more_room same ↦
            let (more, few) = counts.counted q w resp fine in
            let room = exhausted-lt rc.tracker positive under in
            let rc₁ = answered_context a chat p tools resp choice iter rc in
            let calls = C.tool_calls choice.message in
            let after = run_tool_calls a calls (messages ++ choice.message ∷ []) w₁ in
            let kept = run_tool_calls-log a total u calls (messages ++ choice.message ∷ []) w₁ in
            let (used, limit) = add-consumed (C.total_tokens resp.usage) rc.tracker in
            let ih =
              react-spending rounds (suc iter) after.0 rc₁ after.1 before
                (omega (arith, kept, more, known, used)) (omega (arith, positive, limit))
                (omega (arith, room, few, used, limit)) in
            rw same (omega (arith, ih, limit))
      ]
