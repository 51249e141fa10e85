-- ===== src/Agent/TaskAgent/Run/Whole.antt =====
-- The requests of a whole run (agent/taskagent/task.go, `Run`).
use vagent.Common.{ℕ, zero, ◌+◌, ◌<◌, ◌≡◌, ap, some, arith}
use vagent.Schema.{RunRequest}
use vagent.Agent.Chat.{Chat, agent_types, ChatRequest, Completion}
use vagent.Agent.TaskAgent.{Agent}
use vagent.Agent.TaskAgent.Prepare.{resolve_run_params}
use vagent.Agent.TaskAgent.Run.{run}
use vagent.Agent.TaskAgent.Budget.{new_budget_tracker}
use vagent.Agent.TaskAgent.Run.Spending.{Counts, react-spending}
use vagent.Agent.TaskAgent.Run.Entry.{run-Entry, ends, enters}
use vagent.Agent.TaskAgent.Run.Conversation.{Conversation}
use vagent.Agent.TaskAgent.Run.Requests.{IsUntouched}

module _ {C : Chat} {W : Type 0} (a : Agent C W) (chat : ChatRequest C → W → Completion C × W) where
  -- A run with a budget of tokens uses less than the budget and the tokens of one response: the
  -- model counts the tokens of its responses, of at most m each, and the hooks, tools, prompt and
  -- memory leave the count alone.
  pub run-spending :
      (total : W → ℕ) (m : ℕ) (req : RunRequest (agent_types C)) (w : W)
      → IsUntouched a total
      → Counts chat total m
      → a.chat_completer ≡ some chat
      → let budget = (resolve_run_params a req.options).run_token_budget in
        0 < budget → total (run a req w).1 < total w + budget + m
  unfolding new_budget_tracker
  run-spending total m req w u counts there positive =
      let p = resolve_run_params a req.options in
      elim (run-Entry a chat total u req w there) [
        | ends e w' kept same ↦ rw same (omega (arith, kept, positive))
        | enters tools base rc w' kept fresh starts same ↦
            let unused : rc.tracker.consumed ≡ 0 = ap (λ t. t.consumed) fresh in
            let limit : rc.tracker.budget ≡ p.run_token_budget = ap (λ t. t.budget) fresh in
            let spent =
              react-spending a chat p tools total m u counts p.max_iter zero base rc w' (total w')
                (omega (arith, unused)) (omega (arith, limit, positive))
                (omega (arith, unused, limit, positive)) in
            rw same (omega (arith, spent, limit, kept))
      ]
