-- ===== src/Agent/TaskAgent/Run/Steps.antt =====
-- One iteration of the loop, branch by branch (agent/taskagent/task.go, `Run`).
use vagent.Common.{
  ℕ, suc, ◌≡◌, ◌⊎◌, inl, inr, refl, Bool, true, false, ◌&&◌, List, [], ◌∷◌, ◌++◌, Bool-cases,
  List-cases, arith,
}
use vagent.Schema.{complete, token_budget_exhausted}
use vagent.Tool.Registry.{ToolDef}
use vagent.Agent.Chat.{Chat, ChatRequest, ChatResponse, Completion, completed, failed, Choice}
use vagent.Agent.TaskAgent.{Agent}
use vagent.Agent.TaskAgent.Budget.{exhausted}
use vagent.Agent.TaskAgent.Prepare.{RunParams}
use vagent.Agent.TaskAgent.Run.{
  RunContext, RunOutcome, aborted, completion_failed, empty_response, run_tool_calls, finish,
  chat_request, count_usage, react,
}

Completion-cases :
    {C : Chat} (c : Completion C)
    → ((r : ChatResponse C) × (c ≡ completed r)) ⊎ ((e : C.Error) × (c ≡ failed e))
Completion-cases (completed r) = inl (r, refl)
Completion-cases (failed e) = inr (e, refl)

module _ {C : Chat} {W : Type 0} (a : Agent C W) (chat : ChatRequest C → W → Completion C × W)
    (p : RunParams C) (tools : List (ToolDef C.Parameters)) where
  -- The choice asks for tools.
  abbrev pub asks_tools : Choice C → Bool
  asks_tools choice =
      choice.calls_tools && (elim (C.tool_calls choice.message) [ [] ↦ false | c ∷ cs ↦ true ])

  -- The context of the answer.
  abbrev pub answered_context : ChatResponse C → Choice C → ℕ → RunContext C → RunContext C
  answered_context resp choice iter rc =
      record (count_usage a resp (record rc { iteration = iter })) { last_msg = choice.message }

  -- What the loop does in an iteration: it stops for the budget before the request, the request
  -- fails or has no choice, it stops with an answer or for the budget, or it goes on.
  pub data Iteration (rounds iter : ℕ) (messages : List C.Message) (rc : RunContext C) (w : W)
      : RunOutcome C × W → Type 0 where
    spent :
        {r : RunOutcome C × W}
        → exhausted rc.tracker ≡ true
        → r ≡ finish a (record rc { iteration = iter }) token_budget_exhausted w
        → Iteration rounds iter messages rc w r
    fails :
        {r : RunOutcome C × W} (e : C.Error)
        → exhausted rc.tracker ≡ false
        → (chat (chat_request a p tools messages) w).0 ≡ failed e
        → r ≡ (aborted (completion_failed e), (chat (chat_request a p tools messages) w).1)
        → Iteration rounds iter messages rc w r
    no_choice :
        {r : RunOutcome C × W} (resp : ChatResponse C)
        → exhausted rc.tracker ≡ false
        → (chat (chat_request a p tools messages) w).0 ≡ completed resp
        → r ≡ (aborted empty_response, (chat (chat_request a p tools messages) w).1)
        → Iteration rounds iter messages rc w r
    answers :
        {r : RunOutcome C × W} (resp : ChatResponse C) (choice : Choice C)
        (others : List (Choice C))
        → exhausted rc.tracker ≡ false
        → (chat (chat_request a p tools messages) w).0 ≡ completed resp
        → resp.choices ≡ choice ∷ others
        → asks_tools choice ≡ false
        → r
          ≡ finish a
              (answered_context resp choice iter rc)
              complete
              (chat (chat_request a p tools messages) w).1
        → Iteration rounds iter messages rc w r
    overspends :
        {r : RunOutcome C × W} (resp : ChatResponse C) (choice : Choice C)
        (others : List (Choice C))
        → exhausted rc.tracker ≡ false
        → (chat (chat_request a p tools messages) w).0 ≡ completed resp
        → resp.choices ≡ choice ∷ others
        → asks_tools choice ≡ true
        → exhausted (answered_context resp choice iter rc).tracker ≡ true
        → r
          ≡ finish a
              (answered_context resp choice iter rc)
              token_budget_exhausted
              (chat (chat_request a p tools messages) w).1
        → Iteration rounds iter messages rc w r
    acts :
        {r : RunOutcome C × W} (resp : ChatResponse C) (choice : Choice C)
        (others : List (Choice C))
        → exhausted rc.tracker ≡ false
        → (chat (chat_request a p tools messages) w).0 ≡ completed resp
        → resp.choices ≡ choice ∷ others
        → asks_tools choice ≡ true
        → exhausted (answered_context resp choice iter rc).tracker ≡ false
        → (let after =
              run_tool_calls a
                (C.tool_calls choice.message)
                (messages ++ choice.message ∷ [])
                (chat (chat_request a p tools messages) w).1 in
            r
            ≡ react a chat p tools rounds
                (suc iter)
                after.0
                (answered_context resp choice iter rc)
                after.1)
        → Iteration rounds iter messages rc w r

  pub react-Iteration :
      (rounds iter : ℕ) (messages : List C.Message) (rc : RunContext C) (w : W)
      → Iteration rounds iter messages rc w (react a chat p tools (suc rounds) iter messages rc w)
  unfolding react
  react-Iteration rounds iter messages rc w =
      let q = chat_request a p tools messages in
      elim (Bool-cases (exhausted rc.tracker)) [
        | inl over ↦ spent over (ground (arith, over))
        | inr under ↦ elim (Completion-cases (chat q w).0) [
          | inr (e, broke) ↦ fails e under broke (ground (arith, under, broke))
          | inl (resp, fine) ↦ elim (List-cases resp.choices) [
            | inl none_left ↦ no_choice resp under fine (ground (arith, under, fine, none_left))
            | inr (choice, others, there) ↦ elim (Bool-cases (asks_tools choice)) [
              | inr silent ↦
                  answers resp choice others under fine there silent
                    (ground (arith, under, fine, there, silent))
              | inl asks ↦
                  elim (Bool-cases (exhausted (answered_context resp choice iter rc).tracker)) [
                    | inl over ↦
                        overspends resp choice others under fine there asks over
                          (ground (arith, under, fine, there, asks, over))
                    | inr room ↦
                        acts resp choice others under fine there asks room
                          (ground (arith, under, fine, there, asks, room))
                  ]
            ]
          ]
        ]
      ]
