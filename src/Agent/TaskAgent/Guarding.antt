-- ===== src/Agent/TaskAgent/Guarding.antt =====
-- The guards around a run (agent/taskagent/task.go, `runInputGuards`, `runOutputGuards`), on the
-- chain of Guard.antt. Go rewrites the messages of the caller's request in place; here the request
-- with the rewritten message is returned.
use vagent.Common.{
  ℕ, zero, suc, String, List, [], ◌∷◌, Option, none, some, if◌then◌else◌, get_elem?,
}
use vagent.Schema.{RunRequest}
use vagent.Guard.{
  Direction, input, output, pass_action, block_action, rewrite_action, other_action, Result,
  ChainError, ok, err, run_guards,
}
use vagent.Guard
use vagent.Agent.Chat.{Chat, AgentMessage, ToolResult, agent_types}
use vagent.Agent.TaskAgent.{Agent}

-- The index of the last message of a user.
unfoldable pub last_user : {C : Chat} → List (AgentMessage C) → Option ℕ
last_user [] = none
last_user {C} (m ∷ ms) = elim (last_user ms) [
  | some i ↦ some (suc i)
  | none ↦ if C.is_user m.message then some zero else none
]

-- `msgs[i].Content = aimodel.NewTextContent(text)`
unfoldable pub rewrite_at : {C : Chat} → ℕ → String → List (AgentMessage C) → List (AgentMessage C)
rewrite_at i text [] = []
rewrite_at {C} zero text (m ∷ ms) = record m { message = C.with_text text m.message } ∷ ms
rewrite_at (suc i) text (m ∷ ms) = m ∷ rewrite_at i text ms

-- What a chain of guards makes of messages.
pub data Guarded (C : Chat) (A : Type 0) : Type 0 where
  let_through : A → Guarded C A
  blocked : Result → Guarded C A
  guard_failed : ChainError C.Error → Guarded C A

module _ {C : Chat} {W : Type 0} (a : Agent C W) where
  abbrev pub guard_message :
      Direction → String → String → Option C.Metadata → Guard.Message ToolResult C.Metadata
  guard_message direction text session_id metadata = record {
    direction = direction;
    content = text;
    agent_id = a.id;
    session_id = session_id;
    tool_calls = [];
    metadata = metadata;
  }

  -- What follows a chain that returned a result: the content that the chain left, if it was
  -- rewritten.
  abbrev pub after_guards :
      Result → ℕ → String → List (AgentMessage C) → Guarded C (List (AgentMessage C))
  after_guards r i text msgs = elim r.action [
    | block_action ↦ blocked r
    | rewrite_action ↦ let_through (rewrite_at i text msgs)
    | pass_action ↦ let_through msgs
    | other_action other ↦ let_through msgs
  ]

  -- The guards on the message at an index.
  unfoldable pub guard_at :
      Direction
      → List (Guard.Guard ToolResult C.Metadata C.Error)
      → String
      → Option C.Metadata
      → ℕ
      → List (AgentMessage C)
      → W
      → Guarded C (List (AgentMessage C))
  unfolding rewrite_at
  guard_at direction guards session_id metadata i msgs w = elim (get_elem? msgs i) [
    | none ↦ let_through msgs
    | some m ↦
        let (end, outcome) =
          run_guards (a.guard_polls w)
            (guard_message direction (C.text m.message) session_id metadata) guards in
        elim outcome [ err e ↦ guard_failed e | ok r ↦ after_guards r i end.content msgs ]
  ]

  unfoldable pub run_input_guards :
      RunRequest (agent_types C) → W → Guarded C (RunRequest (agent_types C))
  unfolding last_user guard_at
  run_input_guards req w = elim a.input_guards [
    | [] ↦ let_through req
    | g ∷ gs ↦ elim (last_user req.messages) [
      | none ↦ let_through req
      | some i ↦ elim (guard_at input (g ∷ gs) req.session_id req.metadata i req.messages w) [
        | let_through msgs ↦ let_through (record req { messages = msgs })
        | blocked r ↦ blocked r
        | guard_failed e ↦ guard_failed e
      ]
    ]
  ]

  unfoldable pub run_output_guards :
      String → List (AgentMessage C) → W → Guarded C (List (AgentMessage C))
  unfolding guard_at
  run_output_guards session_id msgs w = elim a.output_guards [
    | [] ↦ let_through msgs
    | g ∷ gs ↦ guard_at output (g ∷ gs) session_id none zero msgs w
  ]
