-- ===== src/Agent/TaskAgent/Run/Conversation.antt =====
-- The messages that a run goes on with (agent/taskagent/task.go): answers of the model and the
-- results of their calls.
use vagent.Common.{
  ◌≡◌, ◌∙◌, ap, refl, ◌⊎◌, inl, inr, String, List, [], ◌∷◌, ◌++◌, none, some, arith, Option-cases,
}
use vagent.Tool.Registry.{ToolOutcome, ToolError, answered, refused}
use vagent.Agent.Chat.{Chat, ChatRequest, ChatResponse, Completion, completed, Choice, ToolResult}
use vagent.Agent.TaskAgent.{Agent, ToolRegistry}
use vagent.Agent.TaskAgent.Run.{tool_result_text, execute_tool_call}

-- A tool message for each call, with the ID of the call.
abbrev pub tool_messages : (C : Chat) → List C.ToolCall → List String → List C.Message
tool_messages C [] texts = []
tool_messages C (tc ∷ tcs) [] = []
tool_messages C (tc ∷ tcs) (t ∷ ts) = C.tool_message (C.call_id tc) t ∷ tool_messages C tcs ts

-- A text for each call, in their order, that the call gave.
pub data AllRan (C : Chat) (Ran : C.ToolCall → String → Type 0)
    : List C.ToolCall → List String → Type 0 where
  no_calls : AllRan C Ran [] []
  one_ran :
      {tc : C.ToolCall} {text : String} {tcs : List C.ToolCall} {texts : List String}
      → Ran tc text
      → AllRan C Ran tcs texts
      → AllRan C Ran (tc ∷ tcs) (text ∷ texts)

-- The messages of a run from the base on: rounds of an answer to the messages so far and the texts
-- of all of its calls, in their order.
pub data Conversation (C : Chat) (Answers : List C.Message → C.Message → Type 0)
    (Ran : C.ToolCall → String → Type 0) (base : List C.Message) : List C.Message → Type 0 where
  opened : Conversation C Answers Ran base base
  round :
      {ms ms' : List C.Message}
      → Conversation C Answers Ran base ms
      → (m : C.Message) (texts : List String) → Answers ms m
      → AllRan C Ran (C.tool_calls m) texts
      → ms' ≡ ms ++ m ∷ tool_messages C (C.tool_calls m) texts
      → Conversation C Answers Ran base ms'

pub append_assoc : {A : Type 0} (xs ys zs : List A) → (xs ++ ys) ++ zs ≡ xs ++ (ys ++ zs)
append_assoc [] ys zs = refl
append_assoc (x ∷ xs) ys zs = ap (λ r. x ∷ r) (append_assoc xs ys zs)

pub append_nil : {A : Type 0} (xs : List A) → xs ++ [] ≡ xs
append_nil [] = refl
append_nil (x ∷ xs) = ap (λ r. x ∷ r) (append_nil xs)

-- One call more: its message, and those of the calls after it.
pub tool_messages-append :
    (C : Chat) (tc : C.ToolCall) (tcs : List C.ToolCall) (messages after : List C.Message)
    (id text : String) (texts : List String)
    → id ≡ C.call_id tc
    → after ≡ (messages ++ C.tool_message id text ∷ []) ++ tool_messages C tcs texts
    → after ≡ messages ++ tool_messages C (tc ∷ tcs) (text ∷ texts)
tool_messages-append C tc tcs messages after id text texts named grown =
    grown
    ∙ append_assoc messages (C.tool_message id text ∷ []) (tool_messages C tcs texts)
    ∙ ap (λ i. messages ++ C.tool_message i text ∷ tool_messages C tcs texts) named

-- The message is the first choice of a completion for a request with these messages.
abbrev pub Completes :
    {C : Chat} {W : Type 0}
    → (ChatRequest C → W → Completion C × W)
    → List C.Message
    → C.Message
    → Type 0
Completes {C} {W} chat ms m =
    (q : ChatRequest C) × (w : W) × (resp : ChatResponse C) × (choice : Choice C) × (others : List
      (Choice C))
    × (q.messages ≡ ms)
    × ((chat q w).0 ≡ completed resp)
    × (resp.choices ≡ choice ∷ others)
    × (m ≡ choice.message)

ToolOutcome-cases :
    {R E : Type 0} (o : ToolOutcome R E)
    → ((r : R) × (o ≡ answered r)) ⊎ ((e : ToolError E) × (o ≡ refused e))
ToolOutcome-cases (answered r) = inl (r, refl)
ToolOutcome-cases (refused e) = inr (e, refl)

module _ {C : Chat} {W : Type 0} (a : Agent C W) where
  -- The text that a call gave, in some world: that of the tool's result, or of an error.
  pub data Ran (tc : C.ToolCall) : String → Type 0 where
    no_registry :
        {text : String}
        → a.tool_registry ≡ none
        → text ≡ a.no_registry_text (C.call_name tc)
        → Ran tc text
    gave :
        {text : String} (r : ToolRegistry C W) (w : W) (result : ToolResult)
        → a.tool_registry ≡ some r
        → (r.execute (C.call_name tc) (C.call_arguments tc) w).0 ≡ answered result
        → text ≡ tool_result_text result.content
        → Ran tc text
    broke_off :
        {text : String} (r : ToolRegistry C W) (w : W) (e : ToolError C.Error)
        → a.tool_registry ≡ some r
        → (r.execute (C.call_name tc) (C.call_arguments tc) w).0 ≡ refused e
        → text ≡ r.error_text (refused e)
        → Ran tc text

  pub execute_tool_call-Ran :
      (tc : C.ToolCall) (w : W) → Ran tc (tool_result_text (execute_tool_call a tc w).0.content)
  unfolding execute_tool_call tool_result_text
  execute_tool_call-Ran tc w = elim (Option-cases a.tool_registry) [
    | inl missing ↦ no_registry missing (ground (arith, missing))
    | inr (r, there) ↦
        elim (ToolOutcome-cases (r.execute (C.call_name tc) (C.call_arguments tc) w).0) [
          | inl (result, fine) ↦ gave r w result there fine (ground (arith, there, fine))
          | inr (e, broke) ↦ broke_off r w e there broke (ground (arith, there, broke))
        ]
  ]

  pub execute_tool_call-id :
      (tc : C.ToolCall) (w : W) → (execute_tool_call a tc w).0.tool_call_id ≡ C.call_id tc
  unfolding execute_tool_call
  execute_tool_call-id tc w = elim (Option-cases a.tool_registry) [
    | inl missing ↦ ground (arith, missing)
    | inr (r, there) ↦ ground (arith, there)
  ]
