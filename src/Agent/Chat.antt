-- ===== src/Agent/Chat.antt =====
-- The chat types of the third-party `aimodel` package, as a record of types and of the operations
-- that the agents use, and the messages of schema/message.go that wrap them. `with_text` sets the
-- content of a message, `calls_tools` says that a choice's finish reason is `tool_calls`.
use vagent.Common.{ℕ, String, Bool, List, [], ◌∷◌, Option}
use vagent.Schema.{Types}
use vagent.Tool.Registry.{ToolDef}

pub record Chat : Type 1 where
  pub Message : Type 0
  pub ToolCall : Type 0
  pub Usage : Type 0
  pub Temperature : Type 0
  pub Metadata : Type 0
  pub Parameters : Type 0
  pub Error : Type 0
  pub empty_message : Message
  pub text : Message → String
  pub tool_calls : Message → List ToolCall
  pub is_user : Message → Bool
  pub is_system : Message → Bool
  pub with_text : String → Message → Message
  pub system_message : String → Message
  pub tool_message : String → String → Message
  pub call_id : ToolCall → String
  pub call_name : ToolCall → String
  pub call_arguments : ToolCall → String
  pub no_usage : Usage
  pub add_usage : Usage → Usage → Usage
  pub total_tokens : Usage → ℕ

-- `schema.Message`
pub record AgentMessage (C : Chat) : Type 0 where
  pub message : C.Message
  pub agent_id : String
  pub timestamp : ℕ
  pub metadata : Option C.Metadata

-- `NewAssistantMessage`, with the time of its call.
abbrev pub new_assistant_message : {C : Chat} → ℕ → C.Message → String → AgentMessage C
new_assistant_message now msg agent_id = record {
  message = msg;
  agent_id = agent_id;
  timestamp = now;
  metadata = Option.none;
}

abbrev pub to_ai_model_messages : {C : Chat} → List (AgentMessage C) → List C.Message
to_ai_model_messages [] = []
to_ai_model_messages (m ∷ ms) = m.message ∷ to_ai_model_messages ms

-- `RunOptions`, where 0, an empty text and an empty list stand for no override.
pub record RunOptions (C : Chat) : Type 0 where
  pub model : String
  pub temperature : Option C.Temperature
  pub max_iterations : ℕ
  pub max_tokens : ℕ
  pub run_token_budget : ℕ
  pub tools : List String
  pub stop_sequences : List String

-- The types of requests and responses of agents.
abbrev pub agent_types : Chat → Types
agent_types C = record {
  Message = AgentMessage C;
  Usage = C.Usage;
  Options = RunOptions C;
  Metadata = C.Metadata;
  Error = C.Error;
  no_usage = C.no_usage;
  add_usage = C.add_usage;
}

pub record ChatRequest (C : Chat) : Type 0 where
  pub model : String
  pub messages : List C.Message
  pub temperature : Option C.Temperature
  pub max_tokens : Option ℕ
  pub stop : List String
  pub tools : List (ToolDef C.Parameters)

pub record Choice (C : Chat) : Type 0 where
  pub message : C.Message
  pub calls_tools : Bool

pub record ChatResponse (C : Chat) : Type 0 where
  pub usage : C.Usage
  pub choices : List (Choice C)

pub data Completion (C : Chat) : Type 0 where
  completed : ChatResponse C → Completion C
  failed : C.Error → Completion C

-- A tool result; of a part, whether it is text, and its text.
pub record ToolResult : Type 0 where
  pub tool_call_id : String
  pub content : List (Bool × String)
  pub is_error : Bool

-- `ErrorResult`
abbrev pub error_result : String → String → ToolResult
error_result id text = record {
  tool_call_id = id;
  content = (Bool.true, text) ∷ [];
  is_error = Bool.true;
}
