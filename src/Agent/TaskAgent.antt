-- ===== src/Agent/TaskAgent.antt =====
-- The agent that reasons and acts in a loop (agent/taskagent/task.go, agent/taskagent/budget.go).
-- Everything behind its interfaces acts on a world `W`: the model, the tools, the hooks, the memory
-- and the clock, in nanoseconds. Formatted texts are arguments. The metadata that guards read is
-- part of their world. What `ctx.Err()` returns to a chain of guards is `guard_polls`.
pub mod Budget
pub mod Skills
pub mod Prepare
pub mod Guarding
pub mod Run
pub mod Chunks
pub mod Stream
mod Tests
use vagent.Common.{ℕ, String, List, Option}
use vagent.Schema.{Types, StopReason}
use vagent.Guard.{Guard}
use vagent.Tool.Registry.{ToolDef, ToolOutcome}
use vagent.Agent.Chat.{Chat, AgentMessage, ChatRequest, Completion, ToolResult}

-- The events that are dispatched to the hooks, with the fields that the loop computes.
pub data Event (C : Chat) : Type 0 where
  agent_start : Event C
  agent_end : ℕ → String → StopReason → Event C
  tool_call_start : C.ToolCall → Event C
  tool_call_end : C.ToolCall → ℕ → Event C
  -- The budget, what was used, and the iterations.
  budget_exhausted : ℕ → ℕ → ℕ → Event C

pub record ToolRegistry (C : Chat) (W : Type 0) : Type 0 where
  pub list : List (ToolDef C.Parameters)
  pub execute : String → String → W → ToolOutcome ToolResult C.Error × W
  -- The texts of errors.
  pub error_text : ToolOutcome ToolResult C.Error → String

-- The session memory: entries by key, of which some hold no message, the compressor with its
-- limit 0, and the promotion of a working memory.
pub record Memory (C : Chat) (W : Type 0) : Type 0 where
  pub session : Option (W → Option (List (String × Option (AgentMessage C))) × W)
  pub compress : Option (List (AgentMessage C) → W → Option (List (AgentMessage C)) × W)
  -- `slices.SortFunc` by the key.
  pub sort_by_key :
      List (String × Option (AgentMessage C)) → List (String × Option (AgentMessage C))
  -- `fmt.Sprintf("msg:%06d", idx)`
  pub message_key : ℕ → String
  pub promote_to_session : List (String × AgentMessage C) → W → W

pub record SkillDef : Type 0 where
  pub name : String
  pub instructions : String
  pub allowed_tools : List String

pub record Agent (C : Chat) (W : Type 0) : Type 0 where
  pub id : String
  -- `Render`: `none` for an error, which is then `prompt_error`.
  pub system_prompt : Option (W → Option String × W)
  pub prompt_error : C.Error
  pub model : String
  pub chat_completer : Option (ChatRequest C → W → Completion C × W)
  pub tool_registry : Option (ToolRegistry C W)
  pub memory_manager : Option (Memory C W)
  pub max_iterations : ℕ
  pub run_token_budget : ℕ
  pub max_tokens : Option ℕ
  pub temperature : Option C.Temperature
  pub dispatch : Event C → W → W
  pub input_guards : List (Guard ToolResult C.Metadata C.Error)
  pub output_guards : List (Guard ToolResult C.Metadata C.Error)
  pub guard_polls : W → ℕ → Option C.Error
  -- `ActiveSkills` of the session, with no manager as no skills.
  pub active_skills : String → List SkillDef
  -- The text of the active skills' instructions, empty if there are none.
  pub skill_text : List SkillDef → String
  pub now : W → ℕ
  -- `tool %q: no registry configured`
  pub no_registry_text : String → String
