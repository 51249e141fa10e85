-- ===== src/Agent/TaskAgent/Prepare.antt =====
-- What a run of the task agent starts from (agent/taskagent/task.go): the parameters, the messages,
-- the instructions of the skills and the tools.
use Prim.Native.String.{◌++◌ as str_append}
use vagent.Common.{
  ℕ, zero, suc, String, str_eq, List, [], ◌∷◌, ◌++◌, Option, none, some, length, if◌then◌else◌,
}
use vagent.Tool.Registry.{ToolDef}
use vagent.Agent.Chat.{Chat, AgentMessage, RunOptions, to_ai_model_messages}
use vagent.Agent.TaskAgent.{Agent, Memory}
use vagent.Agent.TaskAgent.Skills.{prepared_tools}

pub record RunParams (C : Chat) : Type 0 where
  pub model : String
  pub temperature : Option C.Temperature
  pub max_iter : ℕ
  pub run_token_budget : ℕ
  pub max_tokens : Option ℕ
  pub tool_filter : List String
  pub stop_seq : List String

abbrev pub or_else : {A : Type 0} → Option A → Option A → Option A
or_else none d = d
or_else (some a) d = some a

-- An override that is not 0.
abbrev pub override : ℕ → ℕ → ℕ
override zero d = d
override (suc n) d = suc n

abbrev pub override_tokens : ℕ → Option ℕ → Option ℕ
override_tokens zero d = d
override_tokens (suc n) d = some (suc n)

module _ {C : Chat} {W : Type 0} (a : Agent C W) where
  unfoldable pub resolve_run_params : Option (RunOptions C) → RunParams C
  resolve_run_params none = record {
    model = a.model;
    temperature = a.temperature;
    max_iter = a.max_iterations;
    run_token_budget = a.run_token_budget;
    max_tokens = a.max_tokens;
    tool_filter = [];
    stop_seq = [];
  }
  resolve_run_params (some o) = record {
    model = if str_eq o.model "" then a.model else o.model;
    temperature = or_else o.temperature a.temperature;
    max_iter = override o.max_iterations a.max_iterations;
    run_token_budget = override o.run_token_budget a.run_token_budget;
    max_tokens = override_tokens o.max_tokens a.max_tokens;
    tool_filter = o.tools;
    stop_seq = o.stop_sequences;
  }

  -- The entries that hold a message, in the order of their keys.
  unfoldable pub present_messages : List (String × Option (AgentMessage C)) → List (AgentMessage C)
  present_messages [] = []
  present_messages ((k, none) ∷ es) = present_messages es
  present_messages ((k, some m) ∷ es) = m ∷ present_messages es

  -- The compression of what was loaded; when it fails, the messages stay.
  unfoldable pub compress_loaded :
      Memory C W → List (AgentMessage C) → W → List (AgentMessage C) × W
  compress_loaded mem [] w = ([], w)
  compress_loaded mem (m ∷ ms) w = elim mem.compress [
    | none ↦ (m ∷ ms, w)
    | some compress ↦
        let (shorter, w') = compress (m ∷ ms) w in
        elim shorter [ none ↦ (m ∷ ms, w') | some kept ↦ (kept, w') ]
  ]

  -- The messages of the session, and how many there were before the compression.
  unfoldable pub load_and_compress_session_history : W → (List (AgentMessage C) × ℕ) × W
  unfolding present_messages compress_loaded
  load_and_compress_session_history w = elim a.memory_manager [
    | none ↦ (([], 0), w)
    | some mem ↦ elim mem.session [
      | none ↦ (([], 0), w)
      | some list ↦
          let (entries, w₁) = list w in
          elim entries [
            | none ↦ (([], 0), w₁)
            | some es ↦
                let loaded = present_messages (mem.sort_by_key es) in
                let (kept, w₂) = compress_loaded mem loaded w₁ in ((kept, length loaded), w₂)
          ]
    ]
  ]

  -- The system prompt, if it renders to a text; `none` for an error.
  unfoldable pub system_messages : W → Option (List C.Message) × W
  system_messages w = elim a.system_prompt [
    | none ↦ (some [], w)
    | some render ↦
        let (rendered, w') = render w in
        elim rendered [
          | none ↦ (none, w')
          | some text ↦
              if str_eq text "" then (some [], w') else (some (C.system_message text ∷ []), w')
        ]
  ]

  -- `none` for an error of the prompt; else the messages and the number of session messages.
  unfoldable pub build_initial_messages :
      List (AgentMessage C) → W → Option (List C.Message × ℕ) × W
  unfolding load_and_compress_session_history system_messages
  build_initial_messages req_msgs w =
      let (history, w₁) = load_and_compress_session_history w in
      let (system, w₂) = system_messages w₁ in
      elim system [
        | none ↦ (none, w₂)
        | some first ↦ (
          some (
            first ++ (to_ai_model_messages history.0 ++ to_ai_model_messages req_msgs),
            history.1,
          ),
          w₂,
        )
      ]

  abbrev pub inject_text : String → List C.Message → List C.Message
  inject_text text [] = C.system_message text ∷ []
  inject_text text (m ∷ ms) =
      if C.is_system m
      then C.with_text (str_append (C.text m) text) m ∷ ms
      else C.system_message text ∷ m ∷ ms

  unfoldable pub inject_skill_instructions : String → List C.Message → List C.Message
  inject_skill_instructions session_id messages =
      let text = a.skill_text (a.active_skills session_id) in
      if str_eq text "" then messages else inject_text text messages

  -- `prepareAITools` of the merged filter.
  unfoldable pub prepare_ai_tools : RunParams C → String → List (ToolDef C.Parameters)
  unfolding prepared_tools
  prepare_ai_tools p session_id = elim a.tool_registry [
    | none ↦ []
    | some r ↦ prepared_tools r.list (a.active_skills session_id) p.tool_filter
  ]
