-- ===== src/Agent/TaskAgent/Run/Opening.antt =====
-- The messages that a run opens with (agent/taskagent/task.go, `buildInitialMessages`,
-- `loadAndCompressSessionHistory`, `injectSkillInstructions`): how the prompt, the session, the
-- request and the skills determine them.
use Prim.Native.String.{◌++◌ as str_append}
use vagent.Common.{
  ℕ, ◌≡◌, ◌∙◌, sym, ap, refl, ◌⊎◌, inl, inr, String, str_eq, eq_iff, true, false, List, [], ◌∷◌,
  ◌++◌, map, Option, none, some, if◌then◌else◌, arith, Bool-cases, Option-cases, List-cases,
}
use vagent.Schema.{RunRequest}
use vagent.Agent.Chat.{Chat, AgentMessage, agent_types, to_ai_model_messages}
use vagent.Agent.TaskAgent.{Agent, Memory}
use vagent.Agent.TaskAgent.Guarding.{let_through, run_input_guards}
use vagent.Agent.TaskAgent.Prepare.{
  present_messages, compress_loaded, load_and_compress_session_history, system_messages,
  build_initial_messages, inject_skill_instructions,
}

module _ {C : Chat} {W : Type 0} (a : Agent C W) where
  -- No message when there is no prompt or it renders to no text, else one with its text.
  pub data Prompted : List C.Message → Type 0 where
    unprompted : {ms : List C.Message} → a.system_prompt ≡ none → ms ≡ [] → Prompted ms
    prompted :
        {ms : List C.Message} (render : W → Option String × W) (v : W) (text : String)
        → a.system_prompt ≡ some render
        → (render v).0 ≡ some text
        → ms ≡ (if str_eq text "" then [] else C.system_message text ∷ [])
        → Prompted ms

  -- The compression of loaded messages: they stay when there are none, when nothing compresses them
  -- or when that fails.
  pub data Compressed (mem : Memory C W) (ms : List (AgentMessage C))
      : List (AgentMessage C) → Type 0 where
    nothing_loaded : {kept : List (AgentMessage C)} → ms ≡ [] → kept ≡ ms → Compressed mem ms kept
    no_compressor :
        {kept : List (AgentMessage C)} → mem.compress ≡ none → kept ≡ ms → Compressed mem ms kept
    not_compressed :
        {kept : List (AgentMessage C)}
        (compress : List (AgentMessage C) → W → Option (List (AgentMessage C)) × W) (v : W)
        → mem.compress ≡ some compress
        → (compress ms v).0 ≡ none
        → kept ≡ ms
        → Compressed mem ms kept
    compressed :
        {kept : List (AgentMessage C)}
        (compress : List (AgentMessage C) → W → Option (List (AgentMessage C)) × W) (v : W)
        → mem.compress ≡ some compress
        → (compress ms v).0 ≡ some kept
        → Compressed mem ms kept

  -- The messages of the session: none without a session or when it cannot be listed, else the
  -- compression of its messages in the order of their keys.
  pub data Remembered : List (AgentMessage C) → Type 0 where
    no_memory :
        {kept : List (AgentMessage C)} → a.memory_manager ≡ none → kept ≡ [] → Remembered kept
    no_session :
        {kept : List (AgentMessage C)} (mem : Memory C W)
        → a.memory_manager ≡ some mem
        → mem.session ≡ none
        → kept ≡ []
        → Remembered kept
    unlisted :
        {kept : List (AgentMessage C)} (mem : Memory C W)
        (list : W → Option (List (String × Option (AgentMessage C))) × W) (v : W)
        → a.memory_manager ≡ some mem
        → mem.session ≡ some list
        → (list v).0 ≡ none
        → kept ≡ []
        → Remembered kept
    listed :
        {kept : List (AgentMessage C)} (mem : Memory C W)
        (list : W → Option (List (String × Option (AgentMessage C))) × W) (v : W)
        (entries : List (String × Option (AgentMessage C)))
        → a.memory_manager ≡ some mem
        → mem.session ≡ some list
        → (list v).0 ≡ some entries
        → Compressed mem (present_messages a (mem.sort_by_key entries)) kept
        → Remembered kept

  -- The instructions of the active skills join the first message if it is the system's, and else
  -- stand before it.
  pub data Instructed (session_id : String) (ms : List C.Message) : List C.Message → Type 0 where
    uninstructed :
        {out : List C.Message}
        → a.skill_text (a.active_skills session_id) ≡ ""
        → out ≡ ms
        → Instructed session_id ms out
    joined :
        {out : List C.Message} (m : C.Message) (rest : List C.Message)
        → str_eq (a.skill_text (a.active_skills session_id)) "" ≡ false
        → ms ≡ m ∷ rest
        → C.is_system m ≡ true
        → out
          ≡ C.with_text (str_append (C.text m) (a.skill_text (a.active_skills session_id))) m ∷ rest
        → Instructed session_id ms out
    preceded :
        {out : List C.Message}
        → str_eq (a.skill_text (a.active_skills session_id)) "" ≡ false
        → (ms ≡ [])
          ⊎ ((m : C.Message) × (rest : List C.Message) × (ms ≡ m ∷ rest) × (C.is_system m ≡ false))
        → out ≡ C.system_message (a.skill_text (a.active_skills session_id)) ∷ ms
        → Instructed session_id ms out

  -- The prompt, the session and the messages of the request, in this order, with the instructions
  -- of the skills.
  abbrev pub Opens : RunRequest (agent_types C) → List C.Message → Type 0
  Opens req base =
      (first : List C.Message) × (history : List (AgentMessage C)) × Prompted first
      × Remembered history
      × Instructed req.session_id
          (first ++ (map (λ m. m.message) history ++ map (λ m. m.message) req.messages)) base

  -- The first messages of a run are those of the request that the input guards let through.
  abbrev pub Starts : RunRequest (agent_types C) → W → List C.Message → Type 0
  Starts req w base =
      (req' : RunRequest (agent_types C)) × (run_input_guards a req w ≡ let_through req')
      × Opens req' base

  compress_loaded-Compressed :
      (mem : Memory C W) (ms : List (AgentMessage C)) (w : W)
      → Compressed mem ms (compress_loaded a mem ms w).0
  unfolding compress_loaded
  compress_loaded-Compressed mem [] w = nothing_loaded refl refl
  compress_loaded-Compressed mem (m ∷ ms) w = elim (Option-cases mem.compress) [
    | inl missing ↦ no_compressor missing (ground (arith, missing))
    | inr (compress, there) ↦ elim (Option-cases (compress (m ∷ ms) w).0) [
      | inl broke ↦ not_compressed compress w there broke (ground (arith, there, broke))
      | inr (kept, fine) ↦
          let same : (compress_loaded a mem (m ∷ ms) w).0 ≡ kept = ground (arith, there, fine) in
          compressed compress w there (fine ∙ ap some (sym same))
    ]
  ]

  load-Remembered : (w : W) → Remembered (load_and_compress_session_history a w).0.0
  unfolding load_and_compress_session_history
  load-Remembered w = elim (Option-cases a.memory_manager) [
    | inl missing ↦ no_memory missing (ground (arith, missing))
    | inr (mem, at) ↦ elim (Option-cases mem.session) [
      | inl missing ↦ no_session mem at missing (ground (arith, at, missing))
      | inr (list, there) ↦ elim (Option-cases (list w).0) [
        | inl broke ↦ unlisted mem list w at there broke (ground (arith, at, there, broke))
        | inr (es, fine) ↦
            let loaded = present_messages a (mem.sort_by_key es) in
            let same : (load_and_compress_session_history a w).0.0
                ≡ (compress_loaded a mem loaded (list w).1).0 =
              ground (arith, at, there, fine) in
            listed mem list w es at there fine
              (rw same (compress_loaded-Compressed mem loaded (list w).1))
      ]
    ]
  ]

  system_messages-Prompted :
      (w : W) (first : List C.Message) → (system_messages a w).0 ≡ some first → Prompted first
  unfolding system_messages
  system_messages-Prompted w first h = elim (Option-cases a.system_prompt) [
    | inl missing ↦ unprompted missing (ground (arith, h, missing))
    | inr (render, at) ↦ elim (Option-cases (render w).0) [
      | inl broke ↦ absurd (ground (arith, h, at, broke))
      | inr (text, fine) ↦ prompted render w text at fine (ground (arith, h, at, fine))
    ]
  ]

  inject-Instructed :
      (session_id : String) (ms : List C.Message)
      → Instructed session_id ms (inject_skill_instructions a session_id ms)
  unfolding inject_skill_instructions
  inject-Instructed session_id ms =
      let text = a.skill_text (a.active_skills session_id) in
      elim (Bool-cases (str_eq text "")) [
        | inl silent ↦ uninstructed ((eq_iff text "").0 silent) (ground (arith, silent))
        | inr says ↦ elim (List-cases ms) [
          | inl empty ↦ preceded says (inl empty) (ground (arith, says, empty))
          | inr (m, rest, split) ↦ elim (Bool-cases (C.is_system m)) [
            | inl system ↦ joined m rest says split system (ground (arith, says, split, system))
            | inr other ↦
                preceded says (inr (m, rest, split, other)) (ground (arith, says, split, other))
          ]
        ]
      ]

  to_ai_model_messages-map :
      (ms : List (AgentMessage C)) → to_ai_model_messages ms ≡ map (λ m. m.message) ms
  to_ai_model_messages-map [] = refl
  to_ai_model_messages-map (m ∷ ms) = ap (λ r. m.message ∷ r) (to_ai_model_messages-map ms)

  pub build_initial_messages-Opens :
      (req : RunRequest (agent_types C)) (w : W) (built : List C.Message × ℕ)
      → (build_initial_messages a req.messages w).0 ≡ some built
      → Opens req (inject_skill_instructions a req.session_id built.0)
  unfolding build_initial_messages
  build_initial_messages-Opens req w built h =
      let history = (load_and_compress_session_history a w).0.0 in
      let w₁ = (load_and_compress_session_history a w).1 in
      elim (Option-cases (system_messages a w₁).0) [
        | inl broke ↦ absurd (ground (arith, h, broke))
        | inr (first, fine) ↦
            let whole : built.0
                ≡ first ++ (to_ai_model_messages history ++ to_ai_model_messages req.messages) =
              ground (arith, h, fine) in
            (
              first,
              history,
              system_messages-Prompted w₁ first fine,
              load-Remembered w,
              rw
                  (
                    sym (to_ai_model_messages-map history),
                    sym (to_ai_model_messages-map req.messages),
                    sym whole,
                  )
                  (inject-Instructed req.session_id built.0),
            )
      ]
