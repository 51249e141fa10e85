-- ===== src/Agent/TaskAgent/Run/Entry.antt =====
-- What a run does before its loop (agent/taskagent/task.go, `Run`).
use mathlib.Core.Path.{subst}
use vagent.Common.{
  zero, ◌≡◌, ◌∙◌, ◌⊎◌, inl, inr, refl, List, [], ◌∷◌, some, arith, Option-cases, List-cases,
}
use vagent.Schema.{RunRequest}
use vagent.Tool.Registry.{ToolDef}
use vagent.Agent.TaskAgent.Budget.{new_budget_tracker}
use vagent.Guard.{Result, ChainError, input}
use vagent.Agent.Chat.{Chat, AgentMessage, agent_types, ChatRequest, Completion}
use vagent.Agent.TaskAgent.{Agent, Memory, agent_start}
use vagent.Agent.TaskAgent.Prepare.{
  RunParams, resolve_run_params, present_messages, compress_loaded,
  load_and_compress_session_history, system_messages, build_initial_messages,
  inject_skill_instructions, prepare_ai_tools,
}
use vagent.Agent.TaskAgent.Guarding.{
  Guarded, let_through, blocked, guard_failed, last_user, guard_at, run_input_guards,
}
use vagent.Agent.TaskAgent.Run.{
  RunContext, RunOutcome, RunError, aborted, prompt_failed, input_blocked, input_guard_failed,
  react, new_run_context, run_guarded, run,
}
use vagent.Agent.TaskAgent.Run.Requests.{IsUntouched}
use vagent.Agent.TaskAgent.Run.Opening.{Opens, Starts, build_initial_messages-Opens}

module _ {C : Chat} {W L : Type 0} (a : Agent C W) (log : W → L) (u : IsUntouched a log) where
  compress_loaded-log :
      (mem : Memory C W) (ms : List (AgentMessage C)) (w : W)
      → a.memory_manager ≡ some mem
      → log (compress_loaded a mem ms w).1 ≡ log w
  unfolding compress_loaded
  compress_loaded-log mem [] w at = refl
  compress_loaded-log mem (m ∷ ms) w at = elim (Option-cases mem.compress) [
    | inl missing ↦ ground (arith, missing)
    | inr (compress, there) ↦ elim (Option-cases (compress (m ∷ ms) w).0) [
      | inl broke ↦ ground (arith, there, broke, u.by_compression mem compress (m ∷ ms) w at there)
      | inr (kept, fine) ↦
          ground (arith, there, fine, u.by_compression mem compress (m ∷ ms) w at there)
    ]
  ]

  load-log : (w : W) → log (load_and_compress_session_history a w).1 ≡ log w
  unfolding load_and_compress_session_history
  load-log w = elim (Option-cases a.memory_manager) [
    | inl missing ↦ ground (arith, missing)
    | inr (mem, at) ↦ elim (Option-cases mem.session) [
      | inl missing ↦ ground (arith, at, missing)
      | inr (list, there) ↦
          let listed = u.by_session mem list w at there in
          elim (Option-cases (list w).0) [
            | inl broke ↦ ground (arith, at, there, broke, listed)
            | inr (es, fine) ↦ ground (
              arith,
              at,
              there,
              fine,
              listed,
              compress_loaded-log mem (present_messages a (mem.sort_by_key es)) (list w).1 at,
            )
          ]
    ]
  ]

  system_messages-log : (w : W) → log (system_messages a w).1 ≡ log w
  unfolding system_messages
  system_messages-log w = elim (Option-cases a.system_prompt) [
    | inl missing ↦ ground (arith, missing)
    | inr (render, at) ↦ elim (Option-cases (render w).0) [
      | inl broke ↦ ground (arith, at, broke, u.by_prompt render w at)
      | inr (text, fine) ↦ ground (arith, at, fine, u.by_prompt render w at)
    ]
  ]

  pub build-log :
      (ms : List (AgentMessage C)) (w : W) → log (build_initial_messages a ms w).1 ≡ log w
  unfolding build_initial_messages
  build-log ms w =
      let w₁ = (load_and_compress_session_history a w).1 in
      elim (Option-cases (system_messages a w₁).0) [
        | inl broke ↦ ground (arith, broke, load-log w, system_messages-log w₁)
        | inr (first, fine) ↦ ground (arith, fine, load-log w, system_messages-log w₁)
      ]

pub Guarded-cases :
    {C : Chat} {A : Type 0} (g : Guarded C A)
    → ((x : A) × (g ≡ let_through x))
      ⊎ ((r : Result) × (g ≡ blocked r))
      ⊎ ((e : ChainError C.Error) × (g ≡ guard_failed e))
Guarded-cases (let_through x) = inl (x, refl)
Guarded-cases (blocked r) = inr (inl (r, refl))
Guarded-cases (guard_failed e) = inr (inr (e, refl))

-- The input guards change no more of a request than its messages.
pub run_input_guards-options :
    {C : Chat} {W : Type 0} (a : Agent C W) (req : RunRequest (agent_types C)) (w : W)
    (req' : RunRequest (agent_types C))
    → run_input_guards a req w ≡ let_through req'
    → req'.options ≡ req.options
unfolding run_input_guards
run_input_guards-options a req w req' fine = elim (List-cases a.input_guards) [
  | inl unguarded ↦ ground (arith, unguarded, fine)
  | inr (g, gs, guards) ↦ elim (Option-cases (last_user req.messages)) [
    | inl silent ↦ ground (arith, guards, silent, fine)
    | inr (i, said) ↦
        elim (Guarded-cases
          (guard_at a input (g ∷ gs) req.session_id req.metadata i req.messages w)) [
            | inl (msgs, kept) ↦ ground (arith, guards, said, kept, fine)
            | inr (inl (r, stop)) ↦ ground (arith, guards, said, stop, fine)
            | inr (inr (e, stop)) ↦ ground (arith, guards, said, stop, fine)
          ]
  ]
]

module _ {C : Chat} {W L : Type 0} (a : Agent C W) (chat : ChatRequest C → W → Completion C × W)
    (log : W → L) (u : IsUntouched a log) where
  -- A run ends before its loop, or is its loop from first messages and from a context that has used
  -- no tokens. Up to there the log stays.
  pub data Entry (p : RunParams C) (First : List C.Message → Type 0) (w : W)
      : RunOutcome C × W → Type 0 where
    ends :
        {r : RunOutcome C × W} (e : RunError C) (w' : W)
        → log w' ≡ log w
        → r ≡ (aborted e, w')
        → Entry p First w r
    enters :
        {r : RunOutcome C × W} (tools : List (ToolDef C.Parameters)) (messages : List C.Message)
        (rc : RunContext C) (w' : W)
        → log w' ≡ log w
        → rc.tracker ≡ new_budget_tracker p.run_token_budget
        → First messages
        → r ≡ react a chat p tools p.max_iter zero messages rc w'
        → Entry p First w r

  run_guarded-Entry :
      (req : RunRequest (agent_types C)) (First : List C.Message → Type 0) (w : W)
      → ((base : List C.Message) → Opens a req base → First base)
      → Entry (resolve_run_params a req.options) First w (run_guarded a chat req w)
  unfolding run_guarded
  run_guarded-Entry req First w first =
      let p = resolve_run_params a req.options in
      let rc = new_run_context a req p (a.now w) in
      let w₁ = a.dispatch agent_start w in
      let w₂ = (build_initial_messages a req.messages w₁).1 in
      let clean = build-log a log u req.messages w₁ ∙ u.by_dispatch agent_start w in
      elim (Option-cases (build_initial_messages a req.messages w₁).0) [
        | inl broke ↦ ends (prompt_failed a.prompt_error) w₂ clean (ground (arith, broke))
        | inr (built, fine) ↦
            enters (prepare_ai_tools a p req.session_id)
              (inject_skill_instructions a req.session_id built.0)
              (record rc { session_msg_count = built.1 }) w₂ clean refl
              (first (inject_skill_instructions a req.session_id built.0)
                (build_initial_messages-Opens a req w₁ built fine))
              (ground (arith, fine))
      ]

  pub run-Entry :
      (req : RunRequest (agent_types C)) (w : W)
      → a.chat_completer ≡ some chat
      → Entry (resolve_run_params a req.options) (Starts a req w) w (run a req w)
  unfolding run
  run-Entry req w there = elim (Guarded-cases (run_input_guards a req w)) [
    | inr (inl (r, stop)) ↦ ends (input_blocked r) w refl (ground (arith, there, stop))
    | inr (inr (e, stop)) ↦ ends (input_guard_failed e) w refl (ground (arith, there, stop))
    | inl (req', fine) ↦
        let same : run a req w ≡ run_guarded a chat req' w = ground (arith, there, fine) in
        rw same (
          subst (λ o. Entry (resolve_run_params a o) (Starts a req w) w (run_guarded a chat req' w))
            (run_input_guards-options a req w req' fine)
            (run_guarded-Entry req' (Starts a req w) w (λ base opens. (req', fine, opens))))
  ]
