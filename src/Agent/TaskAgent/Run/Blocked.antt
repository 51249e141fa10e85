-- ===== src/Agent/TaskAgent/Run/Blocked.antt =====
-- Messages that the guards of a run block (agent/taskagent/task.go).
use vagent.Common.{
  ℕ, ◌≡◌, ◌∙◌, refl, sym, String, Bool, true, false, List, [], ◌∷◌, ◌++◌, Option, none, some,
  length, get_elem?, All, arith,
}
use vagent.Schema.{RunRequest, complete}
use vagent.Guard.{Direction, input, output, block_action, Result, checked, Guard, Message}
use vagent.Guard.Chain.{Clears, run_guards-block}
use vagent.Agent.Chat.{
  Chat, AgentMessage, ToolResult, agent_types, ChatRequest, Completion, new_assistant_message,
}
use vagent.Agent.TaskAgent.{Agent}
use vagent.Agent.TaskAgent.Guarding.{
  last_user, guard_message, guard_at, blocked, run_input_guards, run_output_guards,
}
use vagent.Agent.TaskAgent.Run.{
  RunContext, aborted, input_blocked, run, build_response_msgs, guarded_or_raw, finalize_run,
}

get_elem?-append :
    {A : Type 0} (xs : List A) (x : A) (ys : List A) → get_elem? (xs ++ x ∷ ys) (length xs) ≡ some x
get_elem?-append [] x ys = refl
get_elem?-append (y ∷ xs) x ys = get_elem?-append xs x ys

pub append-head :
    {A : Type 0} (xs : List A) (y : A) (ys : List A)
    → (x : A) × (rest : List A) × (xs ++ y ∷ ys ≡ x ∷ rest)
append-head [] y ys = (y, ys, refl)
append-head (x ∷ xs) y ys = (x, xs ++ y ∷ ys, refl)

module _ {C : Chat} where
  abbrev pub IsOther : AgentMessage C → Type 0
  IsOther m = C.is_user m.message ≡ false

  last_user-none : (ms : List (AgentMessage C)) → All IsOther ms → last_user ms ≡ none
  unfolding last_user
  last_user-none [] others = refl
  last_user-none (m ∷ ms) (other, others) = ground (arith, other, last_user-none ms others)

  last_user-append :
      (before : List (AgentMessage C)) (m : AgentMessage C) (after : List (AgentMessage C))
      → C.is_user m.message ≡ true
      → All IsOther after
      → last_user (before ++ m ∷ after) ≡ some (length before)
  unfolding last_user
  last_user-append [] m after user others = ground (arith, user, last_user-none after others)
  last_user-append (x ∷ before) m after user others =
      ground (arith, last_user-append before m after user others)

module _ {C : Chat} {W : Type 0} (a : Agent C W) where
  -- A chain of guards on the message at an index, whose guard g blocks.
  abbrev pub Blocks :
      Direction
      → String
      → Option C.Metadata
      → AgentMessage C
      → W
      → List (Guard ToolResult C.Metadata C.Error)
      → Guard ToolResult C.Metadata C.Error
      → Result
      → Type 0
  Blocks direction session_id metadata m w gs g r =
      (j : ℕ) × (msg : Message ToolResult C.Metadata) × (changed : Bool) × (vs : List String)
      × Clears (a.guard_polls w) 0
          (guard_message a direction (C.text m.message) session_id metadata) false [] gs j msg
          changed vs
      × (a.guard_polls w j ≡ none)
      × (g.check msg ≡ checked (some r))
      × (r.action ≡ block_action)

  pub guard_at-blocked :
      (direction : Direction) (session_id : String) (metadata : Option C.Metadata) (i : ℕ)
      (msgs : List (AgentMessage C)) (m : AgentMessage C) (w : W)
      (gs : List (Guard ToolResult C.Metadata C.Error)) (g : Guard ToolResult C.Metadata C.Error)
      (hs : List (Guard ToolResult C.Metadata C.Error)) (r : Result)
      → get_elem? msgs i ≡ some m
      → Blocks direction session_id metadata m w gs g r
      → guard_at a direction (gs ++ g ∷ hs) session_id metadata i msgs w ≡ blocked r
  unfolding guard_at
  guard_at-blocked direction session_id metadata i msgs m w gs g hs r there
        (j, msg, changed, vs, clears, live, at, act) =
      ground (arith, there, run_guards-block (a.guard_polls w) gs g hs clears live at act, act)

  run_input_guards-blocked :
      (req : RunRequest (agent_types C)) (w : W) (i : ℕ) (r : Result)
      (g : Guard ToolResult C.Metadata C.Error) (gs : List (Guard ToolResult C.Metadata C.Error))
      → a.input_guards ≡ g ∷ gs
      → last_user req.messages ≡ some i
      → guard_at a input (g ∷ gs) req.session_id req.metadata i req.messages w ≡ blocked r
      → run_input_guards a req w ≡ blocked r
  unfolding run_input_guards
  run_input_guards-blocked req w i r g gs guards last stop = ground (arith, guards, last, stop)

  pub run_output_guards-blocked :
      (session_id : String) (msgs : List (AgentMessage C)) (w : W) (r : Result)
      (g : Guard ToolResult C.Metadata C.Error) (gs : List (Guard ToolResult C.Metadata C.Error))
      → a.output_guards ≡ g ∷ gs
      → guard_at a output (g ∷ gs) session_id none 0 msgs w ≡ blocked r
      → run_output_guards a session_id msgs w ≡ blocked r
  unfolding run_output_guards
  run_output_guards-blocked session_id msgs w r g gs guards stop = ground (arith, guards, stop)

  -- A request whose last message of a user is blocked by an input guard, after guards that let it
  -- through, ends with that guard's result, and nothing was done: no request to the model, no
  -- event, no message stored.
  pub run_blocked :
      {chat : ChatRequest C → W → Completion C × W} (req : RunRequest (agent_types C)) (w : W)
      (before : List (AgentMessage C)) (m : AgentMessage C) (after : List (AgentMessage C))
      (gs : List (Guard ToolResult C.Metadata C.Error)) (g : Guard ToolResult C.Metadata C.Error)
      (hs : List (Guard ToolResult C.Metadata C.Error)) (r : Result)
      → a.chat_completer ≡ some chat
      → req.messages ≡ before ++ m ∷ after
      → C.is_user m.message ≡ true
      → All IsOther after
      → a.input_guards ≡ gs ++ g ∷ hs
      → Blocks input req.session_id req.metadata m w gs g r
      → run a req w ≡ (aborted (input_blocked r), w)
  unfolding run
  run_blocked req w before m after gs g hs r there split user others guards blocks =
      let (first, rest, same) = append-head gs g hs in
      let said : get_elem? req.messages (length before) ≡ some m =
        rw split (get_elem?-append before m after) in
      let last : last_user req.messages ≡ some (length before) =
        rw split (last_user-append before m after user others) in
      let stop =
        guard_at-blocked input req.session_id req.metadata (length before) req.messages m w gs g hs
          r said blocks in
      let held =
        run_input_guards-blocked req w (length before) r first rest (guards ∙ same) last
          (rw (sym same) stop) in
      ground (arith, there, held)

  -- An answer that the output guards block is returned all the same: the response of a completed
  -- run holds the message as the model wrote it.
  pub finalize_run_blocked :
      (rc : RunContext C) (w : W) (gs : List (Guard ToolResult C.Metadata C.Error))
      (g : Guard ToolResult C.Metadata C.Error) (hs : List (Guard ToolResult C.Metadata C.Error))
      (r : Result)
      → (let answer = new_assistant_message (a.now w) rc.last_msg a.id in
          a.output_guards ≡ gs ++ g ∷ hs
          → Blocks output rc.session_id none answer w gs g r
          → (finalize_run a rc complete w).0.messages ≡ answer ∷ [])
  unfolding finalize_run guarded_or_raw build_response_msgs
  finalize_run_blocked rc w gs g hs r guards blocks =
      let (first, rest, same) = append-head gs g hs in
      let answer = new_assistant_message (a.now w) rc.last_msg a.id in
      let stop =
        guard_at-blocked output rc.session_id none 0 (answer ∷ []) answer w gs g hs r refl blocks in
      let held : run_output_guards a rc.session_id (answer ∷ []) w ≡ blocked r =
        run_output_guards-blocked rc.session_id (answer ∷ []) w r first rest (guards ∙ same)
          (rw (sym same) stop) in
      ground (arith, held)
