-- ===== src/Agent/TaskAgent/Stream/Blocked.antt =====
-- What the guards block in a stream (agent/taskagent/task.go, `finalizeStream`).
use vagent.Common.{◌≡◌, ◌∙◌, refl, sym, List, [], ◌∷◌, ◌++◌, none, some, arith}
use vagent.Schema.{complete}
use vagent.Guard.{output, Result, Guard}
use vagent.Agent.Chat.{Chat, ToolResult, new_assistant_message}
use vagent.Agent.TaskAgent.{Agent}
use vagent.Agent.TaskAgent.Guarding.{blocked, run_output_guards}
use vagent.Agent.TaskAgent.Run.{RunContext, build_response_msgs}
use vagent.Agent.TaskAgent.Run.Blocked.{
  Blocks, append-head, guard_at-blocked, run_output_guards-blocked,
}
use vagent.Agent.TaskAgent.Chunks.{Streaming, Send, output_blocked}
use vagent.Agent.TaskAgent.Stream.{finalize_stream}

-- An answer that the output guards block ends a completed stream with an error: nothing is
-- announced and no message is stored.
pub finalize_stream_blocked :
    {C : Chat} (S : Streaming C) {W : Type 0} (send : Send C W) (a : Agent C W) (rc : RunContext C)
    (w : W) (gs : List (Guard ToolResult C.Metadata C.Error))
    (g : Guard ToolResult C.Metadata C.Error) (hs : List (Guard ToolResult C.Metadata C.Error))
    (r : Result)
    → a.output_guards ≡ gs ++ g ∷ hs
    → Blocks a output rc.session_id none (new_assistant_message (a.now w) rc.last_msg a.id) w gs g r
    → finalize_stream S send a rc complete w ≡ (some (output_blocked r), w)
unfolding finalize_stream build_response_msgs
finalize_stream_blocked {C} S send a rc w gs g hs r guards blocks =
    let (first, rest, same) = append-head gs g hs in
    let answer = new_assistant_message (a.now w) rc.last_msg a.id in
    let stop =
      guard_at-blocked a output rc.session_id none 0 (answer ∷ []) answer w gs g hs r refl blocks in
    let held : run_output_guards a rc.session_id (answer ∷ []) w ≡ blocked r =
      run_output_guards-blocked a rc.session_id (answer ∷ []) w r first rest (guards ∙ same)
        (rw (sym same) stop) in
    ground (arith, held)
