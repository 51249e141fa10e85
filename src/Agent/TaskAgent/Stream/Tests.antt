-- ===== src/Agent/TaskAgent/Stream/Tests.antt =====
-- A streaming run with one tool (agent/taskagent/task.go).
use Prim.Native.String.{◌++◌ as str_append}
use vagent.Common.{
  ℕ, suc, Bool, ◌≡◌, refl, String, true, false, List, [], ◌∷◌, ◌++◌, Option, none, some, length,
}
use vagent.Schema.{complete}
use vagent.Guard.Chain.{clear}
use vagent.Agent.Chat.{ChatRequest, completed}
use vagent.Agent.TaskAgent.{Agent, agent_start}
use vagent.Agent.TaskAgent.Budget.{new_budget_tracker}
use vagent.Agent.TaskAgent.Run.Conversation.{Conversation}
use vagent.Agent.TaskAgent.Tests.{answer, talk, agent, ask, refusal, refuses, ending}
use vagent.Agent.TaskAgent.Stream.Blocked.{finalize_stream_blocked}
use vagent.Agent.TaskAgent.Chunks.{
  Streaming, Chunk, Opened, streams, StreamEvent, common, llm_call_end, Send, build_send,
  output_blocked,
}
use vagent.Agent.TaskAgent.Stream.{finalize_stream, run_stream}

abbrev pieces : Streaming talk
pieces = record {
  Delta = String × List String;
  delta_text = λ d. d.0;
  append_delta = λ d m. (str_append m.0 d.0, m.1 ++ d.1);
  assistant_message = ("", []);
  size = λ t. 1;
}

abbrev chunk : String → List String → Option Bool → Chunk pieces
chunk text calls reason = record { choice = some ((text, calls), reason) }

-- The first stream calls a tool, the others do not.
abbrev opens : ChatRequest talk → List (ChatRequest talk) → Opened pieces × List (ChatRequest talk)
opens q [] = (
  streams (record {
    chunks = chunk "loo" [] none ∷ chunk "king" ("call" ∷ []) (some true) ∷ [];
    broken = none;
    usage = some 4;
  }),
  q ∷ [],
)
opens q (p ∷ ps) = (
  streams (record { chunks = chunk "found" [] (some false) ∷ []; broken = none; usage = none }),
  p ∷ (ps ++ q ∷ []),
)

abbrev quiet_send : {W : Type 0} → Send talk W
quiet_send e w = (none, w)

abbrev streamer : {W : Type 0} → Agent talk W
streamer = agent (λ q w. (completed (answer false), w)) [] []

-- Two requests are sent.
two_requests : length (run_stream pieces quiet_send streamer (some opens) ask []).1 ≡ 2
unfolding run_stream new_budget_tracker
two_requests = refl

abbrev begin : StreamEvent talk
begin = common agent_start

-- The end of a call of the model is not dispatched to the hooks.
dispatches :
    (build_send (λ e n. suc n) [] quiet_send (llm_call_end 4) 0 ≡ (none, 0))
    × (build_send (λ e n. suc n) [] quiet_send begin 0 ≡ (none, 1))
unfolding build_send
dispatches = (refl, refl)

abbrev guarded : Agent talk ℕ
guarded = agent (λ q w. (completed (answer false), w)) [] (refuses ∷ [])

finalize_stream_blocked_example :
    finalize_stream pieces quiet_send guarded ending complete 7 ≡ (some (output_blocked refusal), 7)
finalize_stream_blocked_example =
    finalize_stream_blocked pieces quiet_send guarded ending 7 [] refuses [] refusal refl
      (0, _, false, [], clear, refl, refl, refl)
