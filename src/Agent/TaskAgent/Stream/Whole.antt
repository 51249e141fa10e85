-- ===== src/Agent/TaskAgent/Stream/Whole.antt =====
-- The requests of a whole streaming run (agent/taskagent/task.go, `RunStream`).
use vagent.Common.{ℕ, ◌≤◌, ◌<◌, ◌≡◌, ◌⊎◌, List, [], ◌∷◌, ◌++◌, Option, some, length, All}
use vagent.Agent.Chat.{Chat, ChatRequest}
use vagent.Agent.TaskAgent.{Agent}
use vagent.Agent.TaskAgent.Run.Conversation.{Conversation, Ran}
use vagent.Agent.TaskAgent.Run.Requests.{IsUntouched}
use vagent.Agent.TaskAgent.Stream.Answer.{Streams}
use vagent.Agent.TaskAgent.Chunks.{Streaming, Opened, StreamEvent, StreamError, Send}

module _ {C : Chat} (S : Streaming C) {W : Type 0} (send : Send C W) (a : Agent C W)
    (open_stream : ChatRequest C → W → Opened S × W) (log : W → List (ChatRequest C))
    (u : IsUntouched a log) (quiet : (e : StreamEvent C) (w : W) → log (send e w).1 ≡ log w)
    (logs : (q : ChatRequest C) (w : W) → log (open_stream q w).1 ≡ log w ++ q ∷ []) where
  -- A stream ends in an error with no request in the log; or the requests continue the same first
  -- messages, and there is one if the bound allows it. There are at most as many as the bound.
  abbrev Asks : (List C.Message → Type 0) → ℕ → Option (StreamError C) × W → Type 0
  Asks First bound r =
      (((e : StreamError C) × (r.0 ≡ some e) × (log r.1 ≡ []))
        ⊎ ((base : List C.Message) × First base
            × (0 < bound → 0 < length (log r.1))
            × All (λ q. Conversation C (Streams S open_stream) (Ran a) base q.messages) (log r.1)))
      × (length (log r.1) ≤ bound)
