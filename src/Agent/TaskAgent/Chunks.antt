-- ===== src/Agent/TaskAgent/Chunks.antt =====
-- What a streaming run reads and sends (agent/taskagent/task.go, `buildSend` and the loop over the
-- chunks of `runStreamLoop`).
use vagent.Common.{
  ℕ, ◌+◌, ◌/◌, ltb, String, str_eq, Bool, ◌&&◌, List, [], ◌∷◌, Option, none, some, if◌then◌else◌,
}
use vagent.Guard.{Result, ChainError}
use vagent.Agent.Chat.{Chat, ToolResult}
use vagent.Agent.TaskAgent.{Event}
use vagent.Agent.TaskAgent.Budget.{add}
use vagent.Agent.TaskAgent.Run.{RunContext, RunError}

-- The third-party types of streams. A message has a size in bytes.
pub record Streaming (C : Chat) : Type 1 where
  pub Delta : Type 0
  pub delta_text : Delta → String
  pub append_delta : Delta → C.Message → C.Message
  pub assistant_message : C.Message
  pub size : String → ℕ

-- The first choice of a chunk: its delta, and whether its finish reason, if any, is `tool_calls`.
pub record Chunk {C : Chat} (S : Streaming C) : Type 0 where
  pub choice : Option (S.Delta × Option Bool)

pub record ModelStream {C : Chat} (S : Streaming C) : Type 0 where
  pub chunks : List (Chunk S)
  pub broken : Option C.Error
  pub usage : Option C.Usage

pub data Opened {C : Chat} (S : Streaming C) : Type 0 where
  streams : ModelStream S → Opened S
  not_opened : C.Error → Opened S

pub data StreamEvent (C : Chat) : Type 0 where
  common : Event C → StreamEvent C
  iteration_start : ℕ → StreamEvent C
  text_delta : String → StreamEvent C
  llm_call_end : C.Usage → StreamEvent C
  tool_result : C.ToolCall → ToolResult → StreamEvent C

pub data StreamError (C : Chat) : Type 0 where
  send_failed stream_failed recv_failed : C.Error → StreamError C
  output_blocked : Result → StreamError C
  output_guard_failed : ChainError C.Error → StreamError C
  not_started : RunError C → StreamError C

abbrev pub Send : Chat → Type 0 → Type 0
Send C W = StreamEvent C → W → Option C.Error × W

-- The middlewares, the first one outermost.
unfoldable pub wrap_send :
    {C : Chat} {W : Type 0} → List (Send C W → Send C W) → Send C W → Send C W
wrap_send [] raw = raw
wrap_send (m ∷ ms) raw = m (wrap_send ms raw)

-- What is sent is dispatched to the hooks first, but for the end of a call of the model.
unfoldable pub build_send :
    {C : Chat} {W : Type 0}
    → (StreamEvent C → W → W)
    → List (Send C W → Send C W)
    → Send C W
    → Send C W
unfolding wrap_send
build_send dispatch middlewares raw (llm_call_end u) w =
    wrap_send middlewares raw (llm_call_end u) w
build_send dispatch middlewares raw (common e) w =
    wrap_send middlewares raw (common e) (dispatch (common e) w)
build_send dispatch middlewares raw (iteration_start i) w =
    wrap_send middlewares raw (iteration_start i) (dispatch (iteration_start i) w)
build_send dispatch middlewares raw (text_delta t) w =
    wrap_send middlewares raw (text_delta t) (dispatch (text_delta t) w)
build_send dispatch middlewares raw (tool_result tc r) w =
    wrap_send middlewares raw (tool_result tc r) (dispatch (tool_result tc r) w)

-- The message so far, whether it asks for tools, and the bytes of text.
pub record Accumulated (C : Chat) : Type 0 where
  pub message : C.Message
  pub calls_tools : Bool
  pub bytes : ℕ

-- `(streamBytes + 3) / 4`, at least 1 if there are bytes.
unfoldable pub estimated_tokens : ℕ → ℕ
estimated_tokens bytes =
    let estimate = (bytes + 3) / 4 in if ltb estimate 1 && ltb 0 bytes then 1 else estimate

module _ {C : Chat} (S : Streaming C) where
  abbrev pub extend : S.Delta → Option Bool → Accumulated C → Accumulated C
  extend delta reason acc = record {
    message = S.append_delta delta acc.message;
    calls_tools = elim reason [ none ↦ acc.calls_tools | some calls ↦ calls ];
    bytes =
        if str_eq (S.delta_text delta) ""
        then acc.bytes
        else acc.bytes + S.size (S.delta_text delta);
  }

  module _ {W : Type 0} (send : Send C W) where
    -- The loop over the chunks: an error of a send, or all that was read.
    unfoldable pub read_chunks :
        List (Chunk S) → Accumulated C → W → Option C.Error × (Accumulated C × W)
    read_chunks [] acc w = (none, (acc, w))
    read_chunks (c ∷ cs) acc w = elim c.choice [
      | none ↦ read_chunks cs acc w
      | some (delta, reason) ↦
          let text = S.delta_text delta in
          let (problem, w') = if str_eq text "" then (none, w) else send (text_delta text) w in
          elim problem [
            | some e ↦ (some e, (acc, w'))
            | none ↦ read_chunks cs (extend delta reason acc) w'
          ]
    ]

    -- The usage of a stream, or an estimate; the error of this send is dropped.
    unfoldable pub count_stream : Option C.Usage → ℕ → RunContext C → W → RunContext C × W
    unfolding estimated_tokens add
    count_stream none bytes rc w =
        (record rc { tracker = (add (estimated_tokens bytes) rc.tracker).0 }, w)
    count_stream (some u) bytes rc w = (
      record rc {
        total_usage = C.add_usage rc.total_usage u;
        tracker = (add (C.total_tokens u) rc.tracker).0;
      },
      (send (llm_call_end u) w).1,
    )
