-- ===== src/Agent/TaskAgent/Stream/Requests.antt =====
-- The requests of a streaming run (agent/taskagent/task.go, `runStreamLoop`).
use vagent.Common.{
  ℕ, zero, suc, ◌+◌, ◌-◌, ◌≤◌, ◌≡◌, ◌∙◌, ap, refl, ◌⊎◌, inl, inr, true, false, ◌&&◌, List, [], ◌∷◌,
  ◌++◌, Option, none, some, length, length-append, All, All-append, arith, Bool-cases, Option-cases,
}
use vagent.Schema.{StopReason, complete, token_budget_exhausted, max_iterations_exceeded}
use vagent.Tool.Registry.{ToolDef}
use vagent.Agent.Chat.{Chat, ChatRequest}
use vagent.Agent.TaskAgent.{Agent}
use vagent.Agent.TaskAgent.Budget.{exhausted}
use vagent.Agent.TaskAgent.Prepare.{RunParams}
use vagent.Agent.TaskAgent.Run.Conversation.{tool_messages, Conversation, round, append_assoc, Ran}
use vagent.Agent.TaskAgent.Run.Requests.{IsUntouched}
use vagent.Agent.TaskAgent.Stream.Answer.{assembled, Streams, read_chunks-assembled}
use vagent.Agent.TaskAgent.Run.{RunContext, chat_request}
use vagent.Agent.TaskAgent.Stream.Quiet.{
  read_chunks-log, count_stream-log, finalize_stream-log, run_stream_calls-messages,
}
use vagent.Agent.TaskAgent.Chunks.{
  stream_failed, recv_failed, Streaming, ModelStream, Opened, streams, not_opened, StreamEvent,
  iteration_start, StreamError, send_failed, Send, Accumulated, read_chunks, count_stream,
}
use vagent.Agent.TaskAgent.Stream.{
  finalize_stream, run_stream_calls, after_stream, consume, stream_loop,
}

pub Opened-cases :
    {C : Chat} {S : Streaming C} (o : Opened S)
    → ((ms : ModelStream S) × (o ≡ streams ms)) ⊎ ((e : C.Error) × (o ≡ not_opened e))
Opened-cases (streams ms) = inl (ms, refl)
Opened-cases (not_opened e) = inr (e, refl)

module _ {C : Chat} (S : Streaming C) {W : Type 0} (send : Send C W) (a : Agent C W)
    (open_stream : ChatRequest C → W → Opened S × W) (p : RunParams C)
    (tools : List (ToolDef C.Parameters)) (base : List C.Message) (log : W → List (ChatRequest C))
    (floor : ℕ) where
  -- The base, then streamed answers of the model and the results of their calls.
  abbrev pub Follows : List C.Message → Type 0
  Follows = Conversation C (Streams S open_stream) (Ran a) base

  -- The requests continue the base, and there are at most as many and at least the floor.
  abbrev pub Bounded : ℕ → W → Type 0
  Bounded bound w =
      All (λ q. Follows q.messages) (log w) × (length (log w) ≤ bound) × (floor ≤ length (log w))

  Bounded-keep : (m n : ℕ) (w w' : W) → m ≤ n → log w' ≡ log w → Bounded m w → Bounded n w'
  Bounded-keep m n w w' le kept (all, few, enough) =
      (rw kept all, omega (arith, few, le, ap length kept), omega (arith, enough, ap length kept))

  module _ (u : IsUntouched a log) (quiet : (e : StreamEvent C) (w : W) → log (send e w).1 ≡ log w)
      (logs : (q : ChatRequest C) (w : W) → log (open_stream q w).1 ≡ log w ++ q ∷ []) where
    -- An iteration that goes on keeps to the bound n, given that the next one does.
    abbrev pub Continues :
        ℕ → ℕ → (List C.Message → RunContext C → W → Option (StreamError C) × W) → Type 0
    Continues m n continue =
        (messages : List C.Message) (rc : RunContext C) (w : W)
        → Follows messages
        → Bounded m w
        → Bounded n (continue messages rc w).1

    after_stream-Bounded :
        (m n : ℕ) (continue : List C.Message → RunContext C → W → Option (StreamError C) × W)
        (messages : List C.Message) (acc : Accumulated C) (rc : RunContext C) (w : W)
        → m ≤ n
        → Continues m n continue
        → Follows messages
        → Streams S open_stream messages acc.message
        → Bounded m w
        → Bounded n (after_stream S send a open_stream p tools continue messages acc rc w).1
    after_stream-Bounded m n continue messages acc rc w le goes conv answer bound =
        let calls = C.tool_calls acc.message in
        let asks = acc.calls_tools && (elim calls [ [] ↦ false | c ∷ cs ↦ true ]) in
        let here = after_stream S send a open_stream p tools continue messages acc rc w in
        let ends = λ (stop : StopReason).
          Bounded-keep m n w (finalize_stream S send a rc stop w).1 le
            (finalize_stream-log S send log quiet a u rc stop w) bound in
        elim (Bool-cases asks) [
          | inr silent ↦
              let same : here ≡ finalize_stream S send a rc complete w = ground (arith, silent) in
              rw same (ends complete)
          | inl asking ↦ elim (Bool-cases (exhausted rc.tracker)) [
            | inl over ↦
                let same : here ≡ finalize_stream S send a rc token_budget_exhausted w =
                  ground (arith, asking, over) in
                rw same (ends token_budget_exhausted)
            | inr room ↦
                let ran = run_stream_calls S send a calls (messages ++ acc.message ∷ []) w in
                let (kept, said) =
                  run_stream_calls-messages S send log quiet a u calls
                    (messages ++ acc.message ∷ []) w in
                elim (Option-cases ran.0) [
                  | inr (e, broke) ↦
                      let same : here ≡ (some (send_failed e), ran.1.1) =
                        ground (arith, asking, room, broke) in
                      rw same (Bounded-keep m n w ran.1.1 le kept bound)
                  | inl fine ↦
                      let (texts, replies, grown) = said fine in
                      let same : here ≡ continue ran.1.0 rc ran.1.1 =
                        ground (arith, asking, room, fine) in
                      rw same (
                        goes ran.1.0 rc ran.1.1
                          (round conv acc.message texts answer replies (
                            grown
                            ∙ append_assoc messages (acc.message ∷ [])
                                (tool_messages C calls texts)))
                          (Bounded-keep m m w ran.1.1 (omega arith) kept bound))
                ]
          ]
        ]

    pub consume-Bounded :
        (m n : ℕ) (continue : List C.Message → RunContext C → W → Option (StreamError C) × W)
        (messages : List C.Message) (ms : ModelStream S) (rc : RunContext C) (w : W)
        → m ≤ n
        → Continues m n continue
        → Follows messages
        → ((m : C.Message)
            → ms.broken ≡ none
            → m ≡ assembled S ms.chunks S.assistant_message
            → Streams S open_stream messages m)
        → Bounded m w
        → Bounded n (consume S send a open_stream p tools continue messages ms rc w).1
    unfolding consume
    consume-Bounded m n continue messages ms rc w le goes conv answers bound =
        let start : Accumulated C = record {
          message = S.assistant_message;
          calls_tools = false;
          bytes = 0;
        } in
        let read = read_chunks S send ms.chunks start w in
        let kept = read_chunks-log S send log quiet ms.chunks start w in
        let here = consume S send a open_stream p tools continue messages ms rc w in
        elim (Option-cases read.0) [
          | inr (e, broke) ↦
              let same : here ≡ (some (send_failed e), read.1.1) = ground (arith, broke) in
              rw same (Bounded-keep m n w read.1.1 le kept bound)
          | inl fine ↦ elim (Option-cases ms.broken) [
            | inr (e, broke) ↦
                let same : here ≡ (some (recv_failed e), read.1.1) = ground (arith, fine, broke) in
                rw same (Bounded-keep m n w read.1.1 le kept bound)
            | inl whole ↦
                let acc = read.1.0 in
                let counted = count_stream S send ms.usage acc.bytes rc read.1.1 in
                let rc' : RunContext C = record (counted.0) { last_msg = acc.message } in
                let same : here
                    ≡ after_stream S send a open_stream p tools continue messages acc rc'
                        counted.1 =
                  ground (arith, fine, whole) in
                rw same (
                  after_stream-Bounded m n continue messages acc rc' counted.1 le goes conv
                    (answers acc.message whole
                      (read_chunks-assembled S send ms.chunks start w fine))
                    (Bounded-keep m m w counted.1 (omega arith)
                      (count_stream-log S send log quiet ms.usage acc.bytes rc read.1.1 ∙ kept)
                      bound))
          ]
        ]

    pub stream_loop-Bounded :
        (rounds iter m : ℕ) (messages : List C.Message) (rc : RunContext C) (w : W)
        → Follows messages
        → Bounded m w
        → Bounded
            (m + rounds)
            (stream_loop S send a open_stream p tools rounds iter messages rc w).1
    unfolding stream_loop
    stream_loop-Bounded zero iter m messages rc w conv bound =
        let rc₀ = record rc { iteration = p.max_iter - 1 } in
        Bounded-keep m (m + 0) w (finalize_stream S send a rc₀ max_iterations_exceeded w).1
          (omega arith) (finalize_stream-log S send log quiet a u rc₀ max_iterations_exceeded w)
          bound
    stream_loop-Bounded (suc rounds) iter m messages rc w conv bound =
        let rc₀ = record rc { iteration = iter } in
        let here = stream_loop S send a open_stream p tools (suc rounds) iter messages rc w in
        let w₁ = (send (iteration_start iter) w).1 in
        let q = chat_request a p tools messages in
        let w₂ = (open_stream q w₁).1 in
        let more : Bounded (m + 1) w₂ =
          let (all, few, enough) =
            Bounded-keep m m w w₁ (omega arith) (quiet (iteration_start iter) w) bound in
          (
            rw (logs q w₁) (All-append (λ q. Follows q.messages) (log w₁) (q ∷ []) all (conv, tt)),
            omega (arith, few, ap length (logs q w₁), length-append (log w₁) (q ∷ [])),
            omega (arith, enough, ap length (logs q w₁), length-append (log w₁) (q ∷ [])),
          ) in
        elim (Bool-cases (exhausted rc.tracker)) [
          | inl over ↦
              let same : here ≡ finalize_stream S send a rc₀ token_budget_exhausted w =
                ground (arith, over) in
              rw same (
                Bounded-keep m (m + suc rounds) w
                  (finalize_stream S send a rc₀ token_budget_exhausted w).1 (omega arith)
                  (finalize_stream-log S send log quiet a u rc₀ token_budget_exhausted w) bound)
          | inr room ↦ elim (Option-cases (send (iteration_start iter) w).0) [
            | inr (e, broke) ↦
                let same : here ≡ (some (send_failed e), w₁) = ground (arith, room, broke) in
                rw same (
                  Bounded-keep m (m + suc rounds) w w₁ (omega arith)
                    (quiet (iteration_start iter) w) bound)
            | inl fine ↦ elim (Opened-cases (open_stream q w₁).0) [
              | inr (e, broke) ↦
                  let same : here ≡ (some (stream_failed e), w₂) =
                    ground (arith, room, fine, broke) in
                  rw same (Bounded-keep (m + 1) (m + suc rounds) w₂ w₂ (omega arith) refl more)
              | inl (ms, there) ↦
                  let next = stream_loop S send a open_stream p tools rounds (suc iter) in
                  let same : here ≡ consume S send a open_stream p tools next messages ms rc₀ w₂ =
                    ground (arith, room, fine, there) in
                  rw same (
                    consume-Bounded (m + 1) (m + suc rounds) next messages ms rc₀ w₂ (omega arith)
                      (λ messages' rc' w' conv' bound'.
                        Bounded-keep (m + 1 + rounds) (m + suc rounds) (next messages' rc' w').1
                          (next messages' rc' w').1 (omega arith) refl
                          (stream_loop-Bounded rounds (suc iter) (m + 1) messages' rc' w' conv'
                            bound'))
                      conv (λ answer unbroken same. (q, w₁, ms, refl, there, unbroken, same)) more)
            ]
          ]
        ]
