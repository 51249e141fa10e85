-- ===== src/Agent/TaskAgent/Stream/Sends.antt =====
-- A streaming run that enters its loop asks the model (agent/taskagent/task.go, `runStreamLoop`).
use vagent.Common.{
  ℕ, zero, suc, ◌+◌, ◌<◌, ◌≡◌, ◌∙◌, ap, refl, ◌⊎◌, inl, inr, false, List, [], ◌∷◌, ◌++◌, some,
  length, arith, Option-cases,
}
use vagent.Tool.Registry.{ToolDef}
use vagent.Agent.Chat.{Chat, ChatRequest}
use vagent.Agent.TaskAgent.{Agent}
use vagent.Agent.TaskAgent.Budget.{exhausted}
use vagent.Agent.TaskAgent.Prepare.{RunParams}
use vagent.Agent.TaskAgent.Run.Requests.{IsUntouched}
use vagent.Agent.TaskAgent.Run.{RunContext, chat_request}
use vagent.Agent.TaskAgent.Stream.Requests.{
  Opened-cases, Follows, Bounded, consume-Bounded, stream_loop-Bounded,
}
use vagent.Agent.TaskAgent.Chunks.{
  stream_failed, Streaming, Opened, StreamEvent, iteration_start, StreamError, send_failed, Send,
}
use vagent.Agent.TaskAgent.Stream.{consume, stream_loop}

module _ {C : Chat} (S : Streaming C) {W : Type 0} (send : Send C W) (a : Agent C W)
    (open_stream : ChatRequest C → W → Opened S × W) (p : RunParams C)
    (tools : List (ToolDef C.Parameters)) (base : List C.Message) (log : W → List (ChatRequest C))
    (u : IsUntouched a log) (quiet : (e : StreamEvent C) (w : W) → log (send e w).1 ≡ log w)
    (logs : (q : ChatRequest C) (w : W) → log (open_stream q w).1 ≡ log w ++ q ∷ []) where
  -- With a round left and a budget that is not used up, a stream is asked for, or the loop ends in
  -- an error before.
  pub stream_loop_sends :
      (rounds iter : ℕ) (messages : List C.Message) (rc : RunContext C) (w : W)
      → Follows S send a open_stream p tools base log 1 messages
      → log w ≡ []
      → exhausted rc.tracker ≡ false
      → let r = stream_loop S send a open_stream p tools rounds iter messages rc w in
        ((e : StreamError C) × (r.0 ≡ some e) × (log r.1 ≡ []))
        ⊎ (0 < rounds → 0 < length (log r.1))
  unfolding stream_loop
  stream_loop_sends zero iter messages rc w conv empty unspent =
      inr (λ some_left. absurd (omega (arith, some_left)))
  stream_loop_sends (suc rounds) iter messages rc w conv empty unspent =
      let rc₀ = record rc { iteration = iter } in
      let here = stream_loop S send a open_stream p tools (suc rounds) iter messages rc w in
      let w₁ = (send (iteration_start iter) w).1 in
      let q = chat_request a p tools messages in
      let w₂ = (open_stream q w₁).1 in
      let empty₁ : log w₁ ≡ [] = quiet (iteration_start iter) w ∙ empty in
      let asked : log w₂ ≡ q ∷ [] = logs q w₁ ∙ ap (λ l. l ++ q ∷ []) empty₁ in
      elim (Option-cases (send (iteration_start iter) w).0) [
        | inr (e, broke) ↦
            let same : here ≡ (some (send_failed e), w₁) = ground (arith, unspent, broke) in
            inl (send_failed e, ap (λ r. r.0) same, rw same empty₁)
        | inl fine ↦ elim (Opened-cases (open_stream q w₁).0) [
          | inr (e, broke) ↦
              let same : here ≡ (some (stream_failed e), w₂) =
                ground (arith, unspent, fine, broke) in
              inr (λ some_left. rw (same, asked) (omega arith))
          | inl (ms, there) ↦
              let next = stream_loop S send a open_stream p tools rounds (suc iter) in
              let same : here ≡ consume S send a open_stream p tools next messages ms rc₀ w₂ =
                ground (arith, unspent, fine, there) in
              let more : Bounded S send a open_stream p tools base log 1 1 w₂ =
                (rw asked (conv, tt), rw asked (omega arith), rw asked (omega arith)) in
              let bounded =
                consume-Bounded S send a open_stream p tools base log 1 u quiet logs 1 (1 + rounds)
                  next messages ms rc₀ w₂ (omega arith)
                  (stream_loop-Bounded S send a open_stream p tools base log 1 u quiet logs rounds
                    (suc iter) 1)
                  conv (λ answer unbroken same. (q, w₁, ms, refl, there, unbroken, same)) more in
              inr (λ some_left. rw same (omega (arith, bounded.2)))
        ]
      ]
