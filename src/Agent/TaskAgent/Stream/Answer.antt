-- ===== src/Agent/TaskAgent/Stream/Answer.antt =====
-- The answer of a model that streams (agent/taskagent/task.go, the loop over the chunks of
-- `runStreamLoop`).
use vagent.Common.{
  ◌≡◌, inl, inr, str_eq, List, [], ◌∷◌, none, some, arith, Bool-cases, Option-cases,
}
use vagent.Agent.Chat.{Chat, ChatRequest}
use vagent.Agent.TaskAgent.Chunks.{
  Streaming, Chunk, ModelStream, Opened, streams, Send, text_delta, Accumulated, extend,
  read_chunks,
}

module _ {C : Chat} (S : Streaming C) where
  -- The deltas of the chunks, appended in their order.
  pub assembled : List (Chunk S) → C.Message → C.Message
  assembled [] m = m
  assembled (c ∷ cs) m = elim c.choice [
    | none ↦ assembled cs m
    | some (delta, reason) ↦ assembled cs (S.append_delta delta m)
  ]

  -- The message is assembled from a stream that was opened for a request with these messages and
  -- that did not break.
  abbrev pub Streams :
      {W : Type 0} → (ChatRequest C → W → Opened S × W) → List C.Message → C.Message → Type 0
  Streams {W} open_stream ms m =
      (q : ChatRequest C) × (w : W) × (stream : ModelStream S) × (q.messages ≡ ms)
      × ((open_stream q w).0 ≡ streams stream)
      × (stream.broken ≡ none)
      × (m ≡ assembled stream.chunks S.assistant_message)

  pub read_chunks-assembled :
      {W : Type 0} (send : Send C W) (cs : List (Chunk S)) (acc : Accumulated C) (w : W)
      → (read_chunks S send cs acc w).0 ≡ none
      → (read_chunks S send cs acc w).1.0.message ≡ assembled cs acc.message
  unfolding read_chunks assembled
  read_chunks-assembled send [] acc w h = ground arith
  read_chunks-assembled send (c ∷ cs) acc w h = elim (Option-cases c.choice) [
    | inl empty ↦ ground (arith, empty, h, read_chunks-assembled send cs acc w)
    | inr ((delta, reason), there) ↦
        let text = S.delta_text delta in
        let acc' = extend S delta reason acc in
        elim (Bool-cases (str_eq text "")) [
          | inl silent ↦ ground (arith, there, silent, h, read_chunks-assembled send cs acc' w)
          | inr said ↦ elim (Option-cases (send (text_delta text) w).0) [
            | inl fine ↦ ground (
              arith,
              there,
              said,
              fine,
              h,
              read_chunks-assembled send cs acc' (send (text_delta text) w).1,
            )
            | inr (e, broke) ↦ absurd (ground (arith, there, said, broke, h))
          ]
        ]
  ]
