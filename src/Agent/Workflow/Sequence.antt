-- ===== src/Agent/Workflow/Sequence.antt =====
-- What a sequence of steps does (agent/workflowagent/workflow.go, `runSequence`).
use vagent.Common.{
  ℕ, suc, ◌+◌, ◌≡◌, ◌∙◌, ap, refl, inl, inr, List, [], ◌∷◌, ◌++◌, Option, none, some, length,
  Option-cases, arith,
}
use vagent.Schema.{Types, RunRequest, RunResponse, Outcome-cases, ok, err}
use vagent.Agent.Workflow.{
  Step, WorkflowResult, WorkflowError, responds, fails, cancelled, step_failed, nil_response,
  Progress, add_usage, sequence_response, run_steps, run_sequence,
}

module _ {T : Types} {W : Type 0} (poll : W → Option T.Error) (req : RunRequest T) where
  -- Steps that run one after the other with a live context, each on the request with the messages
  -- that the last one returned, with their responses.
  pub data Flows : List T.Message → W → List (Step T W) → List (RunResponse T) → W → Type 0 where
    done : {ms : List T.Message} {w : W} → Flows ms w [] [] w
    flow :
        {ms : List T.Message} {w w' : W} {step : Step T W} {steps : List (Step T W)}
        {resp : RunResponse T} {resps : List (RunResponse T)}
        → poll w ≡ none
        → (step (record req { messages = ms }) w).0 ≡ ok (some resp)
        → Flows resp.messages (step (record req { messages = ms }) w).1 steps resps w'
        → Flows ms w (step ∷ steps) (resp ∷ resps) w'

  -- The error of the k-th step: of the context before it, of the step, or no response.
  pub data Fails : ℕ → List T.Message → W → Step T W → WorkflowError T → W → Type 0 where
    was_cancelled :
        {k : ℕ} {ms : List T.Message} {w : W} {step : Step T W} (e : T.Error)
        → poll w ≡ some e
        → Fails k ms w step (cancelled e) w
    failed_step :
        {k : ℕ} {ms : List T.Message} {w : W} {step : Step T W} (e : T.Error)
        → poll w ≡ none
        → (step (record req { messages = ms }) w).0 ≡ err e
        → Fails k ms w step (step_failed k e) (step (record req { messages = ms }) w).1
    no_response :
        {k : ℕ} {ms : List T.Message} {w : W} {step : Step T W}
        → poll w ≡ none
        → (step (record req { messages = ms }) w).0 ≡ ok none
        → Fails k ms w step (nil_response k) (step (record req { messages = ms }) w).1

  abbrev pub last_messages : List T.Message → List (RunResponse T) → List T.Message
  last_messages ms [] = ms
  last_messages ms (r ∷ rs) = last_messages r.messages rs

  abbrev pub total : Option T.Usage → List (RunResponse T) → Option T.Usage
  total u [] = u
  total u (r ∷ rs) = total (add_usage T r.usage u) rs

  -- A result is explained by the steps that ran: all of them, or those before one that failed.
  pub data Explains (i : ℕ) (ms : List T.Message) (u : Option T.Usage) (w : W)
      (steps : List (Step T W)) : WorkflowResult T × W → Type 0 where
    all_ran :
        {w' : W} {resp : RunResponse T} (resps : List (RunResponse T))
        → Flows ms w steps resps w'
        → resp.messages ≡ last_messages ms resps
        → resp.usage ≡ total u resps
        → resp.session_id ≡ req.session_id
        → Explains i ms u w steps (responds resp, w')
    one_failed :
        {w' : W} {e : WorkflowError T} (before after : List (Step T W)) (step : Step T W)
        (resps : List (RunResponse T)) (w₁ : W) (k : ℕ)
        → steps ≡ before ++ step ∷ after
        → Flows ms w before resps w₁
        → k ≡ suc (i + length before)
        → Fails k (last_messages ms resps) w₁ step e w'
        → Explains i ms u w steps (fails e, w')

  further :
      {r : WorkflowResult T × W} (i : ℕ) (ms : List T.Message) (u : Option T.Usage) (w : W)
      (step : Step T W) (steps : List (Step T W)) (resp : RunResponse T)
      → poll w ≡ none
      → (step (record req { messages = ms }) w).0 ≡ ok (some resp)
      → Explains
          (suc i)
          resp.messages
          (add_usage T resp.usage u)
          (step (record req { messages = ms }) w).1
          steps
          r
      → Explains i ms u w (step ∷ steps) r
  further i ms u w step steps resp live fine (all_ran resps flows messages usage session) =
      all_ran (resp ∷ resps) (flow live fine flows) messages usage session
  further i ms u w step steps resp live fine
        (one_failed before after k resps w₁ n split flows number broke) =
      one_failed (step ∷ before) after k (resp ∷ resps) w₁ n (ap (λ l. step ∷ l) split)
        (flow live fine flows) (omega (arith, number)) broke

  abbrev state : List T.Message → Option (RunResponse T) → Option T.Usage → Progress T
  state ms last u = record {
    current_req = record req { messages = ms };
    last_resp = last;
    total_usage = u;
  }

  -- The response that the loop would end with.
  IsState : List T.Message → Option (RunResponse T) → Option T.Usage → Type 0
  IsState ms last u =
      let resp = sequence_response req (state ms last u) in
      (resp.messages ≡ ms) × (resp.usage ≡ u) × (resp.session_id ≡ req.session_id)

  run_steps-Explains :
      (i : ℕ) (steps : List (Step T W)) (ms : List T.Message) (last : Option (RunResponse T))
      (u : Option T.Usage) (w : W)
      → IsState ms last u
      → Explains i ms u w steps (run_steps poll req i steps (state ms last u) w)
  unfolding run_steps IsState
  run_steps-Explains i [] ms last u w (messages, usage, session) =
      all_ran [] done messages usage session
  run_steps-Explains i (step ∷ steps) ms last u w (messages, usage, session) =
      let q = record req { messages = ms } in
      elim (Option-cases (poll w)) [
        | inr (e, over) ↦
            let same : run_steps poll req i (step ∷ steps) (state ms last u) w
                ≡ (fails (cancelled e), w) =
              ground (arith, over) in
            rw same
              (one_failed [] steps step [] w (suc i) refl done (omega arith) (was_cancelled e over))
        | inl live ↦ elim (Outcome-cases (step q w).0) [
          | inr (e, broke) ↦
              let same : run_steps poll req i (step ∷ steps) (state ms last u) w
                  ≡ (fails (step_failed (suc i) e), (step q w).1) =
                ground (arith, live, broke) in
              rw same (
                one_failed [] steps step [] w (suc i) refl done (omega arith)
                  (failed_step e live broke))
          | inl (answer, fine) ↦ elim (Option-cases answer) [
            | inl nil ↦
                let same : run_steps poll req i (step ∷ steps) (state ms last u) w
                    ≡ (fails (nil_response (suc i)), (step q w).1) =
                  ground (arith, live, fine, nil) in
                rw same (
                  one_failed [] steps step [] w (suc i) refl done (omega arith)
                    (no_response live (fine ∙ ap ok nil)))
            | inr (resp, there) ↦
                let same : run_steps poll req i (step ∷ steps) (state ms last u) w
                    ≡ run_steps poll req (suc i) steps
                        (state resp.messages (some resp) (add_usage T resp.usage u)) (step q w).1 =
                  ground (arith, live, fine, there) in
                rw same (
                  further i ms u w step steps resp live (fine ∙ ap ok there) (
                    run_steps-Explains (suc i) steps resp.messages (some resp)
                      (add_usage T resp.usage u) (step q w).1 (refl, refl, refl)))
          ]
        ]
      ]

-- A sequence runs its steps in order, each with a live context, the first on the request and every
-- other on the request with the messages of the response before it. Either all of them respond,
-- and the response has the messages of the last one, the usage of all together and the session of
-- the request; or a step is the first whose context is done, that fails or that has no response:
-- no step after it runs, and the error is the context's, or it names the step by its number.
pub run_sequence-Explains :
    {T : Types} {W : Type 0} (poll : W → Option T.Error) (req : RunRequest T)
    (steps : List (Step T W)) (w : W)
    → Explains poll req 0 req.messages none w steps (run_sequence poll steps req w)
unfolding run_sequence
run_sequence-Explains poll req steps w =
    run_steps-Explains poll req 0 steps req.messages none none w
      (unfold IsState in (refl, refl, refl))
