-- ===== src/Orchestrate/Loop/Rounds.antt =====
-- A loop with a bound ends, within its rounds (orchestrate/loop.go).
use vagent.Common.{
  ℕ, zero, suc, ◌+◌, ◌-◌, ◌≤◌, ◌<◌, ◌≡◌, ◌≢◌, inl, inr, Option, none, some, Option-cases, arith,
}
use vagent.Schema.{Types, RunRequest, Outcome-cases}
use vagent.Orchestrate.Loop.{
  LoopNode, LoopState, finish, rounds, start_state, execute_loop, next_state,
}

module _ {T : Types} {W : Type 0} (loop : LoopNode T W) (poll : W → Option T.Error)
    (req : RunRequest T) (calls : W → ℕ) where
  rounds-calls :
      (n : ℕ) (st : LoopState T) (w : W)
      → ((q : RunRequest T) (w : W) → calls (loop.body q w).1 ≡ suc (calls w))
      → let (result, w') = rounds loop poll req (λ s. some (finish loop poll req s)) n st w in
        (result ≢ none) × (calls w' ≤ calls w + n)
  unfolding rounds
  rounds-calls zero st w h = ((λ e. cc), omega arith)
  rounds-calls (suc n) st w h = elim (Option-cases (poll w)) [
    | inr (e, dead) ↦ (ground (arith, dead), ground (arith, dead))
    | inl live ↦
        let once = h st.current_req w in
        elim (Outcome-cases (loop.body st.current_req w).0) [
          | inr (e, broke) ↦ (ground (arith, live, broke), ground (arith, live, broke, once))
          | inl (o, fine) ↦ elim (Option-cases o) [
            | inl nothing ↦
                (ground (arith, live, fine, nothing), ground (arith, live, fine, nothing, once))
            | inr (resp, there) ↦
                let ih =
                  rounds-calls n (next_state loop poll req resp st) (loop.body st.current_req w).1
                    h in
                (ground (arith, live, fine, there, ih), ground (arith, live, fine, there, once, ih))
          ]
        ]
  ]

  -- A loop with a bound returns a response or an error, whatever its body does, and calls the body
  -- no more often than the bound, when a call of the body counts as one.
  pub execute_loop-calls :
      (fuel : ℕ) (w : W)
      → 0 < loop.max_iters
      → ((q : RunRequest T) (w : W) → calls (loop.body q w).1 ≡ suc (calls w))
      → let (result, w') = execute_loop loop poll req fuel w in
        (result ≢ none) × (calls w' ≤ calls w + loop.max_iters)
  unfolding execute_loop
  execute_loop-calls fuel w bound h =
      let n = loop.max_iters - 1 in
      let size : loop.max_iters ≡ suc n = omega arith in
      let ih = rounds-calls (suc n) (start_state loop poll req) w h in
      (ground (arith, size, ih), ground (arith, size, ih))
