-- ===== src/Orchestrate/Loop/Tests.antt =====
-- Loops at concrete inputs (orchestrate/loop.go).
use vagent.Common.{ℕ, suc, ◌+◌, ◌≤◌, ◌≡◌, ◌≢◌, refl, [], ◌∷◌, none, some, arith}
use vagent.Schema.{number_types, RunRequest, ok}
use vagent.Orchestrate.Loop.{LoopNode, answer, execute_loop}
use vagent.Orchestrate.Loop.Rounds.{execute_loop-calls}

-- A body that answers with the number of calls before it.
abbrev counting : LoopNode number_types ℕ
counting = record {
  body = λ q w. (
    ok (
        some (record {
          messages = w ∷ [];
          session_id = "body";
          usage = some 5;
          metadata = none;
          duration = 0;
          stop_reason = none;
        })),
    suc w,
  );
  condition = none;
  max_iters = 3;
  convergence = none;
}

abbrev request : RunRequest number_types
request = record { messages = []; session_id = "s"; options = none; metadata = none }

three_rounds : execute_loop counting (λ w. none) request 0 0 ≡ (
  some (
      answer (record {
        messages = 2 ∷ [];
        session_id = "s";
        usage = some 15;
        metadata = none;
        duration = 0;
        stop_reason = none;
      })),
  3,
)
unfolding execute_loop
three_rounds = refl

execute_loop-calls_example :
    let (result, w) = execute_loop counting (λ w. none) request 0 4 in (result ≢ none) × (w ≤ 4 + 3)
execute_loop-calls_example =
    execute_loop-calls counting (λ w. none) request (λ w. w) 0 4 (omega arith) (λ q w. refl)
