-- ===== src/LargeModel/CircuitBreaker/Tests.antt =====
-- The breaker at concrete inputs (largemodel/circuitbreaker.go).
use vagent.Common.{ℕ, zero, suc, ◌+◌, ◌≤◌, ◌≡◌, refl, true, false, List, [], ◌∷◌, arith}
use vagent.LargeModel.Completer.{cause, Result, ok, err}
use vagent.LargeModel.CircuitBreaker.{
  CircuitBreaker, closed, open_circuit, Setting, with_failure_threshold, with_reset_timeout,
  new_circuit_breaker, allow, record_result,
}
use vagent.LargeModel.CircuitBreaker.Refinement.{
  IsValid, Event, request, result, run, phase, run_phase, run-run_phase,
}
use vagent.LargeModel.CircuitBreaker.Trips.{requests, admitted, admitted-le-one}

abbrev settings : List Setting
settings = with_failure_threshold 2 ∷ with_reset_timeout 100 ∷ []

abbrev calm : CircuitBreaker
calm = record {
  state = closed;
  failure_count = 0;
  failure_threshold = 2;
  reset_timeout = 100;
  last_failure_at = 0;
  probe_in_flight = false;
}

abbrev open_since_7 : CircuitBreaker
open_since_7 = record calm { state = open_circuit; failure_count = 2; last_failure_at = 7 }

new_is_calm : new_circuit_breaker settings ≡ calm
unfolding new_circuit_breaker
new_is_calm = refl

abbrev story : List Event
story =
    request 1
    ∷ result 2 true
    ∷ request 3
    ∷ result 7 true
    ∷ request 50
    ∷ request 107
    ∷ request 108
    ∷ result 110 false
    ∷ request 111
    ∷ []

story_answers : (run story calm).1 ≡ true ∷ true ∷ false ∷ true ∷ false ∷ true ∷ []
unfolding run allow record_result
story_answers = refl

calm-IsValid : IsValid calm
calm-IsValid = ground arith

open-IsValid : IsValid open_since_7
open-IsValid = ground arith

run-run_phase_example :
    run_phase 2 100 story (phase calm) ≡ (phase (run story calm).0, (run story calm).1)
run-run_phase_example = run-run_phase 2 100 story calm refl refl calm-IsValid

admitted-le-one_example : admitted (run (requests (20 ∷ 107 ∷ 107 ∷ 300 ∷ [])) open_since_7).1 ≤ 1
admitted-le-one_example =
    admitted-le-one (20 ∷ 107 ∷ 107 ∷ 300 ∷ []) open_since_7 open-IsValid (λ e. cc)

-- A client that takes 5 time units and fails on odd requests.
abbrev client : ℕ → ℕ → Result ℕ ℕ × ℕ
client q w = elim q [ zero ↦ (ok 9, w + 5) | suc r ↦ (err (cause r), w + 5) ]
