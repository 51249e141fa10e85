-- ===== src/LargeModel/CircuitBreaker.antt =====
-- The circuit breaker (largemodel/circuitbreaker.go). A method that changes `*CircuitBreakerMiddleware`
-- returns the new record; `m.nowFn()` is the argument `now`, in nanoseconds. A threshold or timeout
-- is a number: a negative one passes the same tests as 0.
mod Refinement
mod Trips
mod Tests
use vagent.Common.{ℕ, ◌+◌, Bool, true, false, List, [], ◌∷◌, Option, none, some, leb, if◌then◌else◌}
use vagent.LargeModel.Completer.{Failure, circuit_open, Result, ok, err, Completer}

pub data CircuitState : Type 0 where
  closed open_circuit half_open : CircuitState

pub record CircuitBreaker : Type 0 where
  pub state : CircuitState
  pub failure_count : ℕ
  pub failure_threshold : ℕ
  pub reset_timeout : ℕ
  pub last_failure_at : ℕ
  pub probe_in_flight : Bool

abbrev pub default_failure_threshold : ℕ
default_failure_threshold = 5

abbrev pub default_reset_timeout : ℕ
default_reset_timeout = 30_000_000_000

abbrev pub Setting : Type 0
Setting = CircuitBreaker → CircuitBreaker

abbrev pub with_failure_threshold : ℕ → Setting
with_failure_threshold n m = record m { failure_threshold = n }

abbrev pub with_reset_timeout : ℕ → Setting
with_reset_timeout d m = record m { reset_timeout = d }

apply_settings : List Setting → CircuitBreaker → CircuitBreaker
apply_settings [] m = m
apply_settings (o ∷ os) m = apply_settings os (o m)

unfoldable pub new_circuit_breaker : List Setting → CircuitBreaker
unfolding apply_settings
new_circuit_breaker settings = apply_settings settings (record {
  state = closed;
  failure_count = 0;
  failure_threshold = default_failure_threshold;
  reset_timeout = default_reset_timeout;
  last_failure_at = 0;
  probe_in_flight = false;
})

-- `now.Sub(lastFailureAt) >= resetTimeout`
abbrev elapsed : ℕ → CircuitBreaker → Bool
elapsed now m = leb (m.last_failure_at + m.reset_timeout) now

allow_in : CircuitState → ℕ → CircuitBreaker → CircuitBreaker × Bool
allow_in closed now m = (m, true)
allow_in half_open now m =
    if m.probe_in_flight then (m, false) else (record m { probe_in_flight = true }, true)
allow_in open_circuit now m =
    if elapsed now m
    then (record m { state = half_open; probe_in_flight = true }, true)
    else (m, false)

-- `allow`; `false` stands for `ErrCircuitOpen`.
unfoldable pub allow : ℕ → CircuitBreaker → CircuitBreaker × Bool
unfolding allow_in
allow now m = allow_in m.state now m

record_failure : CircuitState → ℕ → CircuitBreaker → CircuitBreaker
record_failure closed now m =
    let counted = record m { failure_count = m.failure_count + 1 } in
    if leb m.failure_threshold counted.failure_count
    then record counted { state = open_circuit; last_failure_at = now }
    else counted
record_failure half_open now m = record m {
  state = open_circuit;
  last_failure_at = now;
  probe_in_flight = false;
}
record_failure open_circuit now m = m

-- `recordResult`; `failed` says whether the error is not nil.
unfoldable pub record_result : ℕ → Bool → CircuitBreaker → CircuitBreaker
unfolding record_failure
record_result now true m = record_failure m.state now m
record_result now false m = record m { state = closed; failure_count = 0; probe_in_flight = false }

abbrev pub failed : {E R : Type 0} → Result E R → Bool
failed (ok r) = false
failed (err e) = true

-- The body that `Wrap` gives to both calls: the gate, the call, the recorded result.
unfoldable pub guarded :
    {Q E A W : Type 0}
    → (W → ℕ)
    → (Q → W → Result E A × W)
    → Q
    → CircuitBreaker × W
    → Result E A × (CircuitBreaker × W)
unfolding allow record_result
guarded now next q (m, w) =
    let (m', allowed) = allow (now w) m in
    if allowed
    then (let (r, w') = next q w in (r, (record_result (now w') (failed r) m', w')))
    else (err circuit_open, (m', w))

unfoldable pub wrap :
    {Q R S E W : Type 0} → (W → ℕ) → Completer Q R S E W → Completer Q R S E (CircuitBreaker × W)
unfolding guarded
wrap now next = record { chat = guarded now next.chat; stream = guarded now next.stream }
