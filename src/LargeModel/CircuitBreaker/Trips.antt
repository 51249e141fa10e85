-- ===== src/LargeModel/CircuitBreaker/Trips.antt =====
-- When the breaker opens, how many probes it lets through, and what a caller of `Wrap` sees
-- (largemodel/circuitbreaker.go).
use vagent.Common.{
  ℕ, zero, suc, ◌+◌, ◌≤◌, ◌<◌, ◌≡◌, ◌≢◌, refl, Bool, true, false, List, [], ◌∷◌, map, some, arith,
  length, get_elem?, if◌then◌else◌,
}
use vagent.LargeModel.Completer.{circuit_open, Result, err}
use vagent.LargeModel.CircuitBreaker.{
  CircuitBreaker, closed, open_circuit, half_open, allow, record_result, failed, guarded,
}
use vagent.LargeModel.CircuitBreaker.Refinement.{
  IsValid, Event, request, result, run, phase, counting, tripped,
}

abbrev pub failures : List ℕ → List Event
failures = map (λ now. result now true)

abbrev pub requests : List ℕ → List Event
requests = map request

abbrev pub admitted : List Bool → ℕ
admitted [] = 0
admitted (true ∷ bs) = suc (admitted bs)
admitted (false ∷ bs) = admitted bs

failure_below :
    (now : ℕ) (m : CircuitBreaker)
    → m.state ≡ closed
    → suc m.failure_count < m.failure_threshold
    → ((record_result now true m).state ≡ closed)
      × ((record_result now true m).failure_count ≡ suc m.failure_count)
      × ((record_result now true m).failure_threshold ≡ m.failure_threshold)
unfolding record_result
failure_below now m c h = ground arith

failure_at :
    (now : ℕ) (m : CircuitBreaker)
    → m.state ≡ closed
    → m.failure_threshold ≤ suc m.failure_count
    → ((record_result now true m).state ≡ open_circuit)
      × ((record_result now true m).last_failure_at ≡ now)
unfolding record_result
failure_at now m c h = ground arith

failure_open :
    (now : ℕ) (m : CircuitBreaker) → m.state ≡ open_circuit → record_result now true m ≡ m
unfolding record_result
failure_open now m o = ground arith

open-run-failures :
    (ts : List ℕ) (m : CircuitBreaker) → m.state ≡ open_circuit → (run (failures ts) m).0 ≡ m
unfolding run
open-run-failures [] m o = refl
open-run-failures (t ∷ ts) m o = ground (arith, failure_open t m o, open-run-failures ts m o)

-- Fewer consecutive failures than the threshold leave the circuit closed and are all counted.
failures_below :
    (ts : List ℕ) (m : CircuitBreaker)
    → m.state ≡ closed
    → m.failure_count + length ts < m.failure_threshold
    → ((run (failures ts) m).0.state ≡ closed)
      × ((run (failures ts) m).0.failure_count ≡ m.failure_count + length ts)
unfolding run
failures_below [] m c h = ground arith
failures_below (t ∷ ts) m c h =
    let (c', n', t') = failure_below t m c (omega arith) in
    ground (arith, failures_below ts (record_result t true m) c' (omega arith))

-- A closed circuit that is `d + 1` failures below its threshold opens at failure number `d`,
-- counted from 0, and further failures change neither that nor the time.
failures_trip :
    (d : ℕ) (ts : List ℕ) (m : CircuitBreaker)
    → m.state ≡ closed
    → m.failure_count + suc d ≡ m.failure_threshold
    → d < length ts
    → (t : ℕ) × (get_elem? ts d ≡ some t)
      × ((run (failures ts) m).0.state ≡ open_circuit)
      × ((run (failures ts) m).0.last_failure_at ≡ t)
unfolding run
failures_trip d [] m c e h = absurd (omega arith)
failures_trip zero (t ∷ ts) m c e h =
    let (o, l) = failure_at t m c (omega arith) in
    let same = open-run-failures ts (record_result t true m) o in (t, refl, rw same o, rw same l)
failures_trip (suc d) (t ∷ ts) m c e h =
    let (c', n', t') = failure_below t m c (omega arith) in
    failures_trip d ts (record_result t true m) c' (omega arith) (omega arith)

probing-admitted :
    (ts : List ℕ) (m : CircuitBreaker)
    → m.state ≡ half_open
    → m.probe_in_flight ≡ true
    → admitted (run (requests ts) m).1 ≡ 0
unfolding run allow
probing-admitted [] m s p = refl
probing-admitted (t ∷ ts) m s p = ground (arith, probing-admitted ts m s p)

-- Until a result is recorded, a valid breaker whose circuit is not closed lets at most one request
-- through, however many arrive and at whatever times.
pub admitted-le-one :
    (ts : List ℕ) (m : CircuitBreaker)
    → IsValid m
    → m.state ≢ closed
    → admitted (run (requests ts) m).1 ≤ 1
unfolding run allow
admitted-le-one [] m v c = omega arith
admitted-le-one (t ∷ ts) m v c = ground (
  arith,
  admitted-le-one ts m v c,
  probing-admitted ts m,
  probing-admitted ts (record m { state = half_open; probe_in_flight = true }) refl refl,
)

module _ {Q E A W : Type 0} (now : W → ℕ) (next : Q → W → Result E A × W) where
  -- An open circuit whose timeout has not elapsed answers with its error, without calling the
  -- client and without a change.
  guarded_open :
      (q : Q) (m : CircuitBreaker) (w : W)
      → m.state ≡ open_circuit
      → now w < m.last_failure_at + m.reset_timeout
      → guarded now next q (m, w) ≡ (err circuit_open, (m, w))
  unfolding guarded
  guarded_open q m w o h = ground arith

  -- Once the timeout of an open circuit has elapsed the client is called once, and its result
  -- closes the circuit with no failures counted or opens it again from the time of the failure.
  guarded_probe :
      (q : Q) (m : CircuitBreaker) (w : W)
      → m.state ≡ open_circuit
      → m.last_failure_at + m.reset_timeout ≤ now w
      → ((guarded now next q (m, w)).0 ≡ (next q w).0)
        × ((guarded now next q (m, w)).1.1 ≡ (next q w).1)
        × (phase (guarded now next q (m, w)).1.0
            ≡ (if failed (next q w).0 then tripped (now (next q w).1) else counting 0))
  unfolding guarded
  guarded_probe q m w o h = ground arith
