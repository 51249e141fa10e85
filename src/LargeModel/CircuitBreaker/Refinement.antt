-- ===== src/LargeModel/CircuitBreaker/Refinement.antt =====
-- The breaker against an abstract machine with three states and no flag
-- (largemodel/circuitbreaker.go).
use vagent.Common.{
  ℕ, suc, ◌+◌, ◌<◌, ◌≡◌, ◌⊎◌, refl, Bool, true, false, List, [], ◌∷◌, arith, leb, if◌then◌else◌,
}
use vagent.LargeModel.CircuitBreaker.{
  CircuitBreaker, closed, open_circuit, half_open, allow, record_result,
}

-- The probe flag is set exactly in the half-open state, and a closed circuit has not yet counted
-- up to its threshold.
pub record IsValid (m : CircuitBreaker) : Type 0 where
  pub probing : m.state ≡ half_open → m.probe_in_flight ≡ true
  pub idle_closed : m.state ≡ closed → m.probe_in_flight ≡ false
  pub idle_open : m.state ≡ open_circuit → m.probe_in_flight ≡ false
  pub below : m.state ≡ closed → (m.failure_count < m.failure_threshold) ⊎ (m.failure_count ≡ 0)

pub allow-IsValid : (now : ℕ) (m : CircuitBreaker) → IsValid m → IsValid (allow now m).0
unfolding allow
allow-IsValid now m v = ground arith

pub record_result-IsValid :
    (now : ℕ) (b : Bool) (m : CircuitBreaker) → IsValid m → IsValid (record_result now b m)
unfolding record_result
record_result-IsValid now b m v = ground arith

-- What happens to a breaker: a request asks to pass, or a result is recorded, in any order.
pub data Event : Type 0 where
  request : ℕ → Event
  result : ℕ → Bool → Event

-- The answers to the requests, with the final breaker.
unfoldable pub run : List Event → CircuitBreaker → CircuitBreaker × List Bool
run [] m = (m, [])
run (request now ∷ es) m =
    let (m', allowed) = allow now m in let (m'', answers) = run es m' in (m'', allowed ∷ answers)
run (result now b ∷ es) m = run es (record_result now b m)

pub run-IsValid : (es : List Event) (m : CircuitBreaker) → IsValid m → IsValid (run es m).0
unfolding run
run-IsValid [] m v = v
run-IsValid (request now ∷ es) m v = run-IsValid es (allow now m).0 (allow-IsValid now m v)
run-IsValid (result now b ∷ es) m v =
    run-IsValid es (record_result now b m) (record_result-IsValid now b m v)

-- The abstract machine.
pub data Phase : Type 0 where
  counting : ℕ → Phase
  tripped : ℕ → Phase
  probing : Phase

abbrev pub phase : CircuitBreaker → Phase
phase m = elim m.state [
  | closed ↦ counting m.failure_count
  | open_circuit ↦ tripped m.last_failure_at
  | half_open ↦ probing
]

module _ (threshold timeout : ℕ) where
  unfoldable pub ask : ℕ → Phase → Phase × Bool
  ask now (counting n) = (counting n, true)
  ask now (tripped t) = if leb (t + timeout) now then (probing, true) else (tripped t, false)
  ask now probing = (probing, false)

  unfoldable pub fail : ℕ → Phase → Phase
  fail now (counting n) = if leb threshold (suc n) then tripped now else counting (suc n)
  fail now (tripped t) = tripped t
  fail now probing = tripped now

  unfoldable pub run_phase : List Event → Phase → Phase × List Bool
  run_phase [] p = (p, [])
  run_phase (request now ∷ es) p =
      let (p', allowed) = ask now p in
      let (p'', answers) = run_phase es p' in (p'', allowed ∷ answers)
  run_phase (result now true ∷ es) p = run_phase es (fail now p)
  run_phase (result now false ∷ es) p = run_phase es (counting 0)

ask-allow :
    (now : ℕ) (m : CircuitBreaker)
    → IsValid m
    → ask m.failure_threshold m.reset_timeout now (phase m)
      ≡ (phase (allow now m).0, (allow now m).1)
unfolding allow ask
ask-allow now m v = ground arith

fail-record_result :
    (now : ℕ) (m : CircuitBreaker)
    → fail m.failure_threshold m.reset_timeout now (phase m) ≡ phase (record_result now true m)
unfolding record_result fail
fail-record_result now m = ground arith

pub phase-record_result_success :
    (now : ℕ) (m : CircuitBreaker) → phase (record_result now false m) ≡ counting 0
unfolding record_result
phase-record_result_success now m = refl

-- The settings never change.
allow_settings :
    (now : ℕ) (m : CircuitBreaker)
    → ((allow now m).0.failure_threshold ≡ m.failure_threshold)
      × ((allow now m).0.reset_timeout ≡ m.reset_timeout)
unfolding allow
allow_settings now m = ground arith

record_result_settings :
    (now : ℕ) (b : Bool) (m : CircuitBreaker)
    → ((record_result now b m).failure_threshold ≡ m.failure_threshold)
      × ((record_result now b m).reset_timeout ≡ m.reset_timeout)
unfolding record_result
record_result_settings now b m = ground arith

-- Whatever the order of requests and results, a valid breaker answers as the abstract machine with
-- its threshold and timeout does, and ends in the corresponding phase.
pub run-run_phase :
    (threshold timeout : ℕ) (es : List Event) (m : CircuitBreaker)
    → m.failure_threshold ≡ threshold
    → m.reset_timeout ≡ timeout
    → IsValid m
    → run_phase threshold timeout es (phase m) ≡ (phase (run es m).0, (run es m).1)
unfolding run run_phase
run-run_phase t d [] m ht hd v = refl
run-run_phase t d (request now ∷ es) m ht hd v = ground (
  arith,
  ask-allow now m v,
  run-run_phase t d es (allow now m).0 (cc (allow_settings now m).0) (cc (allow_settings now m).1)
      (allow-IsValid now m v),
)
run-run_phase t d (result now true ∷ es) m ht hd v = ground (
  arith,
  fail-record_result now m,
  run-run_phase t d es (record_result now true m) (cc (record_result_settings now true m).0)
      (cc (record_result_settings now true m).1) (record_result-IsValid now true m v),
)
run-run_phase t d (result now false ∷ es) m ht hd v = ground (
  arith,
  phase-record_result_success now m,
  run-run_phase t d es (record_result now false m) (cc (record_result_settings now false m).0)
      (cc (record_result_settings now false m).1) (record_result-IsValid now false m v),
)
