-- ===== src/LargeModel/Retry/Tests.antt =====
-- Retries at concrete inputs (largemodel/retry.go).
use vagent.Common.{ℕ, ◌+◌, ◌≤◌, ◌≡◌, refl, false, none, some, ltb, if◌then◌else◌}
use vagent.LargeModel.Completer.{cause, Result, ok, err}
use vagent.LargeModel.Retry.{pos, negsuc, ErrorClass, double_delay, Retry, retried}
use vagent.LargeModel.Retry.Attempts.{Retries, Settles, retried-Settles}

-- API errors are their status.
abbrev by_status : ErrorClass ℕ
by_status = record { api_status = λ e. some e; is_net = λ e. false; is_eof = λ e. false }

delays_run : double_delay 3 30 4 ≡ 30
unfolding double_delay
delays_run = refl

-- The world counts the calls of a client that always fails with status 500.
abbrev down : ℕ → ℕ → Result ℕ ℕ × ℕ
down q w = (err (cause 500), w + 1)

abbrev patient : Retry ℕ
patient = record {
  max_retries = pos 2;
  base_delay = 1;
  max_delay = 8;
  backoff = some (λ attempt w. (attempt, w));
  sleep = λ d w. (false, w);
}

three_calls : (retried by_status patient down 0 0).1 ≡ 3
unfolding retried
three_calls = refl

-- Without attempts there is neither a response nor an error.
no_calls : retried by_status (record patient { max_retries = negsuc 0 }) down 0 4 ≡ (ok none, 4)
unfolding retried
no_calls = refl

-- The world counts the calls of a client that is overloaded twice, and the delays.
abbrev flaky : ℕ → ℕ × ℕ → Result ℕ ℕ × (ℕ × ℕ)
flaky q (calls, slept) = (if ltb calls 2 then err (cause 429) else ok q, (calls + 1, slept))

abbrev sleeper : Retry (ℕ × ℕ)
sleeper = record {
  max_retries = pos 3;
  base_delay = 1;
  max_delay = 8;
  backoff = some (λ attempt w. (attempt + 10, w));
  sleep = λ d w. (false, (w.0, w.1 + d));
}

two_sleeps : retried by_status sleeper flaky 7 (0, 0) ≡ (ok (some 7), (3, 21))
unfolding retried
two_sleeps = refl

retried-Settles_example :
    (k : ℕ) × (v : ℕ × ℕ) × (k ≤ 3)
    × Retries by_status sleeper (λ attempt w. (attempt + 10, w)) flaky 7 0 k (0, 0) v
    × Settles by_status sleeper
        (λ attempt w. (attempt + 10, w))
        flaky
        7
        3
        k
        v
        (retried by_status sleeper flaky 7 (0, 0))
retried-Settles_example =
    retried-Settles by_status sleeper (λ attempt w. (attempt + 10, w)) flaky 7 3 (0, 0) refl refl
