-- ===== src/LargeModel/Retry.antt =====
-- Retries with backoff (largemodel/retry.go). Delays are nanoseconds.
mod Backoff
mod Attempts
mod Tests
use vagent.Common.{
  ℕ, zero, suc, ◌+◌, ◌*◌, Bool, true, false, not, ◌||◌, List, [], ◌∷◌, Option, none, some, ltb, leb,
  ◌==◌, if◌then◌else◌,
}
use vagent.LargeModel.Completer.{
  Failure, circuit_open, rate_limited, cause, Result, ok, err, Completer,
}

abbrev pub default_max_retries : ℕ
default_max_retries = 3

abbrev pub default_base_delay : ℕ
default_base_delay = 1_000_000_000

abbrev pub default_max_delay : ℕ
default_max_delay = 30_000_000_000

-- A Go `int`: `negsuc n` is -(n + 1).
pub data ℤ : Type 0 where
  pos : ℕ → ℤ
  negsuc : ℕ → ℤ

-- The rounds of `for attempt := range maxRetries + 1`.
abbrev pub rounds : ℤ → ℕ
rounds (pos n) = n + 1
rounds (negsuc n) = 0

-- `attempt >= m.maxRetries`
abbrev pub is_last : ℤ → ℕ → Bool
is_last (pos n) attempt = leb n attempt
is_last (negsuc n) attempt = true

-- `retryableStatusCodes`
unfoldable pub retryable_status : ℕ → Bool
retryable_status code = code == 429 || code == 500 || code == 502 || code == 503

-- What `isRetryable` asks of a third-party error: the status of an API error in its chain, whether
-- a network error is in it, and whether it is one of the two EOF errors.
pub record ErrorClass (E : Type 0) : Type 0 where
  pub api_status : E → Option ℕ
  pub is_net : E → Bool
  pub is_eof : E → Bool

is_retryable_cause : {E : Type 0} → ErrorClass E → E → Bool
unfolding retryable_status
is_retryable_cause c e = elim (c.api_status e) [
  | some code ↦ retryable_status code
  | none ↦ c.is_net e || c.is_eof e
]

-- The errors of the other middleware are plain errors.
unfoldable pub is_retryable : {E : Type 0} → ErrorClass E → Failure E → Bool
unfolding is_retryable_cause
is_retryable c circuit_open = false
is_retryable c rate_limited = false
is_retryable c (cause e) = is_retryable_cause c e

-- The loop of `ExponentialBackoff.Delay` before the jitter; the first argument counts the rounds.
unfoldable pub double_delay : ℕ → ℕ → ℕ → ℕ
double_delay zero max_delay delay = delay
double_delay (suc n) max_delay delay =
    let rest = double_delay n max_delay (delay * 2) in
    if ltb max_delay (delay * 2) then max_delay else rest

-- `jitter` draws the random part for a delay; it is arithmetic on floats and `rand`.
unfoldable pub exponential_delay : {W : Type 0} → (ℕ → W → ℕ × W) → ℕ → ℕ → ℕ → W → ℕ × W
unfolding double_delay
exponential_delay jitter base_delay max_delay attempt w =
    let delay = double_delay attempt max_delay base_delay in
    let (extra, w') = jitter delay w in (delay + extra, w')

-- `RetryMiddleware`: `backoff` is the strategy, `sleep` says whether the sleep was interrupted.
pub record Retry (W : Type 0) : Type 0 where
  pub max_retries : ℤ
  pub base_delay : ℕ
  pub max_delay : ℕ
  pub backoff : Option (ℕ → W → ℕ × W)
  pub sleep : ℕ → W → Bool × W

abbrev pub Setting : Type 0 → Type 0
Setting W = Retry W → Retry W

abbrev pub with_max_retries : {W : Type 0} → ℤ → Setting W
with_max_retries n m = record m { max_retries = n }

abbrev pub with_base_delay : {W : Type 0} → ℕ → Setting W
with_base_delay d m = record m { base_delay = d }

abbrev pub with_max_delay : {W : Type 0} → ℕ → Setting W
with_max_delay d m = record m { max_delay = d }

abbrev pub with_backoff : {W : Type 0} → (ℕ → W → ℕ × W) → Setting W
with_backoff b m = record m { backoff = some b }

apply_settings : {W : Type 0} → List (Setting W) → Retry W → Retry W
apply_settings [] m = m
apply_settings (o ∷ os) m = apply_settings os (o m)

-- The strategy that is used: the given one, or the exponential one over the final settings.
unfoldable pub strategy : {W : Type 0} → (ℕ → W → ℕ × W) → Retry W → ℕ → W → ℕ × W
unfolding exponential_delay
strategy jitter m = elim m.backoff [
  | some b ↦ b
  | none ↦ exponential_delay jitter m.base_delay m.max_delay
]

unfoldable pub new_retry :
    {W : Type 0} → (ℕ → W → ℕ × W) → (ℕ → W → Bool × W) → List (Setting W) → Retry W
unfolding apply_settings strategy
new_retry jitter sleep settings =
    let m = apply_settings settings (record {
      max_retries = pos default_max_retries;
      base_delay = default_base_delay;
      max_delay = default_max_delay;
      backoff = none;
      sleep = sleep;
    }) in
    record m { backoff = some (strategy jitter m) }

-- The delay before the next attempt. `NewRetryMiddleware` always sets a strategy; without one the
-- Go call would panic, which no value of the constructor reaches.
unfoldable pub next_delay : {W : Type 0} → Retry W → ℕ → W → ℕ × W
next_delay m attempt w = elim m.backoff [ some b ↦ b attempt w | none ↦ (0, w) ]

-- What the loop returns when its rounds are over: `nil, lastErr`. Without an error that is a nil
-- response, `ok none`.
abbrev pub give_up : {E A : Type 0} → Option (Failure E) → Result E (Option A)
give_up none = ok none
give_up (some e) = err e

-- The loop that `Wrap` writes out for both calls: the rounds left, the attempt, the last error.
unfoldable pub attempts :
    {Q E A W : Type 0}
    → ErrorClass E
    → Retry W
    → (Q → W → Result E A × W)
    → ℕ
    → ℕ
    → Option (Failure E)
    → Q
    → W
    → Result E (Option A) × W
attempts class m next zero attempt last q w = (give_up last, w)
attempts class m next (suc left) attempt last q w =
    let (r, w₁) = next q w in
    elim r [
      | ok resp ↦ (ok (some resp), w₁)
      | err e ↦ elim (is_last m.max_retries attempt || not (is_retryable class e)) [
        | true ↦ (err e, w₁)
        | false ↦
            let (delay, w₂) = next_delay m attempt w₁ in
            let (interrupted, w₃) = m.sleep delay w₂ in
            elim interrupted [
              | true ↦ (err e, w₃)
              | false ↦ attempts class m next left (attempt + 1) (some e) q w₃
            ]
      ]
    ]

unfoldable pub retried :
    {Q E A W : Type 0}
    → ErrorClass E
    → Retry W
    → (Q → W → Result E A × W)
    → Q
    → W
    → Result E (Option A) × W
unfolding attempts next_delay is_retryable
retried class m next = attempts class m next (rounds m.max_retries) 0 none

unfoldable pub wrap :
    {Q R S E W : Type 0}
    → ErrorClass E
    → Retry W
    → Completer Q R S E W
    → Completer Q (Option R) (Option S) E W
unfolding retried
wrap class m next = record {
  chat = retried class m next.chat;
  stream = retried class m next.stream;
}
