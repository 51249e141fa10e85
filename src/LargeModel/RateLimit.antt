-- ===== src/LargeModel/RateLimit.antt =====
-- The sliding-window rate limiter (largemodel/ratelimit.go). A method returns the new record;
-- `m.nowFn()` is the argument `now`, in nanoseconds since the zero time. A limit is a number: a
-- negative one passes the same tests as 0.
mod Window
mod Tests
use vagent.Common.{
  ℕ, ◌+◌, ◌-◌, Bool, true, false, List, [], ◌∷◌, ◌++◌, ◌&&◌, ◌||◌, ltb, leb, ◌==◌, length,
  if◌then◌else◌,
}
use vagent.LargeModel.Completer.{rate_limited, Result, ok, err, Completer}

pub record TokenEntry : Type 0 where
  pub at : ℕ
  pub tokens : ℕ

pub record RateLimit : Type 0 where
  pub requests_per_min : ℕ
  pub tokens_per_min : ℕ
  pub request_log : List ℕ
  pub token_log : List TokenEntry

abbrev pub Setting : Type 0
Setting = RateLimit → RateLimit

abbrev pub with_requests_per_min : ℕ → Setting
with_requests_per_min n m = record m { requests_per_min = n }

abbrev pub with_tokens_per_min : ℕ → Setting
with_tokens_per_min n m = record m { tokens_per_min = n }

apply_settings : List Setting → RateLimit → RateLimit
apply_settings [] m = m
apply_settings (o ∷ os) m = apply_settings os (o m)

unfoldable pub new_rate_limit : List Setting → RateLimit
unfolding apply_settings
new_rate_limit settings =
    apply_settings settings
      (record { requests_per_min = 0; tokens_per_min = 0; request_log = []; token_log = [] })

abbrev pub minute : ℕ
minute = 60_000_000_000

-- `at.Before(now.Add(-time.Minute))`, with the minute on the other side.
abbrev pub before_window : ℕ → ℕ → Bool
before_window now at = ltb (at + minute) now

-- The loop stops at the first entry in the window.
unfoldable pub prune_timestamps : ℕ → List ℕ → List ℕ
prune_timestamps now [] = []
prune_timestamps now (at ∷ log) =
    if before_window now at then prune_timestamps now log else at ∷ log

unfoldable pub prune_token_entries : ℕ → List TokenEntry → List TokenEntry
prune_token_entries now [] = []
prune_token_entries now (e ∷ log) =
    if before_window now e.at then prune_token_entries now log else e ∷ log

abbrev pub total_tokens : List TokenEntry → ℕ
total_tokens [] = 0
total_tokens (e ∷ log) = e.tokens + total_tokens log

-- The first half of `allowRequest`: the request log.
unfoldable pub allow_by_requests : ℕ → RateLimit → RateLimit × Bool
unfolding prune_timestamps
allow_by_requests now m =
    if ltb 0 m.requests_per_min
    then (let log = prune_timestamps now m.request_log in
        if leb m.requests_per_min (length log)
        then (record m { request_log = log }, false)
        else (record m { request_log = log ++ now ∷ [] }, true))
    else (m, true)

-- The second half: the token log.
unfoldable pub allow_by_tokens : ℕ → RateLimit → RateLimit × Bool
unfolding prune_token_entries
allow_by_tokens now m =
    if ltb 0 m.tokens_per_min
    then (let log = prune_token_entries now m.token_log in
        (record m { token_log = log }, ltb (total_tokens log) m.tokens_per_min))
    else (m, true)

-- `allowRequest`; `false` stands for `ErrRateLimited`.
unfoldable pub allow_request : ℕ → RateLimit → RateLimit × Bool
unfolding allow_by_requests allow_by_tokens
allow_request now m =
    let (m', allowed) = allow_by_requests now m in
    if allowed then allow_by_tokens now m' else (m', false)

unfoldable pub record_tokens : ℕ → ℕ → RateLimit → RateLimit
record_tokens now tokens m =
    if m.tokens_per_min == 0 || tokens == 0
    then m
    else record m { token_log = m.token_log ++ record { at = now; tokens = tokens } ∷ [] }

-- The chat call of `Wrap`; `usage` reads `resp.Usage.TotalTokens`.
unfoldable pub limited_chat :
    {Q E R W : Type 0}
    → (W → ℕ)
    → (R → ℕ)
    → (Q → W → Result E R × W)
    → Q
    → RateLimit × W
    → Result E R × (RateLimit × W)
unfolding allow_request record_tokens
limited_chat now usage next q (m, w) =
    let (m', allowed) = allow_request (now w) m in
    if allowed
    then (let (r, w') = next q w in
        elim r [
          | ok resp ↦ (ok resp, (record_tokens (now w') (usage resp) m', w'))
          | err e ↦ (err e, (m', w'))
        ])
    else (err rate_limited, (m', w))

-- The stream call: no tokens are recorded.
unfoldable pub limited_stream :
    {Q E S W : Type 0}
    → (W → ℕ)
    → (Q → W → Result E S × W)
    → Q
    → RateLimit × W
    → Result E S × (RateLimit × W)
unfolding allow_request
limited_stream now next q (m, w) =
    let (m', allowed) = allow_request (now w) m in
    if allowed then (let (r, w') = next q w in (r, (m', w'))) else (err rate_limited, (m', w))

unfoldable pub wrap :
    {Q R S E W : Type 0}
    → (W → ℕ)
    → (R → ℕ)
    → Completer Q R S E W
    → Completer Q R S E (RateLimit × W)
unfolding limited_chat limited_stream
wrap now usage next = record {
  chat = limited_chat now usage next.chat;
  stream = limited_stream now next.stream;
}
