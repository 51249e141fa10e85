-- ===== src/LargeModel/RateLimit/Window.antt =====
-- What the sliding window guarantees (largemodel/ratelimit.go).
use mathlib.Core.List.{append-nil, append_assoc}
use vagent.Common.{
  ℕ, suc, ◌≤◌, ◌<◌, ◌≡◌, refl, Bool, true, false, List, [], ◌∷◌, ◌++◌, arith, ltb, length,
  length-append, if◌then◌else◌, select, not, Bool-cases, inl, inr,
}
use vagent.LargeModel.RateLimit.{
  RateLimit, before_window, total_tokens, prune_timestamps, allow_request,
}

-- The timestamps rise, and none is later than `now`.
abbrev pub IsLog : ℕ → List ℕ → Type 0
IsLog lo [] = Unit
IsLog lo (at ∷ log) = (lo ≤ at) × IsLog at log

abbrev pub IsUpTo : ℕ → List ℕ → Type 0
IsUpTo now [] = Unit
IsUpTo now (at ∷ log) = (at ≤ now) × IsUpTo now log

abbrev pub in_window : ℕ → ℕ → Bool
in_window now at = not (before_window now at)

select_all :
    (now lo : ℕ) (log : List ℕ)
    → IsLog lo log
    → before_window now lo ≡ false
    → select (in_window now) log ≡ log
select_all now lo [] h b = refl
select_all now lo (at ∷ log) h b = ground (arith, select_all now at log h.1)

-- Stopping at the first entry in the window finds all of the window, since the log is in order.
pub prune_timestamps-select :
    (now lo : ℕ) (log : List ℕ)
    → IsLog lo log
    → prune_timestamps now log ≡ select (in_window now) log
unfolding prune_timestamps
prune_timestamps-select now lo [] h = refl
prune_timestamps-select now lo (at ∷ log) h =
    ground (arith, prune_timestamps-select now at log h.1, select_all now at log h.1)

prune-prune :
    (earlier now : ℕ) (log : List ℕ)
    → earlier ≤ now
    → prune_timestamps now (prune_timestamps earlier log) ≡ prune_timestamps now log
unfolding prune_timestamps
prune-prune earlier now [] h = refl
prune-prune earlier now (at ∷ log) h = ground (arith, prune-prune earlier now log h)

prune-append :
    (now : ℕ) (log : List ℕ)
    → prune_timestamps now (log ++ now ∷ []) ≡ prune_timestamps now log ++ now ∷ []
unfolding prune_timestamps
prune-append now [] = ground arith
prune-append now (at ∷ log) = ground (arith, prune-append now log)

-- The limit without pruning: a request passes if fewer than `limit` requests passed in the minute
-- before it. `history` holds the times of all that passed.
pub passes : ℕ → List ℕ → ℕ → Bool
passes limit history now = ltb (length (select (in_window now) history)) limit

unfoldable pub window_answers : ℕ → List ℕ → List ℕ → List Bool
window_answers limit history [] = []
window_answers limit history (now ∷ times) =
    let pass = passes limit history now in
    pass ∷ window_answers limit (if pass then history ++ now ∷ [] else history) times

-- The answers of the limiter to a sequence of requests.
unfoldable pub answers : RateLimit → List ℕ → List Bool
answers m [] = []
answers m (now ∷ times) = let (m', allowed) = allow_request now m in allowed ∷ answers m' times

IsLog-append :
    (lo now : ℕ) (log : List ℕ)
    → IsLog lo log
    → IsUpTo now log
    → lo ≤ now
    → IsLog lo (log ++ now ∷ [])
IsLog-append lo now [] h u l = omega arith
IsLog-append lo now (at ∷ log) h u l = (h.0, IsLog-append at now log h.1 u.1 u.0)

IsUpTo-append :
    (last now : ℕ) (log : List ℕ) → IsUpTo last log → last ≤ now → IsUpTo now (log ++ now ∷ [])
IsUpTo-append last now [] u l = omega arith
IsUpTo-append last now (at ∷ log) u l = (omega arith, IsUpTo-append last now log u.1 l)

IsUpTo-weaken : (last now : ℕ) (log : List ℕ) → IsUpTo last log → last ≤ now → IsUpTo now log
IsUpTo-weaken last now [] u l = tt
IsUpTo-weaken last now (at ∷ log) u l = (omega arith, IsUpTo-weaken last now log u.1 l)

-- What ties the limiter's log, pruned at `last`, to the full history.
pub record Tracks (limit last : ℕ) (history : List ℕ) (m : RateLimit) : Type 0 where
  pub limited : m.requests_per_min ≡ limit
  pub positive : 0 < limit
  pub ordered : IsLog 0 history
  pub past : IsUpTo last history
  pub pruned : m.request_log ≡ prune_timestamps last history

step_answer :
    (limit last : ℕ) (history : List ℕ) (m : RateLimit) (now : ℕ)
    → m.tokens_per_min ≡ 0
    → Tracks limit last history m
    → last ≤ now
    → (allow_request now m).1 ≡ passes limit history now
unfolding allow_request passes
step_answer limit last history m now free t l =
    ground (arith, prune-prune last now history l, prune_timestamps-select now 0 history t.ordered)

step-Tracks :
    (limit last : ℕ) (history : List ℕ) (m : RateLimit) (now : ℕ)
    → m.tokens_per_min ≡ 0
    → Tracks limit last history m
    → last ≤ now
    → ((allow_request now m).0.tokens_per_min ≡ 0)
      × Tracks limit now
          (if passes limit history now then history ++ now ∷ [] else history)
          (allow_request now m).0
unfolding allow_request passes
step-Tracks limit last history m now free t l = ground (
  arith,
  prune-prune last now history l,
  prune-append now history,
  prune_timestamps-select now 0 history t.ordered,
  IsLog-append 0 now history t.ordered (IsUpTo-weaken last now history t.past l) (omega arith),
  IsUpTo-append last now history t.past l,
  IsUpTo-weaken last now history t.past l,
)

-- For requests in the order of time, on a limiter that has no limit of tokens and that tracks a
-- history, pruning loses nothing: the limiter answers as the limit over the full history does.
pub answers-window_answers :
    (limit last : ℕ) (history times : List ℕ) (m : RateLimit)
    → m.tokens_per_min ≡ 0
    → Tracks limit last history m
    → IsLog last times
    → answers m times ≡ window_answers limit history times
unfolding answers window_answers
answers-window_answers limit last history [] m free t h = refl
answers-window_answers limit last history (now ∷ times) m free t h =
    let (free', t') = step-Tracks limit last history m now free t h.0 in
    ground (
      arith,
      step_answer limit last history m now free t h.0,
      answers-window_answers limit now
          (if passes limit history now then history ++ now ∷ [] else history) times
          (allow_request now m).0 free' t' h.1,
    )

-- The times of the requests that passed.
abbrev pub granted : List ℕ → List Bool → List ℕ
granted [] bs = []
granted (t ∷ ts) [] = []
granted (t ∷ ts) (b ∷ bs) = let rest = granted ts bs in if b then t ∷ rest else rest

select_later :
    (now later : ℕ) (log : List ℕ)
    → now ≤ later
    → length (select (in_window later) log) ≤ length (select (in_window now) log)
select_later now later [] h = omega arith
select_later now later (at ∷ log) h = ground (arith, select_later now later log h)

select-append_one :
    (now t : ℕ) (log : List ℕ)
    → length (select (in_window now) (log ++ t ∷ [])) ≤ suc (length (select (in_window now) log))
select-append_one now t [] = ground arith
select-append_one now t (at ∷ log) = ground (arith, select-append_one now t log)

window_answers_bound :
    (limit last now : ℕ) (history times : List ℕ)
    → ((later : ℕ) → last ≤ later → length (select (in_window later) history) ≤ limit)
    → IsLog last times
    → IsUpTo now times
    → last ≤ now
    → length
        (select (in_window now) (history ++ granted times (window_answers limit history times)))
      ≤ limit
unfolding window_answers passes
window_answers_bound limit last now history [] h o u l = rw (append-nil history) (h now l)
window_answers_bound limit last now history (t ∷ times) h o u l =
    elim (Bool-cases (passes limit history t)) [
      | inl pass ↦
          let ih =
            window_answers_bound limit t now (history ++ t ∷ []) times
              (λ later g.
                ground
                  (arith, pass, select-append_one later t history, select_later t later history))
              o.1 u.1 u.0 in
          rw (pass, window_answers) (rw (append_assoc history (t ∷ [])) at ih)
      | inr stop ↦
          rw (stop, window_answers)
            (window_answers_bound limit t now history times (λ later g. h later (omega arith)) o.1
              u.1 u.0)
    ]

-- On a limiter without a limit of tokens that starts with an empty log, for requests in the order of time and none after
-- `now`, at most `limit` of those that passed lie in the minute before `now`.
pub granted-le-limit :
    (limit now : ℕ) (times : List ℕ) (m : RateLimit)
    → m.tokens_per_min ≡ 0
    → Tracks limit 0 [] m
    → IsLog 0 times
    → IsUpTo now times
    → length (select (in_window now) (granted times (answers m times))) ≤ limit
granted-le-limit limit now times m free t o u =
    rw (answers-window_answers limit 0 [] times m free t o)
      (window_answers_bound limit 0 now [] times (λ later g. omega arith) o u (omega arith))

-- With both limits set, the logs are within them after a request has passed.
allow_request_bounds :
    (now : ℕ) (m : RateLimit)
    → (allow_request now m).1 ≡ true
    → 0 < m.requests_per_min
    → 0 < m.tokens_per_min
    → (length (allow_request now m).0.request_log ≤ m.requests_per_min)
      × (total_tokens (allow_request now m).0.token_log < m.tokens_per_min)
unfolding allow_request
allow_request_bounds now m h p q =
    (ground (arith, length-append (prune_timestamps now m.request_log) (now ∷ [])), ground arith)
