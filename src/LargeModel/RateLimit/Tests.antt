-- ===== src/LargeModel/RateLimit/Tests.antt =====
-- The limiter at concrete inputs (largemodel/ratelimit.go).
use vagent.Common.{ℕ, ◌≤◌, ◌≡◌, refl, true, false, List, [], ◌∷◌, length, select, arith}
use vagent.LargeModel.RateLimit.{
  RateLimit, with_requests_per_min, new_rate_limit, allow_request, prune_timestamps,
}
use vagent.LargeModel.RateLimit.Window.{
  in_window, window_answers, answers, Tracks, answers-window_answers, granted, granted-le-limit,
}

abbrev two_a_minute : RateLimit
two_a_minute = record { requests_per_min = 2; tokens_per_min = 0; request_log = []; token_log = [] }

abbrev times : List ℕ
times = 1 ∷ 2 ∷ 3 ∷ 60_000_000_002 ∷ 60_000_000_003 ∷ []

new_two_a_minute : new_rate_limit (with_requests_per_min 2 ∷ []) ≡ two_a_minute
unfolding new_rate_limit
new_two_a_minute = refl

answers_run : answers two_a_minute times ≡ true ∷ true ∷ false ∷ true ∷ true ∷ []
unfolding answers allow_request
answers_run = refl

empty-Tracks : Tracks 2 0 [] two_a_minute
empty-Tracks = record {
  limited = refl;
  positive = omega arith;
  ordered = tt;
  past = tt;
  pruned = pruned_empty;
}
  where
    pruned_empty : two_a_minute.request_log ≡ prune_timestamps 0 []
    pruned_empty = unfold prune_timestamps in refl

answers-window_answers_example : answers two_a_minute times ≡ window_answers 2 [] times
answers-window_answers_example =
    answers-window_answers 2 0 [] times two_a_minute refl empty-Tracks (omega arith)

granted-le-limit_example :
    length (select (in_window 60_000_000_005) (granted times (answers two_a_minute times))) ≤ 2
granted-le-limit_example =
    granted-le-limit 2 60_000_000_005 times two_a_minute refl empty-Tracks (omega arith)
      (omega arith)

abbrev both_limits : RateLimit
both_limits = record {
  requests_per_min = 2;
  tokens_per_min = 50;
  request_log = 5 ∷ [];
  token_log = record { at = 5; tokens = 30 } ∷ [];
}
