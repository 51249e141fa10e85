-- ===== src/Orchestrate/Backpressure/Tests.antt =====
-- The concurrency limit at concrete inputs (orchestrate/backpressure.go).
use vagent.Common.{suc, ◌+◌, ◌<◌, ◌≡◌, ◌≢◌, ◌⊎◌, refl, [], ◌∷◌, none, arith}
use vagent.Orchestrate.Backpressure.{
  BackpressureConfig, Controller, new_controller, request, release,
}
use vagent.Orchestrate.Backpressure.Bounds.{
  IsOrdered, IsBounded, requests, releases, here, later, Steps-bounds,
}
use vagent.Orchestrate.Backpressure.Slots.{passed_on, put_back, release-slots}

abbrev config : BackpressureConfig
config = record {
  initial_concurrency = 2;
  min_concurrency = 1;
  max_concurrency = 4;
  latency_threshold = 100;
  adjust_interval = 10;
}

-- Two slots in use and two channels waiting.
abbrev busy : Controller
busy = record {
  cfg = config;
  concurrency = 2;
  active = 2;
  waiters = 7 ∷ 8 ∷ [];
  latencies = [];
  last_adjust_time = 0;
}

slows_down : (release 50 500 busy).0.concurrency ≡ 1
unfolding release
slows_down = refl

speeds_up : (release 50 10 busy).0.concurrency ≡ 3
unfolding release
speeds_up = refl

release-slots_example :
    let (bp, woken) = release 50 10 busy in
    (suc bp.active ≡ 2 + passed_on woken)
    × (put_back woken bp.waiters ≡ 7 ∷ 8 ∷ [])
    × ((woken ≢ none) ⊎ (bp.waiters ≡ []) ⊎ (bp.concurrency < 2))
release-slots_example = release-slots 50 10 busy (omega arith)

abbrev after_two : Controller
after_two = (release 50 500 (request 7 (new_controller 0 config)).0).0

Steps-bounds_example : IsOrdered after_two.cfg × IsBounded after_two
Steps-bounds_example =
    Steps-bounds 0 config {bp = after_two} (omega arith)
      (later (later here (requests 7)) (releases 50 500))
