-- ===== src/Orchestrate/Backpressure.antt =====
-- The adaptive limit of concurrency (orchestrate/backpressure.go). Times and durations are ℕ; a
-- setting that Go takes as 0 or negative is 0. A waiter's channel is a number. `acquire` is split at
-- its select statement: `request` is the part before it, and `abandon` the branch of `ctx.Done()`.
pub mod Slots
mod Bounds
mod Tests
use vagent.Common.{
  ℕ, zero, suc, ◌+◌, ◌-◌, ◌*◌, ◌/◌, min, max, ltb, leb, Bool, true, false, List, [], ◌∷◌, ◌++◌,
  Option, none, some, length, if◌then◌else◌,
}

pub record BackpressureConfig : Type 0 where
  pub initial_concurrency : ℕ
  pub min_concurrency : ℕ
  pub max_concurrency : ℕ
  pub latency_threshold : ℕ
  pub adjust_interval : ℕ

pub record Controller : Type 0 where
  pub cfg : BackpressureConfig
  pub concurrency : ℕ
  pub active : ℕ
  pub waiters : List ℕ
  pub latencies : List ℕ
  pub last_adjust_time : ℕ

abbrev pub or_default : ℕ → ℕ → ℕ
or_default zero d = d
or_default (suc n) d = suc n

-- The defaults of `newBackpressureController`, in its order.
unfoldable pub with_defaults : BackpressureConfig → BackpressureConfig
with_defaults c =
    let initial₁ = or_default c.initial_concurrency 1 in
    let low = or_default c.min_concurrency 1 in
    let high = or_default c.max_concurrency (initial₁ * 4) in
    let initial₂ = if ltb initial₁ low then low else initial₁ in
    let initial₃ = if ltb high initial₂ then high else initial₂ in
    record {
      initial_concurrency = initial₃;
      min_concurrency = low;
      max_concurrency = high;
      latency_threshold = c.latency_threshold;
      adjust_interval = or_default c.adjust_interval 1000000000;
    }

unfoldable pub new_controller : ℕ → BackpressureConfig → Controller
unfolding with_defaults
new_controller now c =
    let cfg = with_defaults c in
    record {
      cfg = cfg;
      concurrency = cfg.initial_concurrency;
      active = 0;
      waiters = [];
      latencies = [];
      last_adjust_time = now;
    }

-- `acquire` up to its select: the new state, and whether the slot is granted at once.
unfoldable pub request : ℕ → Controller → Controller × Bool
request ch bp =
    if ltb bp.active bp.concurrency
    then (record bp { active = suc bp.active }, true)
    else (record bp { waiters = bp.waiters ++ ch ∷ [] }, false)

-- The first occurrence of a channel taken out.
abbrev pub remove_waiter : ℕ → List ℕ → List ℕ
remove_waiter ch [] = []
remove_waiter ch (w ∷ ws) =
    let rest = remove_waiter ch ws in
    if leb w ch then (if leb ch w then ws else w ∷ rest) else w ∷ rest

-- `acquire` after its context is done.
unfoldable pub abandon : ℕ → Controller → Controller
abandon ch bp = record bp { waiters = remove_waiter ch bp.waiters }

abbrev pub total : List ℕ → ℕ
total [] = 0
total (l ∷ ls) = l + total ls

unfoldable pub maybe_adjust : ℕ → Controller → Controller
maybe_adjust now bp =
    if ltb (now - bp.last_adjust_time) bp.cfg.adjust_interval then bp else (elim (bp.latencies) [
      | [] ↦ bp
      | l ∷ ls ↦
          let avg = total (l ∷ ls) / length (l ∷ ls) in
          record bp {
            latencies = [];
            last_adjust_time = now;
            concurrency =
                if ltb bp.cfg.latency_threshold avg
                then max (bp.concurrency / 2) bp.cfg.min_concurrency
                else min (bp.concurrency + 1) bp.cfg.max_concurrency;
          }
    ])

-- The wake-up of `release`: the new state and the channel that receives.
unfoldable pub hand_over : Controller → Controller × Option ℕ
hand_over bp = elim (bp.waiters) [
  | [] ↦ (record bp { active = bp.active - 1 }, none)
  | w ∷ ws ↦
      if leb bp.active bp.concurrency
      then (record bp { waiters = ws }, some w)
      else (if ltb (bp.active - 1) bp.concurrency
          then (record bp { waiters = ws; active = suc (bp.active - 1) }, some w)
          else (record bp { active = bp.active - 1 }, none))
]

unfoldable pub release : ℕ → ℕ → Controller → Controller × Option ℕ
unfolding hand_over maybe_adjust
release now latency bp =
    hand_over (maybe_adjust now (record bp { latencies = bp.latencies ++ latency ∷ [] }))
