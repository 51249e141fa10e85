-- ===== src/Orchestrate/Backpressure/Bounds.antt =====
-- The limit of concurrency stays within its bounds (orchestrate/backpressure.go).
use vagent.Common.{
  List-cases, ℕ, zero, suc, ◌*◌, ◌≤◌, ◌<◌, ◌≡◌, ◌⊎◌, inl, inr, refl, [], ◌∷◌, ◌++◌, arith,
}
use vagent.Orchestrate.Backpressure.{
  BackpressureConfig, Controller, or_default, with_defaults, new_controller, request, abandon,
  maybe_adjust, hand_over, release,
}

or_default-cases : (n d : ℕ) → ((n ≡ 0) × (or_default n d ≡ d)) ⊎ ((0 < n) × (or_default n d ≡ n))
or_default-cases zero d = inl (refl, refl)
or_default-cases (suc n) d = inr (omega arith, refl)

-- A configuration in order: its minimum is not zero and not above its maximum.
abbrev pub IsOrdered : BackpressureConfig → Type 0
IsOrdered cfg = (0 < cfg.min_concurrency) × (cfg.min_concurrency ≤ cfg.max_concurrency)

-- The limit and the slots in use.
abbrev pub IsBounded : Controller → Type 0
IsBounded bp =
    (bp.cfg.min_concurrency ≤ bp.concurrency)
    × (bp.concurrency ≤ bp.cfg.max_concurrency)
    × (bp.active ≤ bp.cfg.max_concurrency)

-- The events a controller serves: a request, an abandoned request, and a release.
pub data Step : Controller → Controller → Type 0 where
  requests : {bp : Controller} (ch : ℕ) → Step bp (request ch bp).0
  abandons : {bp : Controller} (ch : ℕ) → Step bp (abandon ch bp)
  releases : {bp : Controller} (now latency : ℕ) → Step bp (release now latency bp).0

pub data Steps : Controller → Controller → Type 0 where
  here : {bp : Controller} → Steps bp bp
  later : {b₀ b₁ b₂ : Controller} → Steps b₀ b₁ → Step b₁ b₂ → Steps b₀ b₂

maybe_adjust-cfg : (now : ℕ) (bp : Controller) → (maybe_adjust now bp).cfg ≡ bp.cfg
unfolding maybe_adjust
maybe_adjust-cfg now bp = elim (List-cases bp.latencies) [
  | inl e ↦ ground (arith, e)
  | inr (l, ls, e) ↦ ground (arith, e)
]

maybe_adjust-bounds :
    (now : ℕ) (bp : Controller) → IsOrdered bp.cfg → IsBounded bp → IsBounded (maybe_adjust now bp)
unfolding maybe_adjust
maybe_adjust-bounds now bp o h = elim (List-cases bp.latencies) [
  | inl e ↦ ground (arith, e)
  | inr (l, ls, e) ↦ ground (arith, e)
]

hand_over-bounds : (bp : Controller) → IsBounded bp → IsBounded (hand_over bp).0
unfolding hand_over
hand_over-bounds bp h = elim (List-cases bp.waiters) [
  | inl e ↦ ground (arith, e)
  | inr (w, ws, e) ↦ ground (arith, e)
]

hand_over-cfg : (bp : Controller) → (hand_over bp).0.cfg ≡ bp.cfg
unfolding hand_over
hand_over-cfg bp = elim (List-cases bp.waiters) [
  | inl e ↦ ground (arith, e)
  | inr (w, ws, e) ↦ ground (arith, e)
]

Step-bounds :
    {b₀ b₁ : Controller}
    → Step b₀ b₁
    → IsOrdered b₀.cfg
    → IsBounded b₀
    → IsOrdered b₁.cfg × IsBounded b₁
unfolding request abandon release
Step-bounds (requests ch) o h = ground arith
Step-bounds (abandons ch) o h = (o, h)
Step-bounds {b₀} (releases now latency) o h =
    let b = record b₀ { latencies = b₀.latencies ++ latency ∷ [] } in
    let same = maybe_adjust-cfg now b in
    let o' : IsOrdered (maybe_adjust now b).cfg = rw same o in
    let same' = hand_over-cfg (maybe_adjust now b) in
    (rw same' o', hand_over-bounds (maybe_adjust now b) (maybe_adjust-bounds now b o h))

new_controller-bounds :
    (now : ℕ) (c : BackpressureConfig)
    → c.min_concurrency ≤ c.max_concurrency
    → IsOrdered (new_controller now c).cfg × IsBounded (new_controller now c)
unfolding new_controller with_defaults
new_controller-bounds now c h = ground (
  arith,
  or_default-cases c.initial_concurrency 1,
  or_default-cases c.min_concurrency 1,
  or_default-cases c.max_concurrency (or_default c.initial_concurrency 1 * 4),
)

Steps-keep :
    {b₀ b₁ : Controller}
    → Steps b₀ b₁
    → IsOrdered b₀.cfg
    → IsBounded b₀
    → IsOrdered b₁.cfg × IsBounded b₁
Steps-keep here o h = (o, h)
Steps-keep (later steps step) o h = let ih = Steps-keep steps o h in Step-bounds step ih.0 ih.1

-- When the configured minimum is not above the maximum, then, whatever requests, abandoned
-- requests and releases a controller serves, its limit stays between the minimum and the maximum
-- of its configuration after the defaults, the minimum is positive, and no more slots than the
-- maximum are in use.
pub Steps-bounds :
    (now : ℕ) (c : BackpressureConfig) {bp : Controller}
    → c.min_concurrency ≤ c.max_concurrency
    → Steps (new_controller now c) bp
    → IsOrdered bp.cfg × IsBounded bp
Steps-bounds now c h steps =
    let start = new_controller-bounds now c h in Steps-keep steps start.0 start.1
