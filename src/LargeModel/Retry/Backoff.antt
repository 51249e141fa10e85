-- ===== src/LargeModel/Retry/Backoff.antt =====
-- The exponential delays (largemodel/retry.go, `ExponentialBackoff.Delay`).
use native.Mathlib.Nat.{pow-suc}
use vagent.Common.{ℕ, zero, suc, ◌*◌, ◌^◌, ◌≤◌, ◌≡◌, arith, min, ltb, Bool-cases, inl, inr}
use vagent.LargeModel.Retry.{double_delay}

le-mul-pow : (d n : ℕ) → d ≤ d * 2 ^ n
le-mul-pow d zero = omega arith
le-mul-pow d (suc n) = rw (pow-suc 2 n) (omega (arith, le-mul-pow d n))

-- From a base within the maximum, the delay before the jitter is the base doubled once for each
-- attempt, cut at the maximum.
double_delay-min :
    (n max_delay base : ℕ)
    → base ≤ max_delay
    → double_delay n max_delay base ≡ min (base * 2 ^ n) max_delay
unfolding double_delay
double_delay-min zero max_delay base h = omega arith
double_delay-min (suc n) max_delay base h = elim (Bool-cases (ltb max_delay (base * 2))) [
  | inl over ↦ rw (over, pow-suc 2 n) (ground (arith, le-mul-pow (base * 2) n))
  | inr under ↦
      rw (under, pow-suc 2 n)
        (omega (arith, double_delay-min n max_delay (base * 2) (ground arith)))
]
