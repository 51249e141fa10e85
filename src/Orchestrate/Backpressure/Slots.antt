-- ===== src/Orchestrate/Backpressure/Slots.antt =====
-- Slots are handed on, not lost (orchestrate/backpressure.go, `release`).
use vagent.Common.{
  List-cases, ◌≢◌, ◌∙◌, ℕ, suc, ◌+◌, ◌<◌, ◌≡◌, ◌⊎◌, inl, inr, List, [], ◌∷◌, ◌++◌, Option, none,
  some, arith,
}
use vagent.Orchestrate.Backpressure.{Controller, maybe_adjust, hand_over, release}

-- The slots that a hand-over passes on.
abbrev pub passed_on : Option ℕ → ℕ
passed_on none = 0
passed_on (some w) = 1

-- The queue with the channel that is woken put back in front.
abbrev pub put_back : Option ℕ → List ℕ → List ℕ
put_back none ws = ws
put_back (some w) ws = w ∷ ws

maybe_adjust-slots :
    (now : ℕ) (bp : Controller)
    → ((maybe_adjust now bp).active ≡ bp.active) × ((maybe_adjust now bp).waiters ≡ bp.waiters)
unfolding maybe_adjust
maybe_adjust-slots now bp = elim (List-cases bp.latencies) [
  | inl e ↦ ground (arith, e)
  | inr (l, ls, e) ↦ ground (arith, e)
]

hand_over-slots :
    (bp : Controller)
    → 0 < bp.active
    → let (bp', woken) = hand_over bp in
      (suc bp'.active ≡ bp.active + passed_on woken)
      × (put_back woken bp'.waiters ≡ bp.waiters)
      × ((woken ≢ none) ⊎ (bp'.waiters ≡ []) ⊎ (bp'.concurrency < bp.active))
unfolding hand_over
hand_over-slots bp h = elim (List-cases bp.waiters) [
  | inl e ↦ (ground (arith, e), ground (arith, e), inr (inl (ground (arith, e))))
  | inr (w, ws, e) ↦ ground (arith, e)
]

-- A release, with a slot in use, gives its slot up or passes it on, and then to the waiter that
-- came first. When it wakes nobody, nobody waits or the limit has fallen below the slots that were
-- in use.
pub release-slots :
    (now latency : ℕ) (bp : Controller)
    → 0 < bp.active
    → let (bp', woken) = release now latency bp in
      (suc bp'.active ≡ bp.active + passed_on woken)
      × (put_back woken bp'.waiters ≡ bp.waiters)
      × ((woken ≢ none) ⊎ (bp'.waiters ≡ []) ⊎ (bp'.concurrency < bp.active))
unfolding release
release-slots now latency bp h =
    let b = record bp { latencies = bp.latencies ++ latency ∷ [] } in
    let same = maybe_adjust-slots now b in
    let moved = hand_over-slots (maybe_adjust now b) (rw (same.0) h) in
    (rw (same.0) at moved.0, moved.1 ∙ same.1, rw (same.0) at moved.2)
