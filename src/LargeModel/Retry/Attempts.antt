-- ===== src/LargeModel/Retry/Attempts.antt =====
-- The attempts of the retry loop (largemodel/retry.go), for any client, strategy and sleep.
use mathlib.Core.Path.{subst}
use vagent.Common.{
  ℕ, zero, suc, ◌+◌, ◌≤◌, ◌<◌, ◌≡◌, ◌⊎◌, inl, inr, Bool, true, false, leb, Option, none, some,
  arith, Bool-cases,
}
use vagent.LargeModel.Completer.{Failure, Result, ok, err, Result-cases}
use vagent.LargeModel.Retry.{
  pos, rounds, ErrorClass, is_retryable, Retry, next_delay, attempts, retried,
}

module _ {Q E A W : Type 0} (class : ErrorClass E) (m : Retry W) (backoff : ℕ → W → ℕ × W)
    (next : Q → W → Result E A × W) (q : Q) where
  -- The sleep after an attempt that ends in a world: whether it is interrupted, and the world then.
  abbrev pub sleeps : ℕ → W → Bool × W
  sleeps attempt w = let (delay, w') = backoff attempt w in m.sleep delay w'

  -- So many retryable failures from an attempt on, each followed by the whole sleep for its attempt,
  -- from one world to another.
  pub data Retries : ℕ → ℕ → W → W → Type 0 where
    first : {attempt : ℕ} {w : W} → Retries attempt 0 w w
    again :
        {attempt k : ℕ} {w v : W} (e : Failure E)
        → (next q w).0 ≡ err e
        → is_retryable class e ≡ true
        → (sleeps attempt (next q w).1).0 ≡ false
        → Retries (attempt + 1) k (sleeps attempt (next q w).1).1 v
        → Retries attempt (suc k) w v

  -- How an attempt ends the call, of so many retries: with a response, or with a failure that is the
  -- last one, that is not retryable or whose sleep is interrupted.
  pub data Settles (n attempt : ℕ) (w : W) : Result E (Option A) × W → Type 0 where
    responds :
        {r : Result E (Option A) × W} (resp : A)
        → (next q w).0 ≡ ok resp
        → r ≡ (ok (some resp), (next q w).1)
        → Settles n attempt w r
    fails :
        {r : Result E (Option A) × W} (e : Failure E)
        → (next q w).0 ≡ err e
        → (attempt ≡ n) ⊎ (is_retryable class e ≡ false)
        → r ≡ (err e, (next q w).1)
        → Settles n attempt w r
    interrupts :
        {r : Result E (Option A) × W} (e : Failure E)
        → (next q w).0 ≡ err e
        → attempt < n
        → is_retryable class e ≡ true
        → (sleeps attempt (next q w).1).0 ≡ true
        → r ≡ (err e, (sleeps attempt (next q w).1).1)
        → Settles n attempt w r

  attempts-Settles :
      (n left attempt : ℕ) (last : Option (Failure E)) (w : W)
      → m.max_retries ≡ pos n
      → m.backoff ≡ some backoff
      → attempt + left ≡ n + 1
      → attempt ≤ n
      → (k : ℕ) × (v : W) × (attempt + k ≤ n)
        × Retries attempt k w v
        × Settles n (attempt + k) v (attempts class m next left attempt last q w)
  unfolding attempts next_delay
  attempts-Settles n zero attempt last w limit strategy sum le = absurd (omega (arith, sum, le))
  attempts-Settles n (suc left) attempt last w limit strategy sum le =
      let here = attempts class m next (suc left) attempt last q w in
      let w₁ = (next q w).1 in
      let slept = sleeps attempt w₁ in
      let same : attempt + 0 ≡ attempt = omega arith in
      elim (Result-cases (next q w).0) [
        | inl (resp, fine) ↦ (0, w, rw same le, first, responds resp fine (ground (arith, fine)))
        | inr (e, broke) ↦ elim (Bool-cases (leb n attempt)) [
          | inl over ↦ (
            0,
            w,
            rw same le,
            first,
            fails e broke (inl (ground (arith, over, le))) (ground (arith, broke, limit, over)),
          )
          | inr more ↦ elim (Bool-cases (is_retryable class e)) [
            | inr final ↦ (
              0,
              w,
              rw same le,
              first,
              fails e broke (inr final) (ground (arith, broke, limit, more, final)),
            )
            | inl retryable ↦ elim (Bool-cases slept.0) [
              | inl stop ↦ (
                0,
                w,
                rw same le,
                first,
                rw same (
                    interrupts e broke (ground (arith, more)) retryable stop
                      (ground (arith, broke, limit, more, retryable, strategy, stop))),
              )
              | inr whole ↦
                  let goes : here ≡ attempts class m next left (attempt + 1) (some e) q slept.1 =
                    ground (arith, broke, limit, more, retryable, strategy, whole) in
                  let (k, v, few, tries, settled) =
                    attempts-Settles n left (attempt + 1) (some e) slept.1 limit strategy
                      (omega (arith, sum)) (ground (arith, more)) in
                  let count : attempt + suc k ≡ attempt + 1 + k = omega arith in
                  (
                    suc k,
                    v,
                    rw count few,
                    again e broke retryable whole tries,
                    rw (goes, count) settled,
                  )
            ]
          ]
        ]
      ]

  -- A call with n ≥ 0 retries is k ≤ n failures that are retryable, each followed by the whole sleep
  -- for its attempt, and then the attempt k that settles it: its response is returned, or its
  -- failure, which is the last one allowed, is not retryable, or has its sleep interrupted. This
  -- holds for any client, strategy and sleep.
  pub retried-Settles :
      (n : ℕ) (w : W)
      → m.max_retries ≡ pos n
      → m.backoff ≡ some backoff
      → (k : ℕ) × (v : W) × (k ≤ n) × Retries 0 k w v × Settles n k v (retried class m next q w)
  unfolding retried
  retried-Settles n w limit strategy =
      let whole : 0 + rounds m.max_retries ≡ n + 1 = rw limit (omega arith) in
      let (k, v, few, tries, settled) =
        attempts-Settles n (rounds m.max_retries) 0 none w limit strategy whole (omega arith) in
      (
        k,
        v,
        omega (arith, few),
        tries,
        subst (λ i. Settles n i v (retried class m next q w)) (omega arith) settled,
      )

module _ {Q E A W : Type 0} (class : ErrorClass E) (m : Retry W) (next : Q → W → Result E A × W)
    (calls : W → ℕ) where
  attempts_calls :
      ((q : Q) (w : W) → calls (next q w).1 ≡ suc (calls w))
      → ((attempt : ℕ) (w : W) → calls (next_delay m attempt w).1 ≡ calls w)
      → ((d : ℕ) (w : W) → calls (m.sleep d w).1 ≡ calls w)
      → (left attempt : ℕ) (last : Option (Failure E)) (q : Q) (w : W)
      → calls (attempts class m next left attempt last q w).1 ≤ calls w + left
  unfolding attempts
  attempts_calls hn hd hs zero attempt last q w = omega arith
  attempts_calls hn hd hs (suc left) attempt last q w =
      let w₁ = (next q w).1 in
      let w₂ = (next_delay m attempt w₁).1 in
      let d = (next_delay m attempt w₁).0 in
      elim (Result-cases (next q w).0) [
        | inl (a, answered) ↦ ground (arith, hn q w)
        | inr (e, failed) ↦ ground (
          arith,
          hn q w,
          hd attempt w₁,
          hs d w₂,
          attempts_calls hn hd hs left (attempt + 1) (some e) q (m.sleep d w₂).1,
        )
      ]

  -- The client is called at most once for each round, whatever it answers: if a call counts one
  -- and neither the strategy nor the sleep calls it.
  retried_calls :
      ((q : Q) (w : W) → calls (next q w).1 ≡ suc (calls w))
      → ((attempt : ℕ) (w : W) → calls (next_delay m attempt w).1 ≡ calls w)
      → ((d : ℕ) (w : W) → calls (m.sleep d w).1 ≡ calls w)
      → (q : Q) (w : W) → calls (retried class m next q w).1 ≤ calls w + rounds m.max_retries
  unfolding retried
  retried_calls hn hd hs q w = attempts_calls hn hd hs (rounds m.max_retries) 0 none q w
