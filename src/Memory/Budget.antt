-- ===== src/Memory/Budget.antt =====
-- The compressors keep a suffix of the history that fits (memory/compressor_token_budget.go,
-- memory/compressor.go).
use vagent.Common.{
  ℕ, zero, suc, ◌+◌, ◌-◌, ◌≤◌, ◌<◌, ◌≡◌, ◌⊎◌, inl, inr, refl, ltb, leb, List, [], ◌∷◌, length,
  get_elem?, drop, length-drop, none, some, arith, Bool-cases, if◌then◌else◌,
}
use vagent.Memory.{ok, scan, budget_start, budget_compress, window, trim_window, sliding_compress}

module _ {M : Type 0} (estimator : M → ℕ) where
  abbrev pub tokens : List M → ℕ
  tokens [] = 0
  tokens (m ∷ ms) = estimator m + tokens ms

  drop-length : (ms : List M) → drop (length ms) ms ≡ []
  drop-length [] = refl
  drop-length (m ∷ ms) = drop-length ms

  tokens-drop :
      (i : ℕ) (ms : List M) {m : M}
      → get_elem? ms i ≡ some m
      → tokens (drop i ms) ≡ estimator m + tokens (drop (suc i) ms)
  tokens-drop i [] h = cc
  tokens-drop zero (m ∷ ms) h = ground arith
  tokens-drop (suc i) (m ∷ ms) h = tokens-drop i ms h

  get_elem?-lt : (i : ℕ) (ms : List M) → i < length ms → (m : M) × (get_elem? ms i ≡ some m)
  get_elem?-lt i [] h = absurd (omega arith)
  get_elem?-lt zero (m ∷ ms) h = (m, refl)
  get_elem?-lt (suc i) (m ∷ ms) h = get_elem?-lt i ms (omega arith)

  scan-step :
      (n i t s : ℕ) (ms : List M) {m : M}
      → get_elem? ms i ≡ some m
      → scan estimator n ms (suc i) t s
        ≡ (if ltb n (t + estimator m) then s else scan estimator n ms i (t + estimator m) i)
  unfolding scan
  scan-step n i t s ms {m} at = ground arith

  -- What `scan` returns, with i messages left: a start s ≤ i whose suffix fits, and no longer one
  -- does.
  scan_lem :
      (n i : ℕ) (ms : List M)
      → i ≤ length ms
      → tokens (drop i ms) ≤ n
      → let s = scan estimator n ms i (tokens (drop i ms)) i in
        (s ≤ i) × (tokens (drop s ms) ≤ n) × ((s ≡ 0) ⊎ (n < tokens (drop (s - 1) ms)))
  unfolding scan
  scan_lem n zero ms h fits = (omega arith, fits, inl refl)
  scan_lem n (suc i) ms h fits =
      let (m, at) = get_elem?-lt i ms (omega arith) in
      let sum = tokens-drop i ms {m = m} at in
      let step = scan-step n i (tokens (drop (suc i) ms)) (suc i) ms {m = m} at in
      let same : tokens (drop (suc i) ms) + estimator m ≡ tokens (drop i ms) = omega (arith, sum) in
      elim (Bool-cases (ltb n (tokens (drop (suc i) ms) + estimator m))) [
        | inl over ↦
            let back : suc i - 1 ≡ i = omega arith in
            let big : n < tokens (drop (suc i - 1) ms) = rw back (ground (arith, same, over)) in
            rw (step, over) (omega arith, fits, inr big)
        | inr under ↦
            let small : tokens (drop i ms) ≤ n = ground (arith, same, under) in
            let ih = scan_lem n i ms (omega arith) small in
            rw (step, under, same) (omega (arith, ih.0), ih.1, ih.2)
      ]

  tokens-drop-le : (i : ℕ) (ms : List M) → tokens (drop (suc i) ms) ≤ tokens (drop i ms)
  tokens-drop-le i [] = ground arith
  tokens-drop-le zero (m ∷ ms) = ground arith
  tokens-drop-le (suc i) (m ∷ ms) = tokens-drop-le i ms

  longer :
      (n k : ℕ) (ms : List M) → n < tokens (drop k ms) → (k ≡ 0) ⊎ (n < tokens (drop (k - 1) ms))
  longer n zero ms h = inl refl
  longer n (suc k) ms h =
      let back : suc k - 1 ≡ k = omega arith in rw back (inr (omega (arith, tokens-drop-le k ms)))

  length-scan :
      (n : ℕ) (ms : List M)
      → let s = scan estimator n ms (length ms) 0 (length ms) in
        (s ≤ length ms) × (tokens (drop s ms) ≤ n) × ((s ≡ 0) ⊎ (n < tokens (drop (s - 1) ms)))
  length-scan n ms =
      let none_left : tokens (drop (length ms) ms) ≡ 0 = rw (drop-length ms) refl in
      let found = scan_lem n (length ms) ms (omega arith) (omega (arith, none_left)) in
      rw none_left at found

  budget_start_lem :
      (n k : ℕ) (ms : List M)
      → length ms ≡ suc k
      → let s = budget_start estimator n ms in
        (s ≤ k) × ((tokens (drop s ms) ≤ n) ⊎ (s ≡ k)) × ((s ≡ 0) ⊎ (n < tokens (drop (s - 1) ms)))
  unfolding budget_start
  budget_start_lem n k ms h =
      let s = scan estimator n ms (length ms) 0 (length ms) in
      let found = length-scan n ms in
      elim (Bool-cases (leb (length ms) s)) [
        | inl all ↦
            let whole : s ≡ suc k = ground (arith, found, all, h) in
            let first : budget_start estimator n ms ≡ k = ground (arith, all, h) in
            let last : s - 1 ≡ k = omega (arith, whole) in
            rw first (
              omega arith,
              inr refl,
              elim (found.2) [
                | inl nothing ↦ absurd (omega (arith, whole))
                | inr over ↦ longer n k ms (rw last at over)
              ],
            )
        | inr some_left ↦
            let first : budget_start estimator n ms ≡ s = ground (arith, some_left) in
            rw first (ground (arith, found, some_left), inl found.1, found.2)
      ]

length-window : {M : Type 0} (size : ℕ) (ms : List M) → length (window size ms) ≤ size
length-window size ms = ground (arith, length-drop (length ms - size) ms)

module _ {M E : Type 0} (estimator : M → ℕ) where
  -- With a positive budget and a live context, the token budget keeps a suffix of a history that
  -- is not empty, the last message at least. The suffix fits the budget unless it is the last
  -- message alone, and with one message more it would not fit.
  pub budget_compress_lem :
      (n : ℕ) (m : M) (ms : List M)
      → 0 < n
      → (s : ℕ) × (budget_compress {E = E} estimator none (m ∷ ms) n ≡ ok (drop s (m ∷ ms)))
        × (s ≤ length ms)
        × ((tokens estimator (drop s (m ∷ ms)) ≤ n) ⊎ (s ≡ length ms))
        × ((s ≡ 0) ⊎ (n < tokens estimator (drop (s - 1) (m ∷ ms))))
  unfolding budget_compress
  budget_compress_lem zero m ms h = absurd (omega arith)
  budget_compress_lem (suc n) m ms h =
      let found = budget_start_lem estimator (suc n) (length ms) (m ∷ ms) refl in
      (budget_start estimator (suc n) (m ∷ ms), refl, found.0, found.1, found.2)

  trim_window_lem :
      (ms : List M) (n : ℕ)
      → (kept : List M) × (trim_window {E = E} estimator none ms n ≡ ok kept)
        × (length kept ≤ length ms)
        × ((n ≡ 0) ⊎ (tokens estimator kept ≤ n) ⊎ (length kept ≡ 1))
  trim_window_lem [] n = ([], refl, omega arith, inr (inl (omega arith)))
  trim_window_lem (m ∷ ms) zero = (m ∷ ms, refl, omega arith, inl refl)
  trim_window_lem (m ∷ ms) (suc n) =
      let (s, same, bound, fits, full) = budget_compress_lem (suc n) m ms (omega arith) in
      let size = length-drop s (m ∷ ms) in
      (
        drop s (m ∷ ms),
        same,
        omega (arith, size),
        elim fits [
          | inl small ↦ inr (inl small)
          | inr last ↦ inr (inr (omega (arith, size, last)))
        ],
      )

  -- What the sliding window returns on a live context: no more messages than its size, and within
  -- the token budget when there is one, unless only the last message is left.
  sliding_compress_lem :
      (size : ℕ) (ms : List M) (n : ℕ)
      → (kept : List M) × (sliding_compress {E = E} estimator size none none ms n ≡ ok kept)
        × (length kept ≤ size)
        × ((n ≡ 0) ⊎ (tokens estimator kept ≤ n) ⊎ (length kept ≡ 1))
  unfolding sliding_compress
  sliding_compress_lem size ms n =
      let (kept, same, short, fits) = trim_window_lem (window size ms) n in
      (kept, same, omega (arith, short, length-window size ms), fits)
