-- ===== src/Memory.antt =====
-- Compressors of a message history (memory/compressor.go, memory/compressor_token_budget.go,
-- memory/compressor_chain.go). A token estimator is an argument, of natural numbers; a bound that Go
-- takes as 0 or negative is 0. The context's error at each poll is an argument. An index out of
-- range, Go's panic, stops the scan.
pub mod MapStore
mod Budget
mod Tests
use vagent.Common.{
  ℕ, zero, suc, ◌+◌, ◌-◌, ltb, leb, List, [], ◌∷◌, length, get_elem?, drop, Option, none, some,
  if◌then◌else◌, Bool, true, false,
}

pub data Compressed (M E : Type 0) : Type 0 where
  ok : List M → Compressed M E
  err : E → Compressed M E

-- The loop of `TokenBudgetCompressor.Compress`, with i messages before it: the start index.
unfoldable pub scan : {M : Type 0} → (M → ℕ) → ℕ → List M → ℕ → ℕ → ℕ → ℕ
scan estimator max_tokens messages zero total start = start
scan estimator max_tokens messages (suc i) total start = elim (get_elem? messages i) [
  | none ↦ start
  | some m ↦
      let rest = scan estimator max_tokens messages i (total + estimator m) i in
      if ltb max_tokens (total + estimator m) then start else rest
]

-- The start index with the last message kept.
unfoldable pub budget_start : {M : Type 0} → (M → ℕ) → ℕ → List M → ℕ
unfolding scan
budget_start estimator max_tokens messages =
    let start = scan estimator max_tokens messages (length messages) 0 (length messages) in
    if leb (length messages) start then length messages - 1 else start

-- `TokenBudgetCompressor.Compress`
unfoldable pub budget_compress : {M E : Type 0} → (M → ℕ) → Option E → List M → ℕ → Compressed M E
unfolding budget_start
budget_compress estimator (some e) messages max_tokens = err e
budget_compress estimator none [] max_tokens = ok []
budget_compress estimator none (m ∷ ms) zero = ok (m ∷ ms)
budget_compress estimator none (m ∷ ms) (suc n) =
    ok (drop (budget_start estimator (suc n) (m ∷ ms)) (m ∷ ms))

-- The messages of the window.
abbrev pub window : {M : Type 0} → ℕ → List M → List M
window size messages =
    if ltb size (length messages) then drop (length messages - size) messages else messages

-- What `SlidingWindowCompressor.Compress` does with the window.
abbrev pub trim_window : {M E : Type 0} → (M → ℕ) → Option E → List M → ℕ → Compressed M E
trim_window estimator poll [] max_tokens = ok []
trim_window estimator poll (m ∷ ms) zero = ok (m ∷ ms)
trim_window estimator poll (m ∷ ms) (suc n) = budget_compress estimator poll (m ∷ ms) (suc n)

-- `SlidingWindowCompressor.Compress`; it and the token budget poll the context once each. The
-- constructor panics on a window of size 0.
unfoldable pub sliding_compress :
    {M E : Type 0} → (M → ℕ) → ℕ → Option E → Option E → List M → ℕ → Compressed M E
unfolding budget_compress
sliding_compress estimator size (some e) second messages max_tokens = err e
sliding_compress estimator size none second messages max_tokens =
    trim_window estimator second (window size messages) max_tokens

-- The loop of `ChainCompressor.Compress`: the i-th poll of the context comes before the i-th
-- compressor.
unfoldable pub chain_compress :
    {M E : Type 0}
    → (ℕ → Option E)
    → ℕ
    → List (List M → ℕ → Compressed M E)
    → List M
    → ℕ
    → Compressed M E
chain_compress ctx i [] messages max_tokens = ok messages
chain_compress ctx i (c ∷ cs) messages max_tokens = elim (ctx i) [
  | some e ↦ err e
  | none ↦ elim (c messages max_tokens) [
    | err e ↦ err e
    | ok shorter ↦ chain_compress ctx (suc i) cs shorter max_tokens
  ]
]
