-- ===== src/Memory/Tests.antt =====
-- The compressors and the store at concrete inputs (memory/).
use vagent.Common.{
  ℕ, ◌-◌, ◌≤◌, ◌<◌, ◌≡◌, ◌⊎◌, refl, String, List, [], ◌∷◌, none, arith, drop, lookup, insert,
}
use vagent.Memory.{ok, budget_compress, sliding_compress, scan, chain_compress}
use vagent.Memory.Budget.{tokens, budget_compress_lem}
use vagent.Memory.MapStore.{StoreRecord, batch_get, batch_set}

abbrev budget : ℕ
budget = 5

-- A history of messages that are their own number of tokens.
abbrev history : List ℕ
history = 5 ∷ 4 ∷ 3 ∷ 2 ∷ []

keeps_two : budget_compress {E = ℕ} (λ m. m) none history 6 ≡ ok (3 ∷ 2 ∷ [])
unfolding budget_compress scan
keeps_two = refl

keeps_last : budget_compress {E = ℕ} (λ m. m) none history 1 ≡ ok (2 ∷ [])
unfolding budget_compress scan
keeps_last = refl

chains :
    chain_compress {E = ℕ}
      (λ i. none)
      0
      (sliding_compress (λ m. m) 3 none none ∷ budget_compress (λ m. m) none ∷ [])
      history
      5
    ≡ ok (3 ∷ 2 ∷ [])
unfolding chain_compress sliding_compress scan
chains = refl

budget_compress_lem_example :
    (s : ℕ) × (budget_compress {E = ℕ} (λ m. m) none history 6 ≡ ok (drop s history))
    × (s ≤ 3)
    × ((tokens (λ m. m) (drop s history) ≤ 6) ⊎ (s ≡ 3))
    × ((s ≡ 0) ⊎ (6 < tokens (λ m. m) (drop (s - 1) history)))
budget_compress_lem_example =
    budget_compress_lem {E = ℕ} (λ m. m) 6 5 (4 ∷ 3 ∷ 2 ∷ []) (omega arith)

abbrev store : List (String × StoreRecord ℕ)
store = ("a", record { value = 1; created_at = 10; ttl = 0 }) ∷ []

reads_batch :
    (batch_get (λ i. 20) 0 ("a" ∷ "b" ∷ []) [] (batch_set 15 (("b", 2) ∷ []) 1 store)).1
    ≡ ("a", 1) ∷ ("b", 2) ∷ []
unfolding batch_get batch_set lookup insert
reads_batch = refl
