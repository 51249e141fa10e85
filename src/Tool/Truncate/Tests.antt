-- ===== src/Tool/Truncate/Tests.antt =====
-- Truncation at concrete inputs (tool/truncate.go).
use vagent.Common.{
  ℕ, ◌*◌, ◌≤◌, ◌<◌, ◌≡◌, ◌⊎◌, refl, ltb, leb, Bool, not, ◌&&◌, List, [], ◌∷◌, ◌++◌, some, length,
  take, arith,
}
use vagent.Tool.Truncate.{estimate_text_tokens, truncate_text}
use vagent.Tool.Truncate.Bounds.{IsBoundary, truncate_text_lem}

abbrev rune_start : ℕ → Bool
rune_start b = not (leb 128 b && ltb b 192)

-- Nine bytes, of which the fourth to the sixth are one rune.
abbrev text : List ℕ
text = 97 ∷ 98 ∷ 99 ∷ 226 ∷ 130 ∷ 172 ∷ 97 ∷ 98 ∷ 99 ∷ []

cuts_before_rune : truncate_text rune_start (λ n e. 46 ∷ []) 1 text ≡ some (97 ∷ 98 ∷ 99 ∷ 46 ∷ [])
unfolding truncate_text
cuts_before_rune = refl

truncate_text_lem_example :
    ((estimate_text_tokens text ≤ 1)
      × (truncate_text rune_start (λ n e. 46 ∷ []) 1 text ≡ some text))
    ⊎ ((k : ℕ) × (truncate_text rune_start (λ n e. 46 ∷ []) 1 text ≡ some (take k text ++ 46 ∷ []))
        × (k ≤ 1 * 4)
        × (k < length text)
        × IsBoundary rune_start text k)
truncate_text_lem_example = truncate_text_lem rune_start (λ n e. 46 ∷ []) 1 text (omega arith)
