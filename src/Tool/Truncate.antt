-- ===== src/Tool/Truncate.antt =====
-- Truncation of tool results (tool/truncate.go, `Execute`, and `EstimateTextTokens` of
-- memory/token_estimate.go). A text is its list of bytes; `rune_start` stands for `utf8.RuneStart`
-- and `marker` for the formatted note. `none` stands for an index out of range, Go's panic. A bound
-- that Go takes as 0 or negative is 0.
mod Bounds
mod Tests
use vagent.Common.{
  ℕ, zero, suc, ◌*◌, ◌/◌, min, ltb, leb, ◌==◌, Bool, true, false, List, [], ◌∷◌, ◌++◌, Option, none,
  some, length, take, get_elem?, if◌then◌else◌,
}

unfoldable pub estimate_text_tokens : List ℕ → ℕ
estimate_text_tokens [] = 0
estimate_text_tokens (b ∷ bs) =
    let tokens = length (b ∷ bs) / 4 in if tokens == 0 then 1 else tokens

-- The loop that backs up to the start of a rune.
unfoldable pub back_up : (ℕ → Bool) → List ℕ → ℕ → Option ℕ
back_up rune_start text zero = some zero
back_up rune_start text (suc n) =
    let before = back_up rune_start text n in
    elim (get_elem? text (suc n)) [
      | none ↦ none
      | some b ↦ if rune_start b then some (suc n) else before
    ]

-- The new text of a part.
unfoldable pub truncate_text : (ℕ → Bool) → (ℕ → ℕ → List ℕ) → ℕ → List ℕ → Option (List ℕ)
unfolding estimate_text_tokens back_up
truncate_text rune_start marker max_tokens text =
    if leb (estimate_text_tokens text) max_tokens
    then some text
    else (elim (back_up rune_start text (min (max_tokens * 4) (length text))) [
      | none ↦ none
      | some k ↦ some (take k text ++ marker max_tokens (estimate_text_tokens text))
    ])

pub record ContentPart (D : Type 0) : Type 0 where
  pub is_text : Bool
  pub text : List ℕ
  -- The data, MIME type and URL.
  pub rest : D

pub record ToolResult (D : Type 0) : Type 0 where
  pub tool_call_id : List ℕ
  pub content : List (ContentPart D)
  pub is_error : Bool

module _ {D : Type 0} (rune_start : ℕ → Bool) (marker : ℕ → ℕ → List ℕ) (max_tokens : ℕ) where
  -- The body of the loop. An empty text has no tokens, so it stays as it is.
  unfoldable pub truncate_part : ContentPart D → Option (ContentPart D)
  unfolding truncate_text
  truncate_part part = elim part.is_text [
    | false ↦ some part
    | true ↦ elim (truncate_text rune_start marker max_tokens part.text) [
      | none ↦ none
      | some text ↦ some (record part { text = text })
    ]
  ]

  unfoldable pub truncate_parts : List (ContentPart D) → Option (List (ContentPart D))
  unfolding truncate_part
  truncate_parts [] = some []
  truncate_parts (p ∷ ps) = elim (truncate_part p) [
    | none ↦ none
    | some q ↦ elim (truncate_parts ps) [ none ↦ none | some qs ↦ some (q ∷ qs) ]
  ]

  -- What `Execute` makes of a result of the inner registry.
  unfoldable pub truncate_result : ToolResult D → Option (ToolResult D)
  unfolding truncate_parts
  truncate_result r = elim max_tokens [
    | zero ↦ some r
    | suc n ↦ elim r.is_error [
      | true ↦ some r
      | false ↦ elim (truncate_parts r.content) [
        | none ↦ none
        | some parts ↦ some (record r { content = parts })
      ]
    ]
  ]
