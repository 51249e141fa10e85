-- ===== src/Tool/Truncate/Bounds.antt =====
-- A truncated text is a prefix within the bound, cut between runes (tool/truncate.go).
use vagent.Common.{
  ℕ, zero, suc, ◌*◌, ◌≤◌, ◌<◌, ◌≡◌, ◌⊎◌, inl, inr, refl, min, leb, Bool, true, List, [], ◌∷◌, ◌++◌,
  some, length, take, get_elem?, Bool-cases, arith,
}
use vagent.Tool.Truncate.{estimate_text_tokens, back_up, truncate_text}

get_elem?-some :
    {A : Type 0} (i : ℕ) (xs : List A) → i < length xs → (x : A) × (get_elem? xs i ≡ some x)
get_elem?-some i [] h = absurd (omega arith)
get_elem?-some zero (x ∷ xs) h = (x, refl)
get_elem?-some (suc i) (x ∷ xs) h = get_elem?-some i xs (omega arith)

module _ (rune_start : ℕ → Bool) where
  -- The position is the start of the text or of a rune.
  abbrev pub IsBoundary : List ℕ → ℕ → Type 0
  IsBoundary text k = (k ≡ 0) ⊎ ((b : ℕ) × (get_elem? text k ≡ some b) × (rune_start b ≡ true))

  back_up_lem :
      (text : List ℕ) (n : ℕ)
      → n < length text
      → (k : ℕ) × (back_up rune_start text n ≡ some k) × (k ≤ n) × IsBoundary text k
  unfolding back_up
  back_up_lem text zero h = (zero, refl, omega arith, inl refl)
  back_up_lem text (suc n) h =
      let (b, at) = get_elem?-some (suc n) text h in
      elim (Bool-cases (rune_start b)) [
        | inl start ↦ (suc n, ground (arith, at, start), omega arith, inr (b, at, start))
        | inr inside ↦
            let (k, same, le, boundary) = back_up_lem text n (omega arith) in
            (k, ground (arith, at, inside, same), omega (arith, le), boundary)
      ]

  estimate-lt :
      (n : ℕ) (text : List ℕ) → 0 < n → n < estimate_text_tokens text → n * 4 < length text
  unfolding estimate_text_tokens
  estimate-lt n [] p h = ground arith
  estimate-lt n (b ∷ bs) p h = ground arith

  -- With a positive bound, a text within it stays. A longer one is cut without a panic: to a prefix
  -- of at most four bytes for each token of the bound, which ends before a rune or is empty, with
  -- the marker behind it.
  pub truncate_text_lem :
      (marker : ℕ → ℕ → List ℕ) (n : ℕ) (text : List ℕ)
      → 0 < n
      → ((estimate_text_tokens text ≤ n) × (truncate_text rune_start marker n text ≡ some text))
        ⊎ ((k : ℕ) × (truncate_text rune_start marker n text
              ≡ some (take k text ++ marker n (estimate_text_tokens text)))
            × (k ≤ n * 4)
            × (k < length text)
            × IsBoundary text k)
  unfolding truncate_text
  truncate_text_lem marker n text p = elim (Bool-cases (leb (estimate_text_tokens text) n)) [
    | inl short ↦ inl (ground (arith, short), ground (arith, short))
    | inr long ↦
        let more : n < estimate_text_tokens text = ground (arith, long) in
        let room = estimate-lt n text p more in
        let cut : min (n * 4) (length text) ≡ n * 4 = omega (arith, room) in
        let (k, same, le, boundary) = back_up_lem text (n * 4) room in
        inr (k, ground (arith, long, cut, same), le, omega (arith, le, room), boundary)
  ]
