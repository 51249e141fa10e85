-- ===== src/Guard/FilterLaws.antt =====
-- The filters block exactly what they are configured to block (guard/length.go, guard/topic.go,
-- guard/content_filter.go).
use vagent.Common.{
  List-cases, ℕ, zero, suc, ltb, not, ◌&&◌, ◌||◌, ◌<◌, ◌≡◌, ◌↔◌, refl, String, Bool, false, List,
  [], ◌∷◌, ◌++◌, map, some, arith, length, length-append, get_elem?, select, if◌then◌else◌,
  Bool-cases, inl, inr,
}
use vagent.Guard.{Message, block_action, pass, block}
use vagent.Guard.Filters.{
  length_check, TopicConfig, new_topic_guard, normalize, collect, any_contained, allowed_check,
  topic_check, ContentFilterConfig, new_content_filter_guard, content_check,
}

-- The length guard blocks exactly a text longer than a bound that is set.
length_check-block :
    {T D : Type 0} (rune_count : String → ℕ) (reason : ℕ → ℕ → String) (n : ℕ) (msg : Message T D)
    → ((length_check rune_count reason n msg).action ≡ block_action)
      ↔ ((0 < n) × (n < rune_count msg.content))
unfolding length_check
length_check-block rune_count reason zero msg = (λ h. cc, λ h. ground arith)
length_check-block rune_count reason (suc n) msg = (λ h. ground arith, λ h. ground arith)

get_elem?-append :
    {A : Type 0} (xs : List A) (y : A) (ys : List A) → get_elem? (xs ++ y ∷ ys) (length xs) ≡ some y
get_elem?-append [] y ys = refl
get_elem?-append (x ∷ xs) y ys = get_elem?-append xs y ys

append_assoc :
    {A : Type 0} (xs : List A) (y : A) (ys : List A) → xs ++ y ∷ ys ≡ (xs ++ y ∷ []) ++ ys
append_assoc [] y ys = refl
append_assoc (x ∷ xs) y ys = rw (append_assoc xs y ys)

next : {A : Type 0} (xs : List A) (y : A) → length (xs ++ y ∷ []) ≡ suc (length xs)
next xs y = omega (arith, length-append xs (y ∷ []))

-- Some word passes the test.
abbrev pub any : (String → Bool) → List String → Bool
any p [] = false
any p (w ∷ ws) = p w || any p ws

module _ (contains : String → String → Bool) (norm : String → String) (text : String) where
  -- The words a filter matches, as they were configured.
  abbrev pub matched : List String → List String
  matched ws = select (λ w. contains text (norm w)) ws

  -- No index is out of range, and the violations are the words that match.
  collect_from :
      (xs ws : List String)
      → collect contains text (xs ++ ws) (length xs) (map norm ws) ≡ some (matched ws)
  unfolding collect
  collect_from xs [] = refl
  collect_from xs (w ∷ ws) =
      let there = get_elem?-append xs w ws in
      let rest : collect contains text (xs ++ w ∷ ws) (suc (length xs)) (map norm ws)
          ≡ some (matched ws) =
        cc (collect_from (xs ++ w ∷ []) ws, append_assoc xs w ws, next xs w) in
      elim (Bool-cases (contains text (norm w))) [
        | inl hit ↦ rw (hit, there, rest) refl
        | inr miss ↦ rw (miss, rest) refl
      ]

module _ (contains : String → String → Bool) (norm : String → String) (text : String) where
  any_contained-map :
      (ws : List String)
      → any_contained contains text (map norm ws) ≡ any (λ w. contains text (norm w)) ws
  any_contained-map [] = refl
  any_contained-map (w ∷ ws) = ground (arith, any_contained-map ws)

  allowed_lem :
      (ws : List String)
      → allowed_check contains text (map norm ws) ≡ (
          if ltb 0 (length ws) && not (any (λ w. contains text (norm w)) ws)
          then block "topic" "topic not in allowed list" []
          else pass)
  allowed_lem [] = refl
  allowed_lem (w ∷ ws) = ground (arith, any_contained-map (w ∷ ws))

module _ {T D : Type 0} (contains : String → String → Bool) (to_lower : String → String) where
  -- The topic guard never panics. It blocks with the configured topics the text contains, if there
  -- are any; else it applies the list of allowed topics.
  topic_check_lem :
      (cfg : TopicConfig) (msg : Message T D)
      → let text = normalize to_lower cfg.case_sensitive msg.content in
        let vs = matched contains (normalize to_lower cfg.case_sensitive) text cfg.blocked_topics in
        topic_check contains to_lower (new_topic_guard to_lower cfg) msg
        ≡ some (
            if ltb 0 (length vs)
            then block "topic" "blocked topic detected" vs
            else (if ltb 0 (length cfg.allowed_topics)
                  && not (
                      any
                        (λ w. contains text (normalize to_lower cfg.case_sensitive w))
                        cfg.allowed_topics)
                then block "topic" "topic not in allowed list" []
                else pass))
  unfolding topic_check new_topic_guard
  topic_check_lem cfg msg =
      let norm = normalize to_lower cfg.case_sensitive in
      let text = norm msg.content in
      let vs = matched contains norm text cfg.blocked_topics in
      let found = collect_from contains norm text [] cfg.blocked_topics in
      let allowed = allowed_lem contains norm text cfg.allowed_topics in
      elim (List-cases vs) [
        | inl none_found ↦ ground (arith, found, none_found, allowed)
        | inr (v, rest, some_found) ↦ ground (arith, found, some_found)
      ]

  -- The content filter never panics, and blocks with exactly the configured keywords the text
  -- contains.
  content_check_lem :
      (cfg : ContentFilterConfig) (msg : Message T D)
      → let text = normalize to_lower cfg.case_sensitive msg.content in
        let vs =
          matched contains (normalize to_lower cfg.case_sensitive) text cfg.blocked_keywords in
        content_check contains to_lower (new_content_filter_guard to_lower cfg) msg
        ≡ some (
            if ltb 0 (length vs)
            then block "content_filter" "blocked content detected" vs
            else pass)
  unfolding content_check new_content_filter_guard
  content_check_lem cfg msg =
      let norm = normalize to_lower cfg.case_sensitive in
      let text = norm msg.content in
      let found = collect_from contains norm text [] cfg.blocked_keywords in
      elim (List-cases cfg.blocked_keywords) [
        | inl empty ↦ rw empty refl
        | inr (k, ks, filled) ↦
            elim (List-cases (matched contains norm text cfg.blocked_keywords)) [
              | inl none_found ↦ ground (arith, found, filled, none_found)
              | inr (v, rest, some_found) ↦ ground (arith, found, filled, some_found)
            ]
      ]
