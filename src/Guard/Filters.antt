-- ===== src/Guard/Filters.antt =====
-- The guards that need no regular expression (guard/length.go, guard/topic.go,
-- guard/content_filter.go). `strings.Contains text topic`, `strings.ToLower`,
-- `utf8.RuneCountInString` and the formatted reason are arguments. A filter reads the original
-- words by the index of the normalized ones: `none` stands for an index out of range, Go's panic.
use vagent.Common.{
  ℕ, zero, suc, String, Bool, true, false, List, [], ◌∷◌, map, Option, none, some, ltb, get_elem?,
  if◌then◌else◌,
}
use vagent.Guard.{Message, Result, pass, block}

unfoldable pub length_check :
    {T D : Type 0} → (String → ℕ) → (ℕ → ℕ → String) → ℕ → Message T D → Result
length_check rune_count reason max_length msg = elim max_length [
  | zero ↦ pass
  | suc n ↦
      if ltb (suc n) (rune_count msg.content)
      then block "length" (reason (rune_count msg.content) (suc n)) []
      else pass
]

pub record TopicConfig : Type 0 where
  pub allowed_topics : List String
  pub blocked_topics : List String
  pub case_sensitive : Bool

pub record TopicGuard : Type 0 where
  pub allowed : List String
  pub blocked : List String
  pub orig_blocked : List String
  pub case_sensitive : Bool

-- `normalize` of one word or text: lower case unless case counts.
abbrev pub normalize : (String → String) → Bool → String → String
normalize to_lower true text = text
normalize to_lower false text = to_lower text

unfoldable pub new_topic_guard : (String → String) → TopicConfig → TopicGuard
new_topic_guard to_lower cfg = record {
  allowed = map (normalize to_lower cfg.case_sensitive) cfg.allowed_topics;
  blocked = map (normalize to_lower cfg.case_sensitive) cfg.blocked_topics;
  orig_blocked = cfg.blocked_topics;
  case_sensitive = cfg.case_sensitive;
}

-- The loop that collects the violations, from index i on.
unfoldable pub collect :
    (String → String → Bool) → String → List String → ℕ → List String → Option (List String)
collect contains text originals i [] = some []
collect contains text originals i (w ∷ ws) =
    let rest = collect contains text originals (suc i) ws in
    if contains text w
    then (elim (get_elem? originals i) [
      | none ↦ none
      | some original ↦ elim rest [ none ↦ none | some vs ↦ some (original ∷ vs) ]
    ])
    else rest

abbrev pub any_contained : (String → String → Bool) → String → List String → Bool
any_contained contains text [] = false
any_contained contains text (w ∷ ws) =
    let rest = any_contained contains text ws in if contains text w then true else rest

-- The second step of the topic check.
abbrev pub allowed_check : (String → String → Bool) → String → List String → Result
allowed_check contains text [] = pass
allowed_check contains text (w ∷ ws) =
    if any_contained contains text (w ∷ ws)
    then pass
    else block "topic" "topic not in allowed list" []

unfoldable pub topic_check :
    {T D : Type 0}
    → (String → String → Bool)
    → (String → String)
    → TopicGuard
    → Message T D
    → Option Result
unfolding collect
topic_check contains to_lower g msg =
    let text = normalize to_lower g.case_sensitive msg.content in
    elim (collect contains text g.orig_blocked 0 g.blocked) [
      | none ↦ none
      | some [] ↦ some (allowed_check contains text g.allowed)
      | some (v ∷ vs) ↦ some (block "topic" "blocked topic detected" (v ∷ vs))
    ]

pub record ContentFilterConfig : Type 0 where
  pub blocked_keywords : List String
  pub case_sensitive : Bool

pub record ContentFilterGuard : Type 0 where
  pub keywords : List String
  pub orig_keywords : List String
  pub case_sensitive : Bool

unfoldable pub new_content_filter_guard :
    (String → String) → ContentFilterConfig → ContentFilterGuard
new_content_filter_guard to_lower cfg = record {
  keywords = map (normalize to_lower cfg.case_sensitive) cfg.blocked_keywords;
  orig_keywords = cfg.blocked_keywords;
  case_sensitive = cfg.case_sensitive;
}

unfoldable pub content_check :
    {T D : Type 0}
    → (String → String → Bool)
    → (String → String)
    → ContentFilterGuard
    → Message T D
    → Option Result
unfolding collect
content_check contains to_lower g msg =
    let text = normalize to_lower g.case_sensitive msg.content in
    elim (g.keywords) [
      | [] ↦ some pass
      | k ∷ ks ↦ elim (collect contains text g.orig_keywords 0 (k ∷ ks)) [
        | none ↦ none
        | some [] ↦ some pass
        | some (v ∷ vs) ↦ some (block "content_filter" "blocked content detected" (v ∷ vs))
      ]
    ]
