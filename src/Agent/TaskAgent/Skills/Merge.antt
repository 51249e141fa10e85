-- ===== src/Agent/TaskAgent/Skills/Merge.antt =====
-- What the tool filter of active skills lets through (agent/taskagent/task.go).
use mathlib.Core.Path.{subst}
use vagent.Common.{
  ◌<◌, ◌≡◌, ◌≢◌, ◌∙◌, str_eq, eq_iff, inl, inr, refl, String, Bool, true, false, ◌||◌, List, [],
  ◌∷◌, ◌++◌, some, Bool-cases, List-cases, arith, length, All, All-append, All-imply,
}
use vagent.Tool.Registry.{ToolDef, is_listed, keep_listed, filter_tools}
use vagent.Agent.TaskAgent.{SkillDef}
use vagent.Agent.TaskAgent.Skills.{
  collect_tools, union_tools, intersect, merge_skill_tool_filter, prepared_tools,
}

-- Some skill lists the tool.
abbrev pub some_allows : List SkillDef → String → Bool
some_allows [] t = false
some_allows (s ∷ ss) t = is_listed s.allowed_tools t || some_allows ss t

-- Every skill restricts its tools.
abbrev pub AllRestrict : List SkillDef → Type 0
AllRestrict = All (λ s. 0 < length s.allowed_tools)

module _ (P : String → Type 0) where
  collect_tools-All :
      (tools ts : List String) → All P tools → All P ts → All P (collect_tools tools ts)
  unfolding collect_tools
  collect_tools-All tools [] h k = h
  collect_tools-All tools (t ∷ ts) h k = elim (Bool-cases (is_listed tools t)) [
    | inl old ↦ rw old (collect_tools-All tools ts h k.1)
    | inr new ↦
        rw new
          (collect_tools-All (tools ++ t ∷ []) ts (All-append P tools (t ∷ []) h (k.0, tt)) k.1)
  ]

  union_tools-All :
      (tools : List String) (skills : List SkillDef)
      → AllRestrict skills
      → All P tools
      → All (λ s. All P s.allowed_tools) skills
      → (union : List String) × (union_tools tools skills ≡ some union) × All P union
  unfolding union_tools
  union_tools-All tools [] r h k = (tools, refl, h)
  union_tools-All tools (s ∷ ss) r h k = elim (List-cases s.allowed_tools) [
    | inl empty ↦ absurd (ground (arith, r, empty))
    | inr (t, ts, filled) ↦
        let more = collect_tools-All tools (t ∷ ts) h (rw filled at k.0) in
        let (union, same, all) = union_tools-All (collect_tools tools (t ∷ ts)) ss r.1 more k.1 in
        (union, ground (arith, filled, same), all)
  ]

  intersect-All : (request ts : List String) → All P ts → All P (intersect request ts)
  unfolding intersect
  intersect-All request [] h = tt
  intersect-All request (t ∷ ts) h = elim (Bool-cases (is_listed request t)) [
    | inl both ↦ rw both (h.0, intersect-All request ts h.1)
    | inr other ↦ rw other (intersect-All request ts h.1)
  ]

intersect_listed :
    (request ts : List String) → All (λ t. is_listed request t ≡ true) (intersect request ts)
unfolding intersect
intersect_listed request [] = tt
intersect_listed request (t ∷ ts) = elim (Bool-cases (is_listed request t)) [
  | inl both ↦ rw both (both, intersect_listed request ts)
  | inr other ↦ rw other (intersect_listed request ts)
]

intersect_disjoint :
    (request ts : List String)
    → All (λ t. is_listed request t ≡ false) ts
    → intersect request ts ≡ []
unfolding intersect
intersect_disjoint request [] h = refl
intersect_disjoint request (t ∷ ts) h = ground (arith, h.0, intersect_disjoint request ts h.1)

All-both :
    (P Q : String → Type 0) (ts : List String) → All P ts → All Q ts → All (λ t. P t × Q t) ts
All-both P Q [] h k = tt
All-both P Q (t ∷ ts) h k = ((h.0, k.0), All-both P Q ts h.1 k.1)

listed-All :
    (P : String → Type 0) (ts : List String) (x : String) → All P ts → is_listed ts x ≡ true → P x
listed-All P [] x h at = cc
listed-All P (t ∷ ts) x h at = elim (Bool-cases (str_eq t x)) [
  | inl here ↦ subst P ((eq_iff t x).0 here) h.0
  | inr there ↦ listed-All P ts x h.1 (ground (arith, there))
]

keep_listed-All :
    {A : Type 0} (P : String → Type 0) (ts : List String) (defs : List (ToolDef A))
    → All P ts
    → All (λ d. P d.name) (keep_listed ts defs)
unfolding keep_listed
keep_listed-All P ts [] h = tt
keep_listed-All P ts (d ∷ ds) h = elim (Bool-cases (is_listed ts d.name)) [
  | inl listed ↦ rw listed (listed-All P ts d.name h listed, keep_listed-All P ts ds h)
  | inr other ↦ rw other (keep_listed-All P ts ds h)
]

self_listed : (ts : List String) → All (λ t. is_listed ts t ≡ true) ts
self_listed [] = tt
self_listed (t ∷ ts) = (
  ground (arith, eq_iff t t),
  All-imply (λ x. is_listed ts x ≡ true) (λ x. is_listed (t ∷ ts) x ≡ true)
      (λ x h. ground (arith, h)) ts (self_listed ts),
)

-- The tools that a skill lists are allowed by some skill.
AllAllowed : List SkillDef → SkillDef → Type 0
AllAllowed ss s = All (λ t. some_allows ss t ≡ true) s.allowed_tools

some_allows_lem : (ss : List SkillDef) → All (AllAllowed ss) ss
unfolding AllAllowed
some_allows_lem [] = tt
some_allows_lem (s ∷ ss) = (
  All-imply (λ t. is_listed s.allowed_tools t ≡ true) (λ t. some_allows (s ∷ ss) t ≡ true)
      (λ t h. ground (arith, h)) s.allowed_tools (self_listed s.allowed_tools),
  All-imply (AllAllowed ss) (AllAllowed (s ∷ ss))
      (λ x h.
        All-imply (λ t. some_allows ss t ≡ true) (λ t. some_allows (s ∷ ss) t ≡ true)
          (λ t e. ground (arith, e)) x.allowed_tools h)
      ss (some_allows_lem ss),
)

-- When every active skill restricts its tools, the request names tools and the merged filter is not
-- empty, the model is offered only tools that the request names and some active skill allows.
pub prepared_tools-All :
    {P : Type 0} (defs : List (ToolDef P)) (s : SkillDef) (ss : List SkillDef) (r : String)
    (rs : List String)
    → AllRestrict (s ∷ ss)
    → merge_skill_tool_filter (s ∷ ss) (r ∷ rs) ≢ []
    → All
        (λ d. (is_listed (r ∷ rs) d.name ≡ true) × (some_allows (s ∷ ss) d.name ≡ true))
        (prepared_tools defs (s ∷ ss) (r ∷ rs))
unfolding prepared_tools merge_skill_tool_filter filter_tools AllAllowed
prepared_tools-All defs s ss r rs h filled =
    let Q = λ (t : String). some_allows (s ∷ ss) t ≡ true in
    let R = λ (t : String). is_listed (r ∷ rs) t ≡ true in
    let (union, same, all) = union_tools-All Q [] (s ∷ ss) h tt (some_allows_lem (s ∷ ss)) in
    let both =
      All-both R Q (intersect (r ∷ rs) union) (intersect_listed (r ∷ rs) union)
        (intersect-All Q (r ∷ rs) union all) in
    let merged : merge_skill_tool_filter (s ∷ ss) (r ∷ rs) ≡ intersect (r ∷ rs) union =
      ground (arith, same) in
    elim (List-cases (intersect (r ∷ rs) union)) [
      | inl empty ↦ absurd (filled (merged ∙ empty))
      | inr (t, ts, there) ↦
          let opened : prepared_tools defs (s ∷ ss) (r ∷ rs) ≡ keep_listed (t ∷ ts) defs =
            ground (arith, same, there) in
          rw opened (keep_listed-All (λ x. R x × Q x) (t ∷ ts) defs (rw there at both))
    ]

-- When every active skill restricts its tools, the request names tools, and no skill allows one of
-- those, the filter is empty: every tool of the registry is offered to the model.
pub prepared_tools_disjoint :
    {P : Type 0} (defs : List (ToolDef P)) (s : SkillDef) (ss : List SkillDef) (r : String)
    (rs : List String)
    → AllRestrict (s ∷ ss)
    → All (λ s. All (λ t. is_listed (r ∷ rs) t ≡ false) s.allowed_tools) (s ∷ ss)
    → prepared_tools defs (s ∷ ss) (r ∷ rs) ≡ defs
unfolding prepared_tools merge_skill_tool_filter filter_tools
prepared_tools_disjoint defs s ss r rs h k =
    let (union, same, all) =
      union_tools-All (λ t. is_listed (r ∷ rs) t ≡ false) [] (s ∷ ss) h tt k in
    let empty = intersect_disjoint (r ∷ rs) union all in ground (arith, same, empty)
