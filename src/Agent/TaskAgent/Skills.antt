-- ===== src/Agent/TaskAgent/Skills.antt =====
-- The tools that active skills allow (agent/taskagent/task.go, `mergeSkillToolFilter`), and what the
-- filter of the registry makes of it (`prepareAITools`).
pub mod Merge
use vagent.Common.{
  String, Bool, true, false, not, List, [], ◌∷◌, ◌++◌, Option, none, some, if◌then◌else◌,
}
use vagent.Tool.Registry.{ToolDef, is_listed, filter_tools}
use vagent.Agent.TaskAgent.{SkillDef}

-- The inner loop: the tools not seen before, in their order.
unfoldable pub collect_tools : List String → List String → List String
collect_tools tools [] = tools
collect_tools tools (t ∷ ts) =
    collect_tools (if is_listed tools t then tools else tools ++ t ∷ []) ts

-- The outer loop; `none` when a skill allows every tool.
unfoldable pub union_tools : List String → List SkillDef → Option (List String)
unfolding collect_tools
union_tools tools [] = some tools
union_tools tools (s ∷ ss) = elim s.allowed_tools [
  | [] ↦ none
  | t ∷ ts ↦ union_tools (collect_tools tools (t ∷ ts)) ss
]

unfoldable pub intersect : List String → List String → List String
intersect request [] = []
intersect request (t ∷ ts) =
    let rest = intersect request ts in if is_listed request t then t ∷ rest else rest

-- What is left of the request's filter under the tools of the skills.
abbrev pub restrict : List String → List String → List String
restrict [] tools = tools
restrict (r ∷ rs) tools = intersect (r ∷ rs) tools

unfoldable pub merge_skill_tool_filter : List SkillDef → List String → List String
unfolding union_tools intersect
merge_skill_tool_filter [] request = request
merge_skill_tool_filter (s ∷ ss) request = elim (union_tools [] (s ∷ ss)) [
  | none ↦ request
  | some tools ↦ restrict request tools
]

-- `prepareAITools` with a registry that lists these tools.
unfoldable pub prepared_tools :
    {P : Type 0} → List (ToolDef P) → List SkillDef → List String → List (ToolDef P)
unfolding merge_skill_tool_filter
prepared_tools defs skills request = filter_tools defs (merge_skill_tool_filter skills request)
