-- ===== src/Tool/Registry/Tests.antt =====
-- The registry at concrete inputs (tool/registry.go).
use vagent.Common.{ℕ, ◌≡◌, refl, String, false, [], ◌∷◌, none, some, lookup}
use vagent.Tool.Registry.{
  ToolDef, Registry, new_registry, merge, execute, not_found, answered, refused, filter_tools,
  ToolOutcome,
}
use vagent.Tool.Registry.Keys.{
  registers, merges, apply_calls, AllKeyed, apply_calls-keyed, lookup-merge,
}

abbrev tool : String → ToolDef ℕ
tool name = record {
  name = name;
  description = "";
  parameters = 0;
  force_use = false;
  source = "local";
  mcp_server_uri = "";
  agent_id = "";
  read_only = false;
}

abbrev one_tool : Registry ℕ ℕ ℕ
one_tool = record {
  entries = ("a", record { tool_def = tool "a"; handler = some 1 }) ∷ [];
  external_caller = none;
}

abbrev answer : ℕ → String → String → ℕ → ToolOutcome ℕ ℕ × ℕ
answer h name args w = (answered h, w)

runs_local : execute answer answer one_tool "a" "{}" 5 ≡ (answered 1, 5)
unfolding execute lookup
runs_local = refl

unknown_tool : execute answer answer one_tool "b" "{}" 5 ≡ (refused (not_found "b"), 5)
unfolding execute lookup
unknown_tool = refl

filters : filter_tools (tool "a" ∷ tool "b" ∷ []) ("b" ∷ []) ≡ tool "b" ∷ []
unfolding filter_tools
filters = refl

apply_calls-keyed_example :
    AllKeyed
      (apply_calls
        (registers (tool "b") none ∷ merges (tool "a" ∷ []) ∷ [])
        (new_registry {P = ℕ} {H = ℕ} {X = ℕ} none)).entries
apply_calls-keyed_example =
    apply_calls-keyed (registers (tool "b") none ∷ merges (tool "a" ∷ []) ∷ []) (new_registry none)
      (unfold new_registry lookup in (λ name e at. cc))

lookup-merge_example :
    lookup "a" (merge (tool "b" ∷ tool "a" ∷ []) one_tool).entries
    ≡ some (record { tool_def = tool "a"; handler = some 1 })
lookup-merge_example =
    lookup-merge (tool "b" ∷ tool "a" ∷ []) one_tool "a"
      (record { tool_def = tool "a"; handler = some 1 }) (unfold lookup in refl)
