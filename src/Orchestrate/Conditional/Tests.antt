-- ===== src/Orchestrate/Conditional/Tests.antt =====
-- Conditional nodes at concrete inputs (orchestrate/conditional.go).
use vagent.Common.{ℕ, ◌≡◌, refl, true, false, [], ◌∷◌, none, some, inr}
use vagent.Schema.{number_types, RunRequest}
use vagent.Orchestrate.Conditional.{ConditionalNode, execute_conditional}

abbrev chooser : ConditionalNode number_types ℕ ℕ
chooser = record {
  id = "c";
  runner = none;
  branches =
      record { condition = some (λ u. false); target_id = "a" }
      ∷ record { condition = some (λ u. true); target_id = "b" }
      ∷ [];
  default = "d";
  exhaustive = true;
}

request : RunRequest number_types
request = record { messages = []; session_id = "s"; options = none; metadata = none }

first_match : execute_conditional chooser request 0 7 ≡ (inr (none, "b"), 7)
unfolding execute_conditional
first_match = refl
