-- ===== src/Orchestrate/Conditional/Targets.antt =====
-- A validated conditional node names its target (orchestrate/conditional.go).
use vagent.Common.{
  ℕ, suc, ◌≡◌, String, str_eq, false, List, [], ◌∷◌, none, inr, arith, Option-cases, inl,
}
use vagent.Schema.{Types}
use vagent.Orchestrate.Conditional.{Branch, validate_branches, evaluate}

-- Branches that pass validation name a target when the default does.
named_target :
    {T : Types} {U : Type 0} (id default : String) (i : ℕ) (bs : List (Branch U)) (u : U)
    → validate_branches {T = T} id i bs ≡ none
    → str_eq default "" ≡ false
    → str_eq (evaluate default bs u) "" ≡ false
unfolding validate_branches evaluate
named_target id default i [] u h d = d
named_target {T} id default i (b ∷ bs) u h d = elim (Option-cases b.condition) [
  | inl unset ↦ absurd (ground (arith, unset))
  | inr (holds, there) ↦ ground (arith, there, named_target {T = T} id default (suc i) bs u)
]
