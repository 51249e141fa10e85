-- ===== src/Orchestrate/Conditional.antt =====
-- Nodes that choose the next node (orchestrate/conditional.go). Upstream results `U` are opaque, and
-- the node's runner acts on a world `W`. An unset condition is `none`; after validation there is
-- none.
mod Targets
mod Tests
use vagent.Common.{
  ℕ, suc, ◌⊎◌, inl, inr, String, str_eq, Bool, true, false, ◌&&◌, List, [], ◌∷◌, Option, none, some,
  if◌then◌else◌,
}
use vagent.Schema.{Types, RunRequest, RunResponse, Outcome, ok, err}

pub record Branch (U : Type 0) : Type 0 where
  pub condition : Option (U → Bool)
  pub target_id : String

pub record ConditionalNode (T : Types) (U W : Type 0) : Type 0 where
  pub id : String
  pub runner : Option (RunRequest T → W → Outcome T (Option (RunResponse T)) × W)
  pub branches : List (Branch U)
  pub default : String
  pub exhaustive : Bool

pub data ConditionalError (T : Types) : Type 0 where
  no_default : String → ConditionalError T
  nil_condition : String → ℕ → ConditionalError T
  empty_target : String → ℕ → ConditionalError T
  runner_failed : String → T.Error → ConditionalError T

-- The loop of `ValidateConditionalNode`, from branch i on.
unfoldable pub validate_branches :
    {T : Types} {U : Type 0} → String → ℕ → List (Branch U) → Option (ConditionalError T)
validate_branches id i [] = none
validate_branches id i (b ∷ bs) =
    let rest = validate_branches id (suc i) bs in
    elim b.condition [
      | none ↦ some (nil_condition id i)
      | some holds ↦ if str_eq b.target_id "" then some (empty_target id i) else rest
    ]

unfoldable pub validate_conditional_node :
    {T : Types} {U W : Type 0} → ConditionalNode T U W → Option (ConditionalError T)
unfolding validate_branches
validate_conditional_node cn =
    if cn.exhaustive && str_eq cn.default ""
    then some (no_default cn.id)
    else validate_branches cn.id 0 cn.branches

-- The loop of `EvaluateBranches`. An unset condition would panic in Go; it counts as false.
unfoldable pub evaluate : {U : Type 0} → String → List (Branch U) → U → String
evaluate default [] results = default
evaluate default (b ∷ bs) results =
    let rest = evaluate default bs results in
    elim b.condition [ none ↦ rest | some holds ↦ if holds results then b.target_id else rest ]

-- What `ExecuteConditional` returns, and the world after it.
unfoldable pub execute_conditional :
    {T : Types} {U W : Type 0}
    → ConditionalNode T U W
    → RunRequest T
    → U
    → W
    → ((ConditionalError T) ⊎ (Option (RunResponse T) × String)) × W
unfolding validate_conditional_node evaluate
execute_conditional cn req results w = elim (validate_conditional_node cn) [
  | some e ↦ (inl e, w)
  | none ↦ elim cn.runner [
    | none ↦ (inr (none, evaluate cn.default cn.branches results), w)
    | some run ↦
        let (outcome, w') = run req w in
        elim outcome [
          | err e ↦ (inl (runner_failed cn.id e), w')
          | ok resp ↦ (inr (resp, evaluate cn.default cn.branches results), w')
        ]
  ]
]
