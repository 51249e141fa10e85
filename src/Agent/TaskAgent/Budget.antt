-- ===== src/Agent/TaskAgent/Budget.antt =====
-- The token budget of one run (agent/taskagent/budget.go). A budget that Go takes as 0 or negative
-- is 0, no limit. The atomic counter is a number: a run adds to it from one goroutine.
use vagent.Common.{ℕ, ◌+◌, ◌-◌, ltb, leb, Bool, ◌&&◌, Option, none, some, if◌then◌else◌}

pub record BudgetTracker : Type 0 where
  pub budget : ℕ
  pub consumed : ℕ

unfoldable pub new_budget_tracker : ℕ → BudgetTracker
new_budget_tracker budget = record { budget = budget; consumed = 0 }

unfoldable pub exhausted : BudgetTracker → Bool
exhausted t = ltb 0 t.budget && leb t.budget t.consumed

-- The new tracker, and whether it is exhausted.
unfoldable pub add : ℕ → BudgetTracker → BudgetTracker × Bool
unfolding exhausted
add tokens t = let t' = record t { consumed = t.consumed + tokens } in (t', exhausted t')

-- `none` stands for -1, no limit.
unfoldable pub remaining : BudgetTracker → Option ℕ
remaining t = if ltb 0 t.budget then some (t.budget - t.consumed) else none
