-- ===== src/Guard.antt =====
-- Guards (guard/guard.go, guard/chain.go): checks of a message that pass, block or rewrite it, and
-- the chain that runs them in order. `ctx i` is what the i-th call of `ctx.Err()` returns. A guard
-- is a function of the message; one that changes its message behind the chain's back is not
-- modelled. Tool calls `T` and metadata `D` are opaque.
pub mod Filters
pub mod Chain
mod FilterLaws
mod Tests
use vagent.Common.{
  ℕ, suc, String, List, [], ◌∷◌, ◌++◌, Option, none, some, Bool, true, false, if◌then◌else◌,
}

pub data Direction : Type 0 where
  input output : Direction

pub record Message (T D : Type 0) : Type 0 where
  pub direction : Direction
  pub content : String
  pub agent_id : String
  pub session_id : String
  pub tool_calls : List T
  pub metadata : Option D

-- Go's `Action` is a string: a guard may return one that is none of the three.
pub data Action : Type 0 where
  pass_action block_action rewrite_action : Action
  other_action : String → Action

pub record Result : Type 0 where
  pub action : Action
  pub content : String
  pub reason : String
  pub violations : List String
  pub guard_name : String

abbrev pub pass : Result
pass = record { action = pass_action; content = ""; reason = ""; violations = []; guard_name = "" }

abbrev pub block : String → String → List String → Result
block guard_name reason violations = record {
  action = block_action;
  content = "";
  reason = reason;
  violations = violations;
  guard_name = guard_name;
}

-- What a check returns: an error, or a result that may be nil.
pub data Checked (E : Type 0) : Type 0 where
  check_failed : E → Checked E
  checked : Option Result → Checked E

pub record Guard (T D E : Type 0) : Type 0 where
  pub name : String
  pub check : Message T D → Checked E

pub data ChainError (E : Type 0) : Type 0 where
  from_cause : E → ChainError E
  nil_result : String → ChainError E
  unknown_action : String → String → ChainError E

pub data ChainOutcome (E : Type 0) : Type 0 where
  ok : Result → ChainOutcome E
  err : ChainError E → ChainOutcome E

-- The result after the loop.
abbrev pub chain_result : {T D : Type 0} → Message T D → Bool → List String → Result
chain_result msg true violations = record {
  action = rewrite_action;
  content = msg.content;
  reason = "content modified by guards";
  violations = violations;
  guard_name = "";
}
chain_result msg false violations = pass

-- The loop of `RunGuards`, from the i-th guard on. It replaces the content of the caller's message,
-- so the message is a result as well.
unfoldable pub guard_loop :
    {T D E : Type 0}
    → (ℕ → Option E)
    → ℕ
    → Message T D
    → Bool
    → List String
    → List (Guard T D E)
    → Message T D × ChainOutcome E
guard_loop ctx i msg rewritten violations [] = (msg, ok (chain_result msg rewritten violations))
guard_loop ctx i msg rewritten violations (g ∷ gs) = elim (ctx i) [
  | some e ↦ (msg, err (from_cause e))
  | none ↦ elim (g.check msg) [
    | check_failed e ↦ (msg, err (from_cause e))
    | checked none ↦ (msg, err (nil_result g.name))
    | checked (some r) ↦ elim (r.action) [
      | block_action ↦ (msg, ok r)
      | rewrite_action ↦
          guard_loop ctx (suc i) (record msg { content = r.content }) true
            (violations ++ r.violations) gs
      | pass_action ↦ guard_loop ctx (suc i) msg rewritten violations gs
      | other_action text ↦ (msg, err (unknown_action g.name text))
    ]
  ]
]

-- `RunGuards`; the loop covers the empty chain.
unfoldable pub run_guards :
    {T D E : Type 0}
    → (ℕ → Option E)
    → Message T D
    → List (Guard T D E)
    → Message T D × ChainOutcome E
unfolding guard_loop
run_guards ctx msg gs = guard_loop ctx 0 msg false [] gs
