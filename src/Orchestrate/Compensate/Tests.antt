-- ===== src/Orchestrate/Compensate/Tests.antt =====
-- Rollbacks at concrete inputs (orchestrate/compensate.go, orchestrate/topo.go).
use mathlib.Core.Path.{subst}
use vagent.Common.{
  Bool-cases, inl, inr, arith, ℕ, suc, ◌+◌, ◌≤◌, ◌<◌, ◌≡◌, refl, String, str_eq, true, false, List,
  [], ◌∷◌, ◌++◌, Option, none, some, select, if◌then◌else◌,
}
use vagent.Schema.{number_types, RunResponse}
use vagent.Orchestrate.Node.{done, failed, Node, node_of}
use vagent.Orchestrate.Compensate.{
  CompensateConfig, Compensator, Rollback, is_done, topological_sort, execute_node_compensation,
  execute_backward_compensation,
}
use vagent.Orchestrate.Compensate.Order.{IsTopological}
use vagent.Orchestrate.Compensate.Sorted.{topological_sort-IsTopological}
use vagent.Orchestrate.Compensate.Calls.{callable, reverse, node_compensation-calls, backward-log}

abbrev node : String → List String → Node number_types
node id deps = record {
  id = id;
  deps = deps;
  optional = false;
  condition = none;
  input_mapper = none;
}

abbrev diamond : List (Node number_types)
diamond = node "d" ("b" ∷ "c" ∷ []) ∷ node "b" ("a" ∷ []) ∷ node "c" ("a" ∷ []) ∷ node "a" [] ∷ []

sorts : topological_sort 4 diamond ≡ some ("a" ∷ "b" ∷ "c" ∷ "d" ∷ [])
unfolding topological_sort
sorts = refl

topological_sort-IsTopological_example :
    (order : List String) × (topological_sort 4 diamond ≡ some order) × IsTopological diamond order
topological_sort-IsTopological_example =
    topological_sort-IsTopological diamond (unfold node_of in (refl, (refl, (refl, (refl, tt)))))

abbrev resp : RunResponse number_types
resp = record {
  messages = [];
  session_id = "s";
  usage = none;
  duration = 0;
  metadata = none;
  stop_reason = none;
}

abbrev cfg : CompensateConfig
cfg = record { max_retries = 2 }

abbrev fails : Compensator number_types ℕ
fails = record { compensate = λ r w. (some 5, suc w); is_idempotent = true }

abbrev waits : {W : Type 0} → ℕ → W → Option ℕ × W
waits n w = (none, w)

node_compensation-calls_example :
    (0 < (execute_node_compensation cfg waits fails resp 0).1)
    × ((execute_node_compensation cfg waits fails resp 0).1 ≤ 0 + 3)
node_compensation-calls_example =
    node_compensation-calls cfg waits (λ w. w) fails resp 0 (λ w. refl) (λ n w. refl)

abbrev logging : String → Compensator number_types (List String)
logging id = record {
  compensate = λ r w. (if str_eq id "a" then some 5 else none, w ++ id ∷ []);
  is_idempotent = false;
}

-- All nodes but "b" have a compensator, which logs the node; that of "a" fails.
abbrev compensator : String → Option (Compensator number_types (List String))
compensator id = if str_eq id "b" then none else some (logging id)

abbrev before : Rollback number_types (List String)
before = record { status = λ id. if str_eq id "d" then failed else done; errors = []; world = [] }

abbrev order : List String
order = "a" ∷ "b" ∷ "c" ∷ "d" ∷ []

rolls_back :
    (execute_backward_compensation cfg waits compensator (λ id. some resp) order before).world
    ≡ "c" ∷ "a" ∷ []
unfolding execute_backward_compensation
rolls_back = refl

compensator_logs :
    (id : String) (comp : Compensator number_types (List String)) (r : RunResponse number_types)
    (w : List String)
    → compensator id ≡ some comp
    → (comp.compensate r w).1 ≡ w ++ id ∷ []
compensator_logs id comp r w there = elim (Bool-cases (str_eq id "b")) [
  | inl absent ↦ absurd (ground (arith, absent, there))
  | inr other ↦
      let same : some (logging id) ≡ some comp = ground (arith, other, there) in
      let found : logging id ≡ comp = cc in
      subst (λ c. (c.compensate r w).1 ≡ w ++ id ∷ []) found refl
]

compensator_once :
    (id : String) (comp : Compensator number_types (List String))
    → compensator id ≡ some comp
    → comp.is_idempotent ≡ false
compensator_once id comp there = elim (Bool-cases (str_eq id "b")) [
  | inl absent ↦ absurd (ground (arith, absent, there))
  | inr other ↦
      let same : some (logging id) ≡ some comp = ground (arith, other, there) in
      let found : logging id ≡ comp = cc in subst (λ c. c.is_idempotent ≡ false) found refl
]

backward-log_example :
    (execute_backward_compensation cfg waits compensator (λ id. some resp) order before).world
    ≡ []
      ++ reverse
          (callable compensator (λ id. some resp) (select (λ id. is_done (before.status id)) order))
backward-log_example =
    backward-log cfg waits compensator (λ id. some resp) (λ w. w) compensator_logs compensator_once
      order before
