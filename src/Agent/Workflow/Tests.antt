-- ===== src/Agent/Workflow/Tests.antt =====
-- A sequence of two steps (agent/workflowagent/workflow.go).
use vagent.Common.{ℕ, ◌+◌, ◌≡◌, refl, List, [], ◌∷◌, none, some}
use vagent.Schema.{number_types, RunRequest, ok, err}
use vagent.Agent.Workflow.{
  Step, Workflow, sequence_mode, responds, fails, step_failed, run_sequence, run,
}
use vagent.Agent.Workflow.Sequence.{Explains, run_sequence-Explains}

abbrev req : RunRequest number_types
req = record { messages = 1 ∷ []; session_id = "s"; options = none; metadata = none }

-- A step puts a message before those of its request, and takes a second.
abbrev says : ℕ → Step number_types ℕ
says n q w = (
  ok (
      some (record {
        messages = n ∷ q.messages;
        session_id = "own";
        usage = some n;
        duration = 9;
        metadata = none;
        stop_reason = none;
      })),
  w + 1000000000,
)

abbrev steps : List (Step number_types ℕ)
steps = says 2 ∷ says 3 ∷ []

abbrev workflow : Workflow number_types ℕ
workflow = record { mode = sequence_mode steps; poll = λ w. none; now = λ w. w }

runs : run workflow 0 req 5 ≡ (
  responds (record {
    messages = 3 ∷ 2 ∷ 1 ∷ [];
    session_id = "s";
    usage = some 5;
    duration = 2000;
    metadata = none;
    stop_reason = none;
  }),
  2000000005,
)
unfolding run
runs = refl

second_fails :
    (run_sequence (λ w. none) (says 2 ∷ (λ q w. (err 7, w)) ∷ says 3 ∷ []) req 0).0
    ≡ fails (step_failed 2 7)
unfolding run_sequence
second_fails = refl

run_sequence-Explains_example :
    Explains (λ w. none) req 0 (1 ∷ []) none 0 steps (run_sequence (λ w. none) steps req 0)
run_sequence-Explains_example = run_sequence-Explains (λ w. none) req steps 0
