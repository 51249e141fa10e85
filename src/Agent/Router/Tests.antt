-- ===== src/Agent/Router/Tests.antt =====
-- Routing by a model (agent/routeragent/routefunc.go).
use vagent.Common.{
  ℕ, ◌≡◌, refl, String, List, [], ◌∷◌, Option, none, some, str_eq, if◌then◌else◌, arith,
}
use vagent.Schema.{number_types, RunRequest, RunResponse, Outcome, ok}
use vagent.Agent.Router.{Route, selected, llm_func, run}
use vagent.Agent.Router.Selection.{Selects, llm_func-Selects}

abbrev req : RunRequest number_types
req = record { messages = 1 ∷ 2 ∷ []; session_id = "s"; options = none; metadata = none }

abbrev resp : ℕ → RunResponse number_types
resp n = record {
  messages = n ∷ [];
  session_id = "own";
  usage = some 4;
  duration = 0;
  metadata = none;
  stop_reason = none;
}

abbrev route : String → ℕ → Route number_types ℕ
route description n = record { agent = λ q w. (ok (some (resp n)), w); description = description }

abbrev routes : List (Route number_types ℕ)
routes = route "math" 7 ∷ route "art" 8 ∷ []

abbrev says :
    String → List (Route number_types ℕ) → String → ℕ → Outcome number_types (ℕ × Option String) × ℕ
says answer rs text w = (ok (3, some answer), w)

abbrev read_one : String → Option (Option ℕ)
read_one text = if str_eq text "1" then some (some 1) else none

runs :
    run
      (record {
        routes = routes;
        route_func = some (llm_func (λ m. "draw") (says "1") read_one (some 0));
        poll = λ w. none;
        now = λ w. w;
      })
      req
      0
    ≡ (selected (record (resp 8) { usage = some 7; session_id = "s" }), 0)
unfolding run llm_func
runs = refl

llm_func-Selects_example :
    Selects routes (llm_func (λ m. "draw") (says "none") read_one (some 0) req routes 0).0
llm_func-Selects_example =
    llm_func-Selects (λ m. "draw") (says "none") read_one 0 req routes 0 (omega arith)
