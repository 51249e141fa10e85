-- ===== src/Agent/Router.antt =====
-- The router agent and its routing functions (agent/routeragent/router.go,
-- agent/routeragent/routefunc.go). Agents, the model and the poll of the context act on a world `W`
-- with its clock in nanoseconds. The functions of the standard library on texts, the number that
-- `rand.Intn` draws and the prompt are arguments. A fallback is `none` where Go's is negative.
mod Selection
mod Tests
use vagent.Common.{
  ℕ, zero, suc, ◌-◌, ◌/◌, String, str_eq, Bool, true, false, not, ◌&&◌, List, [], ◌∷◌, Option, none,
  some, length, get_elem?, if◌then◌else◌,
}
use vagent.Schema.{Types, RunRequest, RunResponse, Outcome, ok, err}
use vagent.Agent.Workflow.{Step}

pub record Route (T : Types) (W : Type 0) : Type 0 where
  pub agent : Step T W
  pub description : String

-- The agent is nil only from a routing function of the user.
pub record RouteResult (T : Types) (W : Type 0) : Type 0 where
  pub agent : Option (Step T W)
  pub usage : Option T.Usage

pub data RouteError (T : Types) : Type 0 where
  no_routes no_function nil_agent nil_response : RouteError T
  out_of_range : ℕ → RouteError T
  no_match : String → RouteError T
  llm_failed : T.Error → RouteError T
  empty_choices : RouteError T
  not_a_number : String → RouteError T
  index_refused : RouteError T
  cancelled agent_failed : T.Error → RouteError T
  selection_failed : RouteError T → RouteError T

-- A result or an error.
pub data Routed (T : Types) (A : Type 0) : Type 0 where
  selected : A → Routed T A
  refused : RouteError T → Routed T A

abbrev pub RouteFunc : Types → Type 0 → Type 0
RouteFunc T W = RunRequest T → List (Route T W) → W → Routed T (Option (RouteResult T W)) × W

-- The text of the last message, whoever wrote it.
abbrev pub last_text : {A : Type 0} → (A → String) → List A → String
last_text text_of [] = ""
last_text text_of (m ∷ []) = text_of m
last_text text_of (m ∷ n ∷ ms) = last_text text_of (n ∷ ms)

module _ {T : Types} {W : Type 0} where
  abbrev pub select_route : Option T.Usage → Route T W → Routed T (Option (RouteResult T W))
  select_route usage r = selected (some (record { agent = some r.agent; usage = usage }))

  -- The route at an index, or an error.
  abbrev pub route_at :
      Option T.Usage → RouteError T → ℕ → List (Route T W) → Routed T (Option (RouteResult T W))
  route_at usage e i routes = elim (get_elem? routes i) [
    | none ↦ refused e
    | some r ↦ select_route usage r
  ]

  -- The fallback, if there is one in range, or an error.
  abbrev pub fall_back :
      Option T.Usage
      → RouteError T
      → Option ℕ
      → List (Route T W)
      → Routed T (Option (RouteResult T W))
  fall_back usage e none routes = refused e
  fall_back usage e (some i) routes = route_at usage e i routes

  unfoldable pub first_func : RouteFunc T W
  first_func req routes w = (route_at none no_routes 0 routes, w)

  unfoldable pub index_func : ℕ → RouteFunc T W
  index_func i req routes w = (route_at none (out_of_range i) i routes, w)

  -- With the draw of `rand.Intn`, below its argument.
  unfoldable pub random_func : (ℕ → W → ℕ × W) → RouteFunc T W
  random_func draw req [] w = (refused no_routes, w)
  random_func draw req (r ∷ rs) w =
      let (i, w') = draw (length (r ∷ rs)) w in (route_at none (out_of_range i) i (r ∷ rs), w')

  module _ (text_of : T.Message → String) where
    -- The first route whose description stands in the text.
    unfoldable pub match_route :
        (String → String → Bool)
        → (String → String)
        → String
        → List (Route T W)
        → Option (Route T W)
    match_route contains lower text [] = none
    match_route contains lower text (r ∷ rs) =
        let rest = match_route contains lower text rs in
        if not (str_eq r.description "") && contains text (lower r.description)
        then some r
        else rest

    unfoldable pub keyword_func :
        (String → String → Bool) → (String → String) → Option ℕ → RouteFunc T W
    unfolding match_route
    keyword_func contains lower fallback req [] w = (refused no_routes, w)
    keyword_func contains lower fallback req (r ∷ rs) w =
        let text = last_text text_of req.messages in
        (
          elim (match_route contains lower (lower text) (r ∷ rs)) [
            | some found ↦ select_route none found
            | none ↦ fall_back none (no_match text) fallback (r ∷ rs)
          ],
          w,
        )

    -- What the model answers: its usage, and the trimmed text of the first choice, if any. `atoi` is
    -- `none` for a text that is no number, and `some none` for a negative one.
    unfoldable pub llm_func :
        (List (Route T W) → String → W → Outcome T (T.Usage × Option String) × W)
        → (String → Option (Option ℕ))
        → Option ℕ
        → RouteFunc T W
    llm_func ask atoi fallback req [] w = (refused no_routes, w)
    llm_func ask atoi fallback req (r ∷ rs) w =
        let routes = r ∷ rs in
        let (outcome, w') = ask routes (last_text text_of req.messages) w in
        (
          elim outcome [
            | err e ↦ fall_back none (llm_failed e) fallback routes
            | ok (usage, choice) ↦ elim choice [
              | none ↦ fall_back (some usage) empty_choices fallback routes
              | some text ↦ elim (atoi text) [
                | none ↦ fall_back (some usage) (not_a_number text) fallback routes
                | some none ↦ fall_back (some usage) index_refused fallback routes
                | some (some i) ↦ elim (get_elem? routes i) [
                  | none ↦ fall_back (some usage) index_refused fallback routes
                  | some found ↦ select_route (some usage) found
                ]
              ]
            ]
          ],
          w',
        )

pub record Router (T : Types) (W : Type 0) : Type 0 where
  pub routes : List (Route T W)
  pub route_func : Option (RouteFunc T W)
  pub poll : W → Option T.Error
  pub now : W → ℕ

-- The usage of the decision and of the agent.
abbrev pub total_usage : (T : Types) → Option T.Usage → Option T.Usage → Option T.Usage
total_usage T none own = own
total_usage T (some u) none = some (T.add_usage T.no_usage u)
total_usage T (some u) (some v) = some (T.add_usage (T.add_usage T.no_usage u) v)

module _ {T : Types} {W : Type 0} (a : Router T W) where
  -- The agent of the decision runs on the request.
  unfoldable pub run_selected :
      ℕ → RouteResult T W → RunRequest T → W → Routed T (RunResponse T) × W
  run_selected start result req w = elim result.agent [
    | none ↦ (refused nil_agent, w)
    | some agent ↦
        let (outcome, w') = agent req w in
        elim outcome [
          | err e ↦ (refused (agent_failed e), w')
          | ok none ↦ (refused nil_response, w')
          | ok (some resp) ↦ (
            selected (record resp {
              usage = total_usage T result.usage resp.usage;
              session_id = req.session_id;
              duration = (a.now w' - start) / 1000000;
            }),
            w',
          )
        ]
  ]

  unfoldable pub run : RunRequest T → W → Routed T (RunResponse T) × W
  unfolding run_selected
  run req w = elim a.routes [
    | [] ↦ (refused no_routes, w)
    | r ∷ rs ↦ elim a.route_func [
      | none ↦ (refused no_function, w)
      | some choose ↦ elim (a.poll w) [
        | some e ↦ (refused (cancelled e), w)
        | none ↦
            let (decision, w') = choose req (r ∷ rs) w in
            elim decision [
              | refused e ↦ (refused (selection_failed e), w')
              | selected none ↦ (refused nil_agent, w')
              | selected (some result) ↦ run_selected (a.now w) result req w'
            ]
      ]
    ]
  ]
