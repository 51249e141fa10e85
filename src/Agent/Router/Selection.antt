-- ===== src/Agent/Router/Selection.antt =====
-- Which agent a routing function selects (agent/routeragent/routefunc.go).
use vagent.Common.{
  ℕ, zero, suc, ◌<◌, ◌≡◌, refl, inl, inr, String, List, [], ◌∷◌, Option, none, some, length,
  get_elem?, arith, Option-cases,
}
use vagent.Schema.{Types, RunRequest, Outcome, Outcome-cases}
use vagent.Agent.Router.{
  Route, Routed, RouteResult, RouteError, llm_failed, empty_choices, not_a_number, index_refused,
  select_route, fall_back, last_text, llm_func,
}

get_elem?-lt :
    {A : Type 0} (xs : List A) (i : ℕ) → i < length xs → (x : A) × (get_elem? xs i ≡ some x)
get_elem?-lt [] i h = absurd (omega (arith, h))
get_elem?-lt (x ∷ xs) zero h = (x, refl)
get_elem?-lt (x ∷ xs) (suc i) h = get_elem?-lt xs i (omega (arith, h))

module _ {T : Types} {W : Type 0} where
  -- A decision for a route that stands in the list.
  abbrev pub Selects : List (Route T W) → Routed T (Option (RouteResult T W)) → Type 0
  Selects routes d =
      (i : ℕ) × (r : Route T W) × (usage : Option T.Usage) × (get_elem? routes i ≡ some r)
      × (d ≡ select_route usage r)

  fall_back-Selects :
      (usage : Option T.Usage) (e : RouteError T) (i : ℕ) (routes : List (Route T W))
      → i < length routes
      → Selects routes (fall_back usage e (some i) routes)
  fall_back-Selects usage e i routes h =
      let (r, at) = get_elem?-lt routes i h in (i, r, usage, at, ground (arith, at))

  -- With a fallback in range, the model cannot make the routing fail: whether it fails, answers with
  -- no choice, with no number or with a number out of range, a route of the list is selected.
  pub llm_func-Selects :
      (text_of : T.Message → String)
      (ask : List (Route T W) → String → W → Outcome T (T.Usage × Option String) × W)
      (atoi : String → Option (Option ℕ)) (fallback : ℕ) (req : RunRequest T)
      (routes : List (Route T W)) (w : W)
      → fallback < length routes
      → Selects routes (llm_func text_of ask atoi (some fallback) req routes w).0
  unfolding llm_func
  llm_func-Selects text_of ask atoi fallback req [] w h = absurd (omega (arith, h))
  llm_func-Selects text_of ask atoi fallback req (r ∷ rs) w h =
      let routes = r ∷ rs in
      let decide = (llm_func text_of ask atoi (some fallback) req routes w).0 in
      let falls : (usage : Option T.Usage) (e : RouteError T)
          → decide ≡ fall_back usage e (some fallback) routes
          → Selects routes decide =
        λ usage e same. rw same (fall_back-Selects usage e fallback routes h) in
      elim (Outcome-cases (ask routes (last_text text_of req.messages) w).0) [
        | inr (e, broke) ↦ falls none (llm_failed e) (ground (arith, broke))
        | inl ((usage, choice), fine) ↦ elim (Option-cases choice) [
          | inl missing ↦ falls (some usage) empty_choices (ground (arith, fine, missing))
          | inr (text, there) ↦ elim (Option-cases (atoi text)) [
            | inl bad ↦ falls (some usage) (not_a_number text) (ground (arith, fine, there, bad))
            | inr (number, read) ↦ elim (Option-cases number) [
              | inl negative ↦
                  falls (some usage) index_refused (ground (arith, fine, there, read, negative))
              | inr (i, index) ↦ elim (Option-cases (get_elem? routes i)) [
                | inl past ↦
                    falls (some usage) index_refused
                      (ground (arith, fine, there, read, index, past))
                | inr (found, at) ↦
                    (i, found, some usage, at, ground (arith, fine, there, read, index, at))
              ]
            ]
          ]
        ]
      ]
