-- ===== src/Orchestrate/Cycle/Fuel.antt =====
-- The recursion of the search for cycles is bounded by the nodes not yet visited (orchestrate/dag.go,
-- `detectCycle`).
use vagent.Common.{
  ℕ, zero, suc, ◌≤◌, ◌<◌, ◌≡◌, ◌≢◌, inl, inr, String, str_eq, eq_iff, List, [], ◌∷◌, map, arith,
  Bool-cases,
}
use vagent.Schema.{Types}
use vagent.Orchestrate.Node.{Node, update}
use vagent.Orchestrate.Cycle.{
  Color, white, gray, black, Search, out_of_fuel, visit_next, visit, visit_nodes,
}
use vagent.Orchestrate.Cycle.Steps.{Color-cases, Search-cases, Advance, visit-Advances}
use vagent.Orchestrate.Cycle.Sound.{In}

-- The white IDs of a list.
abbrev pub whites : List String → (String → Color) → ℕ
whites [] color = 0
whites (x ∷ xs) color =
    let rest = whites xs color in elim (color x) [ white ↦ suc rest | gray ↦ rest | black ↦ rest ]

whites-le :
    (xs : List String) (color color' : String → Color)
    → ((x : String) → color' x ≡ white → color x ≡ white)
    → whites xs color' ≤ whites xs color
whites-le [] color color' h = omega arith
whites-le (x ∷ xs) color color' h =
    ground (arith, h x, whites-le xs color color' h, Color-cases (color x), Color-cases (color' x))

whites-lt :
    (xs : List String) (color : String → Color) (x : String)
    → In x xs
    → color x ≡ white
    → whites xs (update x gray color) < whites xs color
whites-lt [] color x here new = absurd (omega (arith, here))
whites-lt (y ∷ ys) color x here new =
    let rest = whites-le ys color (update x gray color) (λ z h. ground (arith, h)) in
    elim (Bool-cases (str_eq y x)) [
      | inl this ↦
          let same : y ≡ x = (eq_iff y x).0 this in
          let stays : color y ≡ white = rw same new in ground (arith, this, rest, stays, eq_iff x y)
      | inr other ↦
          let less = whites-lt ys color x (ground (arith, here, other)) new in
          ground (arith, other, less, Color-cases (color y), eq_iff x y, eq_iff y x)
    ]

module _ (adj : String → List String) (universe : List String)
    (inside : (x y : String) → In y (adj x) → In y universe) where
  -- With as much fuel as there are white nodes, a white node is visited to the end.
  abbrev Lasts : ℕ → (String → (String → Color) → Search) → Type 0
  Lasts fuel step =
      (x : String) (color : String → Color)
      → In x universe
      → color x ≡ white
      → whites universe color ≤ fuel
      → step x color ≢ out_of_fuel

  visit_next-fuel :
      (fuel : ℕ) (step : String → (String → Color) → Search)
      → Advance adj step
      → Lasts fuel step
      → (nexts : List String) (color : String → Color) → ((y : String) → In y nexts → In y universe)
      → whites universe color ≤ fuel
      → visit_next step nexts color ≢ out_of_fuel
  unfolding visit_next
  visit_next-fuel fuel step advance lasts [] color known enough = λ e. cc
  visit_next-fuel fuel step advance lasts (next ∷ rest) color known enough =
      let known_rest = λ (y : String) (h : In y rest). known y (ground (arith, h)) in
      elim (Color-cases (color next)) [
        | inl new ↦ elim (Search-cases (step next color)) [
          | inl (color₁, fine) ↦
              let fewer = whites-le universe color color₁ (advance next color color₁ fine).1 in
              let goes =
                visit_next-fuel fuel step advance lasts rest color₁ known_rest
                  (omega (arith, fewer, enough)) in
              λ e. goes (ground (arith, new, fine, e))
          | inr (inl (x, found)) ↦ λ e. absurd (ground (arith, new, found, e))
          | inr (inr empty) ↦
              absurd
                (lasts next color (known next (ground (arith, eq_iff next next))) new enough empty)
        ]
        | inr (inl on_path) ↦ λ e. absurd (ground (arith, on_path, e))
        | inr (inr old) ↦
            let goes = visit_next-fuel fuel step advance lasts rest color known_rest enough in
            λ e. goes (ground (arith, old, e))
      ]

  visit-fuel : (fuel : ℕ) → Lasts fuel (visit adj fuel)
  unfolding visit
  visit-fuel zero x color here new enough =
      absurd (omega (arith, whites-lt universe color x here new, enough))
  visit-fuel (suc fuel) x color here new enough =
      let less = whites-lt universe color x here new in
      let goes =
        visit_next-fuel fuel (visit adj fuel) (visit-Advances adj fuel) (visit-fuel fuel) (adj x)
          (update x gray color) (inside x) (omega (arith, less, enough)) in
      elim (Search-cases (visit_next (visit adj fuel) (adj x) (update x gray color))) [
        | inl (color₁, fine) ↦ λ e. absurd (ground (arith, fine, e))
        | inr (inl (y, found)) ↦ λ e. absurd (ground (arith, found, e))
        | inr (inr empty) ↦ absurd (goes empty)
      ]

  pub visit_nodes-fuel :
      {T : Types} (fuel : ℕ) (ns : List (Node T)) (color : String → Color)
      → ((y : String) → In y (map (λ n. n.id) ns) → In y universe)
      → whites universe color ≤ fuel
      → visit_nodes adj fuel ns color ≢ out_of_fuel
  unfolding visit_nodes
  visit_nodes-fuel fuel [] color known enough = λ e. cc
  visit_nodes-fuel {T} fuel (n ∷ ns) color known enough =
      let known_rest =
        λ (y : String) (h : In y (map (λ n. n.id) ns)). known y (ground (arith, h)) in
      elim (Color-cases (color n.id)) [
        | inl new ↦ elim (Search-cases (visit adj fuel n.id color)) [
          | inl (color₁, fine) ↦
              let fewer =
                whites-le universe color color₁
                  (visit-Advances adj fuel n.id color color₁ fine).1 in
              let goes =
                visit_nodes-fuel fuel ns color₁ known_rest (omega (arith, fewer, enough)) in
              λ e. goes (ground (arith, new, fine, e))
          | inr (inl (x, found)) ↦ λ e. absurd (ground (arith, new, found, e))
          | inr (inr empty) ↦ absurd (
              visit-fuel fuel n.id color (known n.id (ground (arith, eq_iff n.id n.id))) new enough
                empty)
        ]
        | inr (inl on_path) ↦
            let goes = visit_nodes-fuel fuel ns color known_rest enough in
            λ e. goes (ground (arith, on_path, e))
        | inr (inr old) ↦
            let goes = visit_nodes-fuel fuel ns color known_rest enough in
            λ e. goes (ground (arith, old, e))
      ]
