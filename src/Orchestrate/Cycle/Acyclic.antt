-- ===== src/Orchestrate/Cycle/Acyclic.antt =====
-- A search of an acyclic graph finds no cycle (orchestrate/dag.go, `detectCycle`).
use vagent.Common.{
  ℕ, zero, suc, ◌≤◌, ◌<◌, ◌≡◌, ◌≢◌, inl, inr, String, str_eq, eq_iff, List, [], ◌∷◌, arith,
  Bool-cases,
}
use vagent.Schema.{Types}
use vagent.Orchestrate.Node.{Node, update}
use vagent.Orchestrate.Cycle.{Color, gray, Search, cycle, visit_next, visit, visit_nodes}
use vagent.Orchestrate.Cycle.Steps.{Color-cases, Search-cases, Advance, visit-Advances}
use vagent.Orchestrate.Cycle.Sound.{In}

module _ (adj : String → List String) (rank : String → ℕ)
    (up : (x y : String) → In y (adj x) → rank x < rank y) where
  -- A visit from above the gray nodes finds no cycle.
  abbrev FindsNone : (String → (String → Color) → Search) → Type 0
  FindsNone step =
      (x : String) (color : String → Color) (y : String)
      → ((g : String) → color g ≡ gray → rank g < rank x)
      → step x color ≢ cycle y

  visit_next_acyclic :
      (step : String → (String → Color) → Search)
      → Advance adj step
      → FindsNone step
      → (id : String) (nexts : List String) (color : String → Color) (y : String)
      → ((z : String) → In z nexts → rank id < rank z)
      → ((g : String) → color g ≡ gray → rank g ≤ rank id)
      → visit_next step nexts color ≢ cycle y
  unfolding visit_next
  visit_next_acyclic step advance finds id [] color y above below = λ e. cc
  visit_next_acyclic step advance finds id (next ∷ rest) color y above below =
      let higher = above next (ground (arith, eq_iff next next)) in
      let above_rest = λ (z : String) (h : In z rest). above z (ground (arith, h)) in
      elim (Color-cases (color next)) [
        | inl new ↦ elim (Search-cases (step next color)) [
          | inl (color₁, fine) ↦
              let grays = (advance next color color₁ fine).0 in
              let goes =
                visit_next_acyclic step advance finds id rest color₁ y above_rest
                  (λ g h. below g (grays g h)) in
              λ e. goes (ground (arith, new, fine, e))
          | inr (inl (x, found)) ↦
              absurd (finds next color x (λ g h. omega (arith, below g h, higher)) found)
          | inr (inr empty) ↦ λ e. absurd (ground (arith, new, empty, e))
        ]
        | inr (inl on_path) ↦ absurd (omega (arith, below next on_path, higher))
        | inr (inr old) ↦
            let goes = visit_next_acyclic step advance finds id rest color y above_rest below in
            λ e. goes (ground (arith, old, e))
      ]

  visit_acyclic : (fuel : ℕ) → FindsNone (visit adj fuel)
  unfolding visit
  visit_acyclic zero x color y below = λ e. cc
  visit_acyclic (suc fuel) x color y below =
      let grays : (g : String) → update x gray color g ≡ gray → rank g ≤ rank x = λ g h.
        elim (Bool-cases (str_eq x g)) [
          | inl this ↦ let same : x ≡ g = (eq_iff x g).0 this in rw same (omega arith)
          | inr other ↦ omega (arith, below g (ground (arith, h, other)))
        ] in
      elim (Search-cases (visit_next (visit adj fuel) (adj x) (update x gray color))) [
        | inl (color₁, fine) ↦ λ e. absurd (ground (arith, fine, e))
        | inr (inl (z, found)) ↦ absurd (
            visit_next_acyclic (visit adj fuel) (visit-Advances adj fuel) (visit_acyclic fuel) x
              (adj x) (update x gray color) z (up x) grays found)
        | inr (inr empty) ↦ λ e. absurd (ground (arith, empty, e))
      ]

  pub visit_nodes_acyclic :
      {T : Types} (fuel : ℕ) (ns : List (Node T)) (color : String → Color) (y : String)
      → ((g : String) → color g ≢ gray)
      → visit_nodes adj fuel ns color ≢ cycle y
  unfolding visit_nodes
  visit_nodes_acyclic fuel [] color y none_gray = λ e. cc
  visit_nodes_acyclic fuel (n ∷ ns) color y none_gray = elim (Color-cases (color n.id)) [
    | inl new ↦ elim (Search-cases (visit adj fuel n.id color)) [
      | inl (color₁, fine) ↦
          let grays = (visit-Advances adj fuel n.id color color₁ fine).0 in
          let goes = visit_nodes_acyclic fuel ns color₁ y (λ g h. none_gray g (grays g h)) in
          λ e. goes (ground (arith, new, fine, e))
      | inr (inl (x, found)) ↦
          absurd (visit_acyclic fuel n.id color x (λ g h. absurd (none_gray g h)) found)
      | inr (inr empty) ↦ λ e. absurd (ground (arith, new, empty, e))
    ]
    | inr (inl on_path) ↦ absurd (none_gray n.id on_path)
    | inr (inr old) ↦
        let goes = visit_nodes_acyclic fuel ns color y none_gray in
        λ e. goes (ground (arith, old, e))
  ]
