-- ===== src/Orchestrate/Compensate/Sorted.antt =====
-- The order of `topologicalSort` (orchestrate/topo.go).
use vagent.Common.{
  ℕ, ◌+◌, ◌≤◌, ◌<◌, ◌≡◌, refl, inl, inr, String, str_eq, eq_iff, List, [], ◌∷◌, none, some, length,
  ◌==◌, arith, Bool-cases,
}
use vagent.Schema.{Types}
use vagent.Orchestrate.Node.{Node, node_of}
use vagent.Orchestrate.Topology.{build_dag_maps}
use vagent.Orchestrate.Topology.Degrees.{occurrences, HasDistinctIds, deps_of, build_dag_maps_lem}
use vagent.Orchestrate.Validation.{ids}
use vagent.Orchestrate.Compensate.{roots, topological_sort}
use vagent.Orchestrate.Compensate.Order.{
  IsTopological, start, IsSort, sort_queue-some, sort_queue-IsTopological,
}
use vagent.Orchestrate.Compensate.Placed.{missing_none, unplaced}

module _ {T : Types} where
  roots-single :
      (degree : String → ℕ) (x : String) (ms : List (Node T))
      → HasDistinctIds ms
      → (occurrences x (roots degree ms) ≤ 1)
        × (0 < occurrences x (roots degree ms) → degree x ≡ 0)
        × (node_of ms x ≡ none → occurrences x (roots degree ms) ≡ 0)
  unfolding roots node_of
  roots-single degree x [] distinct = (omega arith, (λ h. absurd (omega (arith, h))), λ h. refl)
  roots-single degree x (m ∷ ms) distinct =
      let (one, free, known) = roots-single degree x ms distinct.1 in
      elim (Bool-cases (str_eq m.id x)) [
        | inl this ↦
            let same : m.id ≡ x = (eq_iff m.id x).0 this in
            let fresh = known (rw same at distinct.0) in
            (
              ground (arith, this, fresh),
              λ h. ground (arith, this, fresh, h, same),
              λ h. absurd (ground (arith, this, h)),
            )
        | inr other ↦ (
          ground (arith, other, one),
          λ h. free (ground (arith, other, h)),
          λ h. ground (arith, other, known (ground (arith, other, h))),
        )
      ]

  roots-length :
      (degree : String → ℕ) (queue : List String) (ms : List (Node T))
      → ((x : String) → 0 < occurrences x (roots degree ms) → 0 < occurrences x queue)
      → length (roots degree ms) + unplaced [] queue (ids ms) ≤ length ms
  unfolding roots
  roots-length degree queue [] placed = omega arith
  roots-length degree queue (m ∷ ms) placed =
      let rest = roots-length degree queue ms (λ x h. placed x (ground (arith, h))) in
      elim (Bool-cases (degree m.id == 0)) [
        | inl free ↦ ground (arith, free, rest, placed m.id, eq_iff m.id m.id)
        | inr bound ↦ ground (arith, bound, rest)
      ]

  found-In :
      (ms : List (Node T)) (x y : String)
      → 0 < occurrences x (deps_of ms y)
      → 0 < occurrences y (ids ms)
  unfolding node_of
  found-In [] x y h = absurd (omega (arith, h))
  found-In (m ∷ ms) x y h = elim (Bool-cases (str_eq m.id y)) [
    | inl this ↦ ground (arith, this)
    | inr other ↦ ground (arith, other, found-In ms x y (ground (arith, other, h)))
  ]

  -- In a graph with distinct IDs, as much fuel as there are nodes is enough for the sort, and every
  -- node of its result stands after all of its dependencies.
  pub topological_sort-IsTopological :
      (ns : List (Node T))
      → HasDistinctIds ns
      → (order : List String) × (topological_sort (length ns) ns ≡ some order)
        × IsTopological ns order
  unfolding topological_sort
  topological_sort-IsTopological ns distinct =
      let (down, degree) = build_dag_maps ns in
      let queue = roots degree ns in
      let begin : IsSort ns [] queue [] degree = record {
        degrees =
            λ x. omega (arith, (build_dag_maps_lem ns x x distinct).1, missing_none (deps_of ns x));
        single = λ x. omega (arith, (roots-single degree x ns distinct).0);
        ready = λ x h. (roots-single degree x ns distinct).1 (omega (arith, h));
      } in
      let (order, fine) =
        sort_queue-some ns (ids ns) distinct (length ns) degree queue [] begin
          (λ x y h. found-In ns x y (rw (build_dag_maps_lem ns y x distinct).0 at h))
          (roots-length degree queue ns (λ x h. h)) in
      (
        order,
        fine,
        sort_queue-IsTopological ns distinct (length ns) degree queue [] order begin start fine,
      )
