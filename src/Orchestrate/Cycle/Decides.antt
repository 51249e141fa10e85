-- ===== src/Orchestrate/Cycle/Decides.antt =====
-- The search for cycles decides whether a graph has one (orchestrate/dag.go, `detectCycle`).
use mathlib.Core.Path.{subst}
use vagent.Common.{
  ℕ, suc, ◌-◌, ◌<◌, ◌≡◌, ◌≢◌, sym, ap, refl, ◌↔◌, inl, inr, String, str_eq, eq_iff, true, false,
  List, [], ◌∷◌, length, length-map, All, none, some, arith, Bool-cases, Option-cases,
}
use vagent.Schema.{Types}
use vagent.Orchestrate.Node.{Node, node_of}
use vagent.Orchestrate.Topology.Degrees.{HasDistinctIds}
use vagent.Orchestrate.Dag.Liveness.{IsRanked, All-node_of}
use vagent.Orchestrate.Cycle.{Color, white, finished, cycle, out_of_fuel, adjacency, detect_cycle}
use vagent.Orchestrate.Validation.{has_id, ids, validate_references}
use vagent.Orchestrate.Validation.References.{validate_references_lem}
use vagent.Orchestrate.Dag.Invariant.{node_of-id}
use vagent.Orchestrate.Cycle.Fuel.{whites, visit_nodes-fuel}
use vagent.Orchestrate.Cycle.Acyclic.{visit_nodes_acyclic}
use vagent.Orchestrate.Cycle.Steps.{Search-cases}
use vagent.Orchestrate.Cycle.Sound.{
  In, position, position-lt, position_edge, visit_nodes-Explores, occurrences-adjacency,
}

All-In : (P : String → Type 0) (ds : List String) → ((d : String) → In d ds → P d) → All P ds
All-In P [] f = tt
All-In P (d ∷ ds) f =
    (f d (ground (arith, eq_iff d d)), All-In P ds (λ x h. f x (ground (arith, h))))

In-All : (P : String → Type 0) (ds : List String) (d : String) → All P ds → In d ds → P d
In-All P [] d all here = absurd (omega (arith, here))
In-All P (e ∷ ds) d all here = elim (Bool-cases (str_eq e d)) [
  | inl this ↦ let same : e ≡ d = (eq_iff e d).0 this in subst P same all.0
  | inr other ↦ In-All P ds d all.1 (ground (arith, here, other))
]

whites_all : (xs : List String) → whites xs (λ x. white) ≡ length xs
whites_all [] = refl
whites_all (x ∷ xs) = ap suc (whites_all xs)

module _ {T : Types} where
  -- What holds of every node that is found holds of every node.
  All-found :
      (P : Node T → Type 0) (ns : List (Node T))
      → HasDistinctIds ns
      → ((x : String) (n : Node T) → node_of ns x ≡ some n → P n)
      → All P ns
  unfolding node_of
  All-found P [] distinct f = tt
  All-found P (m ∷ ns) distinct f = (
    f m.id m (ground (arith, eq_iff m.id m.id)),
    All-found P ns distinct.1 (λ x n at. f x n (ground (arith, eq_iff m.id x))),
  )

  In-ids : (ns : List (Node T)) (x : String) (n : Node T) → node_of ns x ≡ some n → In x (ids ns)
  unfolding node_of
  In-ids [] x n at = cc
  In-ids (m ∷ ns) x n at = ground (arith, In-ids ns x n)

  found_id :
      (ns : List (Node T)) (x : String)
      → has_id (ids ns) x ≡ true
      → (n : Node T) × (node_of ns x ≡ some n)
  unfolding node_of has_id
  found_id [] x h = cc
  found_id (m ∷ ns) x h = elim (Bool-cases (str_eq m.id x)) [
    | inl this ↦ (m, ground (arith, this))
    | inr other ↦
        let (n, at) = found_id ns x (ground (arith, h, other)) in (n, ground (arith, at, other))
  ]

  module _ (ns : List (Node T)) (distinct : HasDistinctIds ns)
      (known : All (λ n. All (λ d. has_id (ids ns) d ≡ true) n.deps) ns) where
    abbrev adj : String → List String
    adj = adjacency ns (λ x. [])

    -- An edge ends in a node that has it among its dependencies.
    edge_node : (x y : String) → In y (adj x) → (n : Node T) × (node_of ns y ≡ some n) × In x n.deps
    edge_node x y edge =
        let same = occurrences-adjacency ns y x distinct in
        elim (Option-cases (node_of ns y)) [
          | inl missing ↦ absurd (ground (arith, edge, same, missing))
          | inr (n, at) ↦ (n, at, ground (arith, edge, same, at))
        ]

    detect_cycle_fuel : detect_cycle ns ≢ out_of_fuel
    unfolding detect_cycle
    detect_cycle_fuel =
        visit_nodes-fuel adj (ids ns)
          (λ x y edge. let (n, at, there) = edge_node x y edge in In-ids ns y n at) (length ns) ns
          (λ x. white) (λ y h. h) (omega (arith, whites_all (ids ns), length-map ns (λ n. n.id)))

    detect_cycle_acyclic :
        (rank : String → ℕ) (y : String) → IsRanked ns rank → detect_cycle ns ≢ cycle y
    unfolding detect_cycle
    detect_cycle_acyclic rank y ranked =
        let Below = λ (n : Node T).
          All (λ d. (rank d < rank n.id) × ((m : Node T) × (node_of ns d ≡ some m))) n.deps in
        visit_nodes_acyclic adj rank
          (λ x z edge.
            let (n, at, there) = edge_node x z edge in
            let below = In-All _ n.deps x (All-node_of Below ns z {n = n} ranked at) there in
            subst (λ i. rank x < rank i) (node_of-id ns distinct (λ s. false) ns z {n = n} at)
              below.0)
          (length ns) ns (λ x. white) y (λ g h. cc)

    detect_cycle-IsRanked :
        (color : String → Color)
        → detect_cycle ns ≡ finished color
        → (rank : String → ℕ) × IsRanked ns rank
    unfolding detect_cycle
    detect_cycle-IsRanked color done =
        let (order, covers, kept, all) =
          visit_nodes-Explores adj (length ns) ns (λ x. white) color [] done (λ x h. cc)
            ((λ x h. cc), tt) in
        let rank = λ (x : String). length order - position x order in
        let Below = λ (n : Node T).
          All (λ d. (rank d < rank n.id) × ((m : Node T) × (node_of ns d ≡ some m))) n.deps in
        let HasKnown = λ (n : Node T). All (λ d. has_id (ids ns) d ≡ true) n.deps in
        (
          rank,
          All-found Below ns distinct (λ x n at.
              let same = node_of-id ns distinct (λ s. false) ns x {n = n} at in
              let deps_known = All-node_of HasKnown ns x {n = n} known at in
              All-In (λ d. (rank d < rank n.id) × ((m : Node T) × (node_of ns d ≡ some m))) n.deps
                (λ d here.
                  let (m, found) = found_id ns d (In-All _ n.deps d deps_known here) in
                  let edge : In n.id (adj d) =
                    ground (
                      arith,
                      here,
                      occurrences-adjacency ns n.id d distinct,
                      rw (sym same) at at,
                    ) in
                  let below =
                    position_edge adj order d n.id covers.1 (all d (In-ids ns d m found)) edge in
                  let within = position-lt adj order d (all d (In-ids ns d m found)) in
                  (omega (arith, below, within), (m, found)))),
        )

  -- In a graph whose references pass the validation, the search for cycles ends within its fuel, and
  -- it finds no cycle exactly when the nodes can be ranked with every dependency below its
  -- dependents.
  pub detect_cycle_lem :
      (ns : List (Node T))
      → validate_references ns ≡ none
      → (detect_cycle ns ≢ out_of_fuel)
        × (((color : String → Color) × (detect_cycle ns ≡ finished color))
            ↔ ((rank : String → ℕ) × IsRanked ns rank))
  detect_cycle_lem ns valid =
      let (distinct, known) = validate_references_lem ns valid in
      let lasts = detect_cycle_fuel ns distinct known in
      (
        lasts,
        (
          λ (color, done). detect_cycle-IsRanked ns distinct known color done,
          λ (rank, ranked). elim (Search-cases (detect_cycle ns)) [
            | inl done ↦ done
            | inr (inl (y, found)) ↦
                absurd (detect_cycle_acyclic ns distinct known rank y ranked found)
            | inr (inr empty) ↦ absurd (lasts empty)
          ],
        ),
      )
