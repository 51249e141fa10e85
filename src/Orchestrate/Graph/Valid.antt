-- ===== src/Orchestrate/Graph/Valid.antt =====
-- What the validation of a graph guarantees, to the executor too (orchestrate/orchestrate.go,
-- `ValidateDAG`).
use vagent.Common.{
  ℕ, ◌≡◌, ◌≢◌, refl, ◌⊎◌, inl, inr, String, true, List, [], ◌∷◌, none, some, All, arith,
  Option-cases,
}
use vagent.Schema.{Types, RunRequest}
use vagent.Orchestrate.Node.{Node, node_of}
use vagent.Orchestrate.Topology.Degrees.{HasDistinctIds}
use vagent.Orchestrate.Validation.{validate_references}
use vagent.Orchestrate.Validation.References.{validate_references_lem}
use vagent.Orchestrate.Cycle.{detect_cycle}
use vagent.Orchestrate.Cycle.Steps.{Search-cases}
use vagent.Orchestrate.Cycle.Decides.{detect_cycle_lem}
use vagent.Orchestrate.Connected
use vagent.Orchestrate.Connected.{Connection, check_connected}
use vagent.Orchestrate.Connected.Component.{Linked}
use vagent.Orchestrate.Connected.Edges.{dependent}
use vagent.Orchestrate.Connected.Whole.{check_connected_lem}
use vagent.Orchestrate.Graph.{valid, unfinished, validate_dag}
use vagent.Orchestrate.Dag.{Config, Executor, is_running}
use vagent.Orchestrate.Dag.Order.{is_settled}
use vagent.Orchestrate.Dag.Liveness.{IsRanked, Reached, Reached-progress}

Connection-cases :
    (c : Connection)
    → (c ≡ Connected.connected)
      ⊎ ((x : String) × (c ≡ Connected.disconnected x))
      ⊎ (c ≡ Connected.out_of_fuel)
Connection-cases Connected.connected = inl refl
Connection-cases (Connected.disconnected x) = inr (inl (x, refl))
Connection-cases Connected.out_of_fuel = inr (inr refl)

-- A path leads from the first node to each node, each step from a node to one that it depends on or
-- that depends on it.
abbrev pub IsConnected : {T : Types} → List (Node T) → Type 0
IsConnected [] = Unit
IsConnected (n ∷ ns) = All (λ m. Linked (dependent (n ∷ ns)) n.id m.id) (n ∷ ns)

module _ {T : Types} where
  check_connected-IsConnected :
      (ns : List (Node T))
      → validate_references ns ≡ none
      → (check_connected ns ≢ Connected.out_of_fuel)
        × (check_connected ns ≡ Connected.connected → IsConnected ns)
  check_connected-IsConnected [] fine = ((λ e. unfold check_connected in cc), (λ e. tt))
  check_connected-IsConnected (n ∷ ns) fine =
      let (distinct, known) = validate_references_lem (n ∷ ns) fine in
      check_connected_lem n ns distinct known

  -- The validation ends within its fuel. A graph that it accepts has no ID twice, its dependencies
  -- exist and are acyclic, as the nodes can be ranked with every dependency below its dependents,
  -- and it is one component: a path leads from the first node to each node, each step from a node to
  -- one that it depends on or that depends on it.
  pub validate_dag_lem :
      (ns : List (Node T))
      → (validate_dag ns ≢ unfinished)
        × (validate_dag ns ≡ valid
            → HasDistinctIds ns × ((rank : String → ℕ) × IsRanked ns rank) × IsConnected ns)
  unfolding validate_dag
  validate_dag_lem ns = elim (Option-cases (validate_references ns)) [
    | inr (e, broke) ↦
        ((λ h. absurd (ground (arith, broke, h))), (λ h. absurd (ground (arith, broke, h))))
    | inl fine ↦
        let (lasts, acyclic) = detect_cycle_lem ns fine in
        let (ends, linked) = check_connected-IsConnected ns fine in
        elim (Search-cases (detect_cycle ns)) [
          | inr (inr empty) ↦ absurd (lasts empty)
          | inr (inl (x, found)) ↦ (
            (λ h. absurd (ground (arith, fine, found, h))),
            (λ h. absurd (ground (arith, fine, found, h))),
          )
          | inl (color, done) ↦ elim (Connection-cases (check_connected ns)) [
            | inr (inr empty) ↦ absurd (ends empty)
            | inr (inl (x, left)) ↦ (
              λ h. absurd (ground (arith, fine, done, left, h)),
              λ h. absurd (ground (arith, fine, done, left, h)),
            )
            | inl whole ↦ (
              λ h. absurd (ground (arith, fine, done, whole, h)),
              λ h. ((validate_references_lem ns fine).0, acyclic.0 (color, done), linked whole),
            )
          ]
        ]
  ]

  -- On a graph that the validation accepts, run without checkpoints, the loop of the executor never
  -- stalls: after any completions of running nodes that let it go on, either no node is left to wait
  -- for and every node is done or skipped, or some node runs, whose completion the loop will receive.
  pub validated_progress :
      (cfg : Config T) (ns : List (Node T)) (req : RunRequest T)
      → validate_dag ns ≡ valid
      → cfg.checkpoints ≡ none
      → {k : ℕ} {s : Executor T} → Reached cfg ns req k s
      → ((s.remaining ≡ 0) × All (λ n. is_settled (s.status n.id) ≡ true) ns)
        ⊎ ((x : String) × (n : Node T) × (node_of ns x ≡ some n) × (is_running (s.status x) ≡ true))
  validated_progress cfg ns req accepted off r =
      let (distinct, ranks, whole) = (validate_dag_lem ns).1 accepted in
      Reached-progress cfg ns req distinct off ranks.0 ranks.1 r
