-- ===== src/Orchestrate/Dag/Liveness.antt =====
-- The executor from its start on (orchestrate/dag.go, `newDagExecutor` and `run`): every sequence
-- of completions respects the dependencies, ends, and never stalls on an acyclic graph.
use mathlib.Core.Path.{subst}
use vagent.Common.{
  ℕ, zero, suc, ◌+◌, ◌≤◌, ◌<◌, ◌≡◌, ◌⊎◌, refl, String, Bool, true, false, List, [], ◌∷◌, Option,
  none, some, arith, length, eq_iff, str_eq, Bool-cases, inl, inr, All,
}
use vagent.Schema.{Types, RunRequest, RunResponse, Outcome}
use vagent.Orchestrate.Node.{NodeStatus, pending, Node, node_of}
use vagent.Orchestrate.Topology.Degrees.{occurrences, HasDistinctIds, build_dag_maps_lem}
use vagent.Orchestrate.Dag.{
  Config, Executor, go_on, is_pending, is_running, start_ready, handle_completion, new_executor,
  lower_all, count_pending, resume,
}
use vagent.Orchestrate.Dag.Order.{
  is_settled, is_active, unsettled, count_status, count_status-pos, count_status_find,
}
use vagent.Orchestrate.Dag.Invariant.{IsConsistent, node_of-id}
use vagent.Orchestrate.Dag.Progress.{
  ids, fresh, count_status-le-length, start_ready-IsConsistent, completion-IsConsistent,
}

zero_or_pos : (n : ℕ) → (n ≡ 0) ⊎ (0 < n)
zero_or_pos zero = inl refl
zero_or_pos (suc n) = inr (omega arith)

-- The dependencies exist, and an order of the nodes puts them first: the graph is acyclic.
abbrev pub IsRanked : {T : Types} → List (Node T) → (String → ℕ) → Type 0
IsRanked {T} ns rank =
    All (λ n. All (λ d. (rank d < rank n.id) × ((m : Node T) × (node_of ns d ≡ some m))) n.deps) ns

-- What holds of every node holds of the one that an ID names.
pub All-node_of :
    {T : Types} (P : Node T → Type 0) (ns : List (Node T)) (x : String) {n : Node T}
    → All P ns
    → node_of ns x ≡ some n
    → P n
unfolding node_of
All-node_of P [] x h at = cc
All-node_of P (m ∷ ns) x {n} h at = elim (Bool-cases (str_eq m.id x)) [
  | inl here ↦ let same : m ≡ n = ground arith in subst P same h.0
  | inr there ↦ All-node_of P ns x {n = n} h.1 (rw there at at)
]

-- What holds of every known ID holds of every node.
All-nodes :
    {T : Types} (P : String → Type 0) (ns : List (Node T))
    → HasDistinctIds ns
    → ((x : String) (n : Node T) → node_of ns x ≡ some n → P x)
    → All (λ n. P n.id) ns
unfolding node_of
All-nodes P [] distinct f = tt
All-nodes P (m ∷ ns) distinct f = (
  f m.id m (ground (arith, eq_iff m.id m.id)),
  All-nodes P ns distinct.1 (λ x n at. f x n (ground (arith, eq_iff m.id x))),
)

module _ {T : Types} (cfg : Config T) (ns : List (Node T)) (req : RunRequest T) where
  lower_all_pending :
      (rest : List (Node T)) (degree : String → ℕ)
      → lower_all cfg ns req rest (λ x. pending) degree ≡ degree
  unfolding lower_all
  lower_all_pending [] degree = refl
  lower_all_pending (n ∷ rest) degree = lower_all_pending rest degree

  count_pending_all :
      (rest : List (Node T))
      → count_pending cfg ns req rest (λ x. pending) ≡ count_status is_active rest (λ x. pending)
  unfolding count_pending
  count_pending_all [] = refl
  count_pending_all (n ∷ rest) = rw (count_pending_all rest)

  unsettled_all : (ds : List String) → unsettled (λ x. pending) ds ≡ length ds
  unsettled_all [] = refl
  unsettled_all (d ∷ ds) = rw (unsettled_all ds)

  occurrences-ids :
      (rest : List (Node T)) (x : String) (n : Node T)
      → node_of rest x ≡ some n
      → 0 < occurrences x (ids rest)
  unfolding node_of
  occurrences-ids [] x n h = cc
  occurrences-ids (m ∷ rest) x n h = ground (arith, occurrences-ids rest x n)

  -- `newDagExecutor` with no checkpoint to resume from.
  new_executor-IsConsistent :
      HasDistinctIds ns
      → cfg.checkpoints ≡ none
      → IsConsistent ns fresh [] (ids ns) (new_executor cfg ns req)
  unfolding new_executor resume
  new_executor-IsConsistent distinct off =
      rw (off, new_executor, lower_all_pending, count_pending_all)
        (record {
          degrees = λ x n at.
              ground (arith, (build_dag_maps_lem ns x x distinct).1, unsettled_all n.deps);
          ready = λ x n at p z. occurrences-ids ns x n at;
          started = λ x n at p. absurd (cc);
          counted = refl;
          settling = λ x n at. inl refl;
        })

  -- The executor before the loop of `run`.
  abbrev pub started_executor : Executor T
  started_executor = start_ready cfg ns req ns (new_executor cfg ns req)

  -- The states of the loop after `k` completions of running nodes, in any order, all of which let
  -- the loop go on.
  pub data Reached : ℕ → Executor T → Type 0 where
    begin : Reached 0 started_executor
    complete :
        {k : ℕ} {s : Executor T}
        → Reached k s
        → (is_cancelled : Bool) (x : String) (n : Node T)
          (outcome : Outcome T (Option (RunResponse T)))
        → node_of ns x ≡ some n
        → is_running (s.status x) ≡ true
        → (handle_completion cfg ns req is_cancelled x outcome s).1 ≡ go_on
        → Reached (suc k) (handle_completion cfg ns req is_cancelled x outcome s).0

  module _ (distinct : HasDistinctIds ns) (off : cfg.checkpoints ≡ none) where
    started-IsConsistent : IsConsistent ns fresh [] [] started_executor
    started-IsConsistent =
        start_ready-IsConsistent cfg ns req distinct ns (new_executor cfg ns req)
          (new_executor-IsConsistent distinct off)

    Reached-IsConsistent :
        {k : ℕ} {s : Executor T}
        → Reached k s
        → IsConsistent ns fresh [] [] s × (k + s.remaining ≤ started_executor.remaining)
    Reached-IsConsistent begin = (started-IsConsistent, omega arith)
    Reached-IsConsistent (complete {s = s} r b x n o at runs v) =
        let (c, le) = Reached-IsConsistent r in
        let (c', less) = completion-IsConsistent cfg ns req distinct b x n o s at runs v c in
        (c', omega arith)

    unsettled-zero :
        (status : String → NodeStatus) (ds : List String)
        → unsettled status ds ≡ 0
        → All (λ d. is_settled (status d) ≡ true) ds
    unsettled-zero status [] h = tt
    unsettled-zero status (d ∷ ds) h = ground (arith, unsettled-zero status ds)

    -- In a graph with distinct IDs, run without checkpoints, and after any completions of running
    -- nodes that let the loop go on, a node that has left the pending state has only dependencies
    -- that are done or skipped.
    pub Reached-order :
        {k : ℕ} {s : Executor T}
        → Reached k s
        → (x : String) (n : Node T) → node_of ns x ≡ some n
        → is_pending (s.status x) ≡ false
        → All (λ d. is_settled (s.status d) ≡ true) n.deps
    Reached-order {s = s} r x n at p =
        unsettled-zero s.status n.deps (ground (arith, (Reached-IsConsistent r).0.started x n at p))

    -- In a graph with distinct IDs, run without checkpoints, the loop goes on after at most as
    -- many completions as there are nodes.
    pub Reached-bound : {k : ℕ} {s : Executor T} → Reached k s → k ≤ length ns
    Reached-bound r = omega (
      arith,
      Reached-IsConsistent r,
      started-IsConsistent.counted,
      count_status-le-length is_active ns started_executor.status,
    )

    unsettled_find :
        (P : String → Type 0) (status : String → NodeStatus) (ds : List String)
        → All P ds
        → 0 < unsettled status ds
        → (d : String) × P d × (is_settled (status d) ≡ false)
    unsettled_find P status [] h u = absurd (omega arith)
    unsettled_find P status (d ∷ ds) h u = elim (Bool-cases (is_settled (status d))) [
      | inl old ↦ unsettled_find P status ds h.1 (ground arith)
      | inr open_yet ↦ (d, h.0, open_yet)
    ]

    abbrev HasRunning : Executor T → Type 0
    HasRunning s =
        (x : String) × (n : Node T) × (node_of ns x ≡ some n) × (is_running (s.status x) ≡ true)

    -- A pending node waits, through its dependencies, for a node that runs.
    find_running :
        (rank : String → ℕ)
        → IsRanked ns rank
        → (s : Executor T) → IsConsistent ns fresh [] [] s
        → (fuel : ℕ) (x : String) (n : Node T) → rank x < fuel
        → node_of ns x ≡ some n
        → is_pending (s.status x) ≡ true
        → HasRunning s
    find_running rank ranked s c zero x n f at p = absurd (omega arith)
    find_running rank ranked s c (suc fuel) x n f at p =
        let waits : 0 < unsettled s.status n.deps =
          ground (arith, c.degrees x n at, c.ready x n at p) in
        let below_x : All (λ d. (rank d < rank x) × ((m : Node T) × (node_of ns d ≡ some m)))
            n.deps =
          subst
            (λ y. All (λ d. (rank d < rank y) × ((m : Node T) × (node_of ns d ≡ some m))) n.deps)
            (node_of-id ns distinct fresh ns x at)
            (All-node_of
              (λ k.
                All (λ d. (rank d < rank k.id) × ((m : Node T) × (node_of ns d ≡ some m))) k.deps)
              ns x {n = n} ranked at) in
        let (d, below, open_yet) =
          unsettled_find (λ d. (rank d < rank x) × ((m : Node T) × (node_of ns d ≡ some m)))
            s.status n.deps below_x waits in
        let (m, known) = below.1 in
        elim (Bool-cases (is_pending (s.status d))) [
          | inl pends ↦ find_running rank ranked s c fuel d m (omega arith) known pends
          | inr moved ↦ (d, m, known, ground (arith, c.settling d m known))
        ]

    -- In a graph with distinct IDs, run without checkpoints, whose dependencies all exist and rank
    -- below their dependents, the loop never stalls: after any completions of running nodes that
    -- let the loop go on, either no node is left to wait for and every node is done or skipped, or
    -- some node runs, whose completion the loop will receive.
    pub Reached-progress :
        (rank : String → ℕ)
        → IsRanked ns rank
        → {k : ℕ} {s : Executor T} → Reached k s
        → ((s.remaining ≡ 0) × All (λ n. is_settled (s.status n.id) ≡ true) ns)
          ⊎ ((x : String) × (n : Node T) × (node_of ns x ≡ some n)
              × (is_running (s.status x) ≡ true))
    Reached-progress rank ranked {s = s} r =
        let c = (Reached-IsConsistent r).0 in
        elim (zero_or_pos s.remaining) [
          | inl over ↦ inl (
            over,
            All-nodes (λ x. is_settled (s.status x) ≡ true) ns distinct
                (λ x n at. ground (
                  arith,
                  c.counted,
                  c.settling x n at,
                  count_status-pos is_active x s.status ns {m = n} at,
                )),
          )
          | inr more ↦
              let (m, at, active) =
                count_status_find is_active s.status ns distinct (omega arith) in
              elim (Bool-cases (is_pending (s.status m.id))) [
                | inl pends ↦
                    inr
                      (find_running rank ranked s c (suc (rank m.id)) m.id m (omega arith) at pends)
                | inr moved ↦ inr (m.id, m, at, ground arith)
              ]
        ]
