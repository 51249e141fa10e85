-- ===== src/Orchestrate/Dag/Schedule.antt =====
-- `scheduleReady` and `propagateDownstream` keep the invariant of the scheduler
-- (orchestrate/dag.go).
use vagent.Common.{
  ℕ, zero, suc, ◌-◌, ◌≤◌, ◌≡◌, refl, String, Bool, true, false, List, [], ◌∷◌, ◌++◌, none, some,
  arith, eq_iff, ◌==◌, ◌&&◌, Bool-cases, Option-cases, inl, inr,
}
use vagent.Schema.{Types, RunRequest, Outcome-cases}
use vagent.Orchestrate.Node.{running, skipped, Node, update, node_of}
use vagent.Orchestrate.Topology.{build_dag_maps}
use vagent.Orchestrate.Topology.Degrees.{HasDistinctIds}
use vagent.Orchestrate.Dag.{
  Config, Executor, is_pending, condition_holds, build_node_input, launch, propagate, schedule,
}
use vagent.Orchestrate.Dag.Order.{count_status, count_status-update, count_status-pos}
use vagent.Orchestrate.Dag.Invariant.{
  IsConsistent, IsConsistent-drop, IsConsistent-drop_unknown, IsConsistent-decrement,
  IsConsistent-run, IsConsistent-settle, node_of-id,
}

module _ {T : Types} (cfg : Config T) (ns : List (Node T)) (req : RunRequest T) where
  pub launch_fields :
      (n : Node T) (s : Executor T)
      → ((launch cfg ns req n s).status ≡ update n.id running s.status)
        × ((launch cfg ns req n s).in_degree ≡ s.in_degree)
        × ((launch cfg ns req n s).remaining ≡ s.remaining)
  unfolding launch
  launch_fields n s = elim (Outcome-cases (build_node_input n req s.results)) [
    | inl (input, e) ↦ (rw (e, launch), rw (e, launch), rw (e, launch))
    | inr (failure, e) ↦ (rw (e, launch), rw (e, launch), rw (e, launch))
  ]

  schedule_unknown :
      (fuel : ℕ) (x : String) (s : Executor T)
      → node_of ns x ≡ none
      → schedule cfg ns req fuel x s ≡ s
  unfolding schedule
  schedule_unknown zero x s h = refl
  schedule_unknown (suc fuel) x s h = rw (h, schedule)

  schedule_launches :
      (fuel : ℕ) (x : String) (n : Node T) (s : Executor T)
      → node_of ns x ≡ some n
      → is_pending (s.status x) ≡ true
      → condition_holds n s.results ≡ true
      → schedule cfg ns req (suc fuel) x s ≡ launch cfg ns req n s
  unfolding schedule
  schedule_launches fuel x n s h p c = ground arith

  -- The state after a ready node is skipped, before the propagation.
  abbrev pub skip_node : String → Executor T → Executor T
  skip_node x s = record s { status = update x skipped s.status; remaining = s.remaining - 1 }

  schedule_skips :
      (fuel : ℕ) (x : String) (n : Node T) (s : Executor T)
      → node_of ns x ≡ some n
      → is_pending (s.status x) ≡ true
      → condition_holds n s.results ≡ false
      → schedule cfg ns req (suc fuel) x s
        ≡ propagate cfg ns req (schedule cfg ns req fuel) ((build_dag_maps ns).0 x) (skip_node x s)
  unfolding schedule
  schedule_skips fuel x n s h p c = ground arith

  abbrev pub decrement : String → Executor T → Executor T
  decrement d s = record s { in_degree = update d (s.in_degree d - 1) s.in_degree }

  module _ (step : String → Executor T → Executor T) where
    propagate_ready :
        (d : String) (ds : List String) (s : Executor T)
        → (s.in_degree d - 1 == 0 && is_pending (s.status d)) ≡ true
        → propagate cfg ns req step (d ∷ ds) s
          ≡ propagate cfg ns req step ds (step d (decrement d s))
    unfolding propagate
    propagate_ready d ds s h = rw h

    propagate_idle :
        (d : String) (ds : List String) (s : Executor T)
        → (s.in_degree d - 1 == 0 && is_pending (s.status d)) ≡ false
        → propagate cfg ns req step (d ∷ ds) s ≡ propagate cfg ns req step ds (decrement d s)
    unfolding propagate
    propagate_idle d ds s h = rw h

  module _ (distinct : HasDistinctIds ns) (resumed : String → Bool) where
    -- What a step of the scheduler guarantees: the invariant, and no new pending or active node.
    abbrev pub Keeps : List String → List String → Executor T → Executor T → Type 0
    Keeps owed waiting s s' =
        IsConsistent ns resumed owed waiting s'
        × (count_status is_pending ns s'.status ≤ count_status is_pending ns s.status)
        × (s'.remaining ≤ s.remaining)

    launch-Keeps :
        (x : String) (n : Node T) (owed waiting : List String) (s : Executor T)
        → node_of ns x ≡ some n
        → is_pending (s.status x) ≡ true
        → s.in_degree x ≡ 0
        → IsConsistent ns resumed owed (x ∷ waiting) s
        → Keeps owed waiting s (launch cfg ns req n s)
    launch-Keeps x n owed waiting s at p z c =
        let (l, d, r) = launch_fields n s in
        rw (l, d, r, node_of-id ns distinct resumed ns x at)
          (
            IsConsistent-run ns distinct resumed x n owed waiting s at p z c,
            ground (arith, count_status-update is_pending x running s.status ns distinct at),
            omega arith,
          )

    abbrev pub ScheduleKeeps : ℕ → Type 0
    ScheduleKeeps fuel =
        (x : String) (owed waiting : List String) (s : Executor T)
        → (s.in_degree x == 0 && is_pending (s.status x)) ≡ true
        → count_status is_pending ns s.status ≤ fuel
        → IsConsistent ns resumed owed (x ∷ waiting) s
        → Keeps owed waiting s (schedule cfg ns req fuel x s)

    pub propagate-Keeps :
        (fuel : ℕ)
        → ScheduleKeeps fuel
        → (ds owed waiting : List String) (s : Executor T)
        → count_status is_pending ns s.status ≤ fuel
        → IsConsistent ns resumed (ds ++ owed) waiting s
        → Keeps owed waiting s (propagate cfg ns req (schedule cfg ns req fuel) ds s)
    unfolding propagate
    propagate-Keeps fuel step [] owed waiting s f c = (c, omega arith, omega arith)
    propagate-Keeps fuel step (d ∷ ds) owed waiting s f c =
        let s' = decrement d s in
        let lowered = IsConsistent-decrement ns distinct resumed d (ds ++ owed) waiting s c in
        elim (Bool-cases (s.in_degree d - 1 == 0 && is_pending (s.status d))) [
          | inl is_ready ↦
              let (c', le, fewer) =
                step d (ds ++ owed) waiting s' (ground (arith, eq_iff d d)) f lowered in
              let (c'', le', fewer') =
                propagate-Keeps fuel step ds owed waiting (schedule cfg ns req fuel d s')
                  (omega arith) c' in
              rw (propagate_ready (schedule cfg ns req fuel) d ds s is_ready)
                (c'', omega arith, omega arith)
          | inr idle ↦ rw (propagate_idle (schedule cfg ns req fuel) d ds s idle) (
              propagate-Keeps fuel step ds owed waiting s' f (
                IsConsistent-drop ns distinct resumed d (ds ++ owed) waiting s'
                  (ground (arith, eq_iff d d)) lowered))
        ]

    -- With as much fuel as there are pending nodes, scheduling a ready node keeps the invariant.
    pub schedule-Keeps : (fuel : ℕ) → ScheduleKeeps fuel
    schedule-Keeps zero x owed waiting s is_ready f c = elim (Option-cases (node_of ns x)) [
      | inl unknown ↦ rw (schedule_unknown zero x s unknown) (
        IsConsistent-drop_unknown ns distinct resumed x owed waiting s unknown c,
        omega arith,
        omega arith,
      )
      | inr (n, at) ↦
          absurd (omega (arith, count_status-pos is_pending x s.status ns at (ground arith)))
    ]
    schedule-Keeps (suc fuel) x owed waiting s is_ready f c = elim (Option-cases (node_of ns x)) [
      | inl unknown ↦ rw (schedule_unknown (suc fuel) x s unknown) (
        IsConsistent-drop_unknown ns distinct resumed x owed waiting s unknown c,
        omega arith,
        omega arith,
      )
      | inr (n, at) ↦ elim (Bool-cases (condition_holds n s.results)) [
        | inl holds ↦
            rw (schedule_launches fuel x n s at (ground arith) holds)
              (launch-Keeps x n owed waiting s at (ground arith) (ground arith) c)
        | inr skips ↦
            let fewer = count_status-update is_pending x skipped s.status ns distinct at in
            let (c', le, less) =
              propagate-Keeps fuel (schedule-Keeps fuel) ((build_dag_maps ns).0 x) owed waiting
                (skip_node x s) (ground arith)
                (IsConsistent-settle ns distinct resumed x n skipped owed waiting s at
                  (ground arith) refl (ground (arith, c.degrees x n at)) c) in
            rw (schedule_skips fuel x n s at (ground arith) skips) (c', ground arith, omega arith)
      ]
    ]
