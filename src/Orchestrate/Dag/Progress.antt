-- ===== src/Orchestrate/Dag/Progress.antt =====
-- The loop of `run` (orchestrate/dag.go): what holds between two completions, and that the loop
-- neither stalls nor runs for ever.
use mathlib.Core.Path.{fun_ext}
use vagent.Common.{
  ◌-◌, ◌≤◌, ◌<◌, ◌≡◌, refl, String, Bool, true, false, List, [], ◌∷◌, Option, some, arith, length,
  ◌==◌, ◌&&◌, ◌||◌, not, Bool-cases, Option-cases, inl, inr,
}
use vagent.Schema.{Types, RunRequest, RunResponse, Outcome, ok, err}
use vagent.Orchestrate.Node.{NodeStatus, done, failed, skipped, Node, update, node_of}
use vagent.Orchestrate.Topology.{build_dag_maps}
use vagent.Orchestrate.Topology.Degrees.{HasDistinctIds}
use vagent.Orchestrate.Dag.{
  Config, Executor, go_on, is_pending, is_running, start_ready, record_success, handle_success,
  handle_error, handle_completion, exits_early, is_optional, is_abort, node_complete, enqueue_ready,
  propagate_downstream,
}
use vagent.Orchestrate.Dag.Order.{is_settled, is_active, count_status, count_status-pos}
use vagent.Orchestrate.Dag.Invariant.{
  IsConsistent, IsConsistent-drop, IsConsistent-add, IsConsistent-settle,
}
use vagent.Orchestrate.Dag.Schedule.{schedule-Keeps, propagate-Keeps}

abbrev pub ids : {T : Types} → List (Node T) → List String
ids [] = []
ids (n ∷ ns) = n.id ∷ ids ns

pub count_status-le-length :
    {T : Types} (p : NodeStatus → Bool) (ns : List (Node T)) (status : String → NodeStatus)
    → count_status p ns status ≤ length ns
count_status-le-length p [] status = omega arith
count_status-le-length p (n ∷ ns) status = ground (arith, count_status-le-length p ns status)

update-update :
    (x : String) (v w : NodeStatus) (f : String → NodeStatus)
    → update x v (update x w f) ≡ update x v f
update-update x v w f = fun_ext (λ y. ground arith)

-- No node was done before the run.
abbrev pub fresh : String → Bool
fresh x = false

module _ {T : Types} (cfg : Config T) (ns : List (Node T)) (req : RunRequest T)
    (distinct : HasDistinctIds ns) where
  -- The first loop of `run` starts every node that is ready.
  pub start_ready-IsConsistent :
      (rest : List (Node T)) (s : Executor T)
      → IsConsistent ns fresh [] (ids rest) s
      → IsConsistent ns fresh [] [] (start_ready cfg ns req rest s)
  unfolding start_ready
  start_ready-IsConsistent [] s c = c
  start_ready-IsConsistent (n ∷ rest) s c =
      elim (Bool-cases (s.in_degree n.id == 0 && is_pending (s.status n.id))) [
        | inl is_ready ↦
            let (c', le, fewer) =
              schedule-Keeps cfg ns req distinct fresh (length ns) n.id [] (ids rest) s is_ready
                (count_status-le-length is_pending ns s.status) c in
            rw (is_ready, start_ready)
              (start_ready-IsConsistent rest (enqueue_ready cfg ns req n.id s) c')
        | inr idle ↦
            rw (idle, start_ready)
              (start_ready-IsConsistent rest s
                (IsConsistent-drop ns distinct fresh n.id [] (ids rest) s idle c))
      ]

  -- The state in which a completed node is settled, before the propagation.
  abbrev pub settle : String → NodeStatus → Executor T → Executor T
  settle x v s = record s { status = update x v s.status; remaining = s.remaining - 1 }

  settled-Keeps :
      (x : String) (n : Node T) (v : NodeStatus) (s s' : Executor T)
      → node_of ns x ≡ some n
      → is_running (s.status x) ≡ true
      → is_settled v ≡ true
      → s'.status ≡ update x v s.status
      → s'.in_degree ≡ s.in_degree
      → s'.remaining ≡ s.remaining - 1
      → IsConsistent ns fresh [] [] s
      → IsConsistent ns fresh [] [] (propagate_downstream cfg ns req x s')
        × ((propagate_downstream cfg ns req x s').remaining < s.remaining)
  settled-Keeps x n v s s' at r settles hs hd hr c =
      let c' = IsConsistent-add ns distinct fresh x [] [] s c in
      let owing =
        IsConsistent-settle ns distinct fresh x n v [] [] s at (ground arith) settles
          (ground (arith, c.started x n at)) c' in
      let positive = count_status-pos is_active x s.status ns at (ground arith) in
      let (k, le, fewer) =
        propagate-Keeps cfg ns req distinct fresh (length ns)
          (schedule-Keeps cfg ns req distinct fresh (length ns)) ((build_dag_maps ns).0 x) [] [] s'
          (count_status-le-length is_pending ns s'.status) (rw (hs, hd, hr) owing) in
      (k, omega (arith, c.counted))

  success_fields :
      (x : String) (resp : Option (RunResponse T)) (s : Executor T)
      → let s' = record_success cfg ns req x resp (record s { remaining = s.remaining - 1 }) in
        (s'.status ≡ update x done s.status)
        × (s'.in_degree ≡ s.in_degree)
        × (s'.remaining ≡ s.remaining - 1)
  unfolding record_success
  success_fields x resp s = elim (Option-cases cfg.checkpoints) [
    | inl off ↦ (rw off, rw off, rw off)
    | inr ((saves, save_fails), on) ↦ elim (Bool-cases (save_fails x)) [
      | inl bad ↦ (rw (on, bad), rw (on, bad), rw (on, bad))
      | inr good ↦ (rw (on, good), rw (on, good), rw (on, good))
    ]
  ]

  -- A completion after which the loop goes on keeps the invariant, and fewer nodes wait or run.
  pub completion-IsConsistent :
      (is_cancelled : Bool) (x : String) (n : Node T) (outcome : Outcome T (Option (RunResponse T)))
      (s : Executor T)
      → node_of ns x ≡ some n
      → is_running (s.status x) ≡ true
      → (handle_completion cfg ns req is_cancelled x outcome s).1 ≡ go_on
      → IsConsistent ns fresh [] [] s
      → IsConsistent ns fresh [] [] (handle_completion cfg ns req is_cancelled x outcome s).0
        × ((handle_completion cfg ns req is_cancelled x outcome s).0.remaining < s.remaining)
  unfolding handle_completion
  completion-IsConsistent is_cancelled x n (ok resp) s at r v c =
      let s' = record_success cfg ns req x resp (record s { remaining = s.remaining - 1 }) in
      let (hs, hd, hr) = success_fields x resp s in
      let kept = settled-Keeps x n done s s' at r refl hs hd hr c in
      elim (Bool-cases (exits_early cfg ns req x resp)) [
        | inl exits ↦ absurd (ground arith)
        | inr stays ↦ elim (Bool-cases is_cancelled) [
          | inl stops ↦ absurd (ground arith)
          | inr runs ↦ rw (stays, runs, handle_success) kept
        ]
      ]
  completion-IsConsistent is_cancelled x n (err e) s at r v c =
      let s' = record s {
        status = update x skipped (update x failed s.status);
        remaining = s.remaining - 1;
        events = node_complete x failed ∷ s.events;
      } in
      let kept =
        settled-Keeps x n skipped s s' at r refl (update-update x skipped failed s.status) refl refl
          c in
      elim (Bool-cases (is_abort cfg ns req cfg.error_strategy || not (is_optional cfg ns req x))) [
        | inl stops ↦ absurd (ground arith)
        | inr skips ↦ rw (skips, handle_error) kept
      ]
