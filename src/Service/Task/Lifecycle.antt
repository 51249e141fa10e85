-- ===== src/Service/Task/Lifecycle.antt =====
-- The life of one task in the store (service/task.go) as the handlers drive it (service/handler.go).
use vagent.Common.{
  ℕ, ◌≡◌, ◌↔◌, ap, refl, String, true, false, Option, none, some, arith, eq_iff, lookup, insert,
  lookup-insert, Option-cases, inl, inr,
}
use vagent.Service.Task.{
  TaskStatus, running, completed, failed, cancelled, Task, TaskStore, is_finished, update_status,
  RunResult, answered, broke, finish, set_result, cancel,
}

module _ {R : Type 0} where
  -- The status of a task, if it is in the store.
  abbrev pub status_of : String → TaskStore R → Option TaskStatus
  status_of id s = elim (lookup id s.tasks) [ none ↦ none | some t ↦ some t.status ]

  -- Directly after a task was cancelled it is in the store as cancelled, and a result that is set
  -- next is dropped and a second cancellation refused, both without a change of the store.
  cancel_final :
      (now later : ℕ) (id : String) (r : RunResult R) (s : TaskStore R)
      → (cancel now id s).1 ≡ true
      → let s' = (cancel now id s).0 in
        (status_of id s' ≡ some cancelled)
        × (set_result later id r s' ≡ s')
        × (cancel later id s' ≡ (s', false, false))
  unfolding cancel set_result
  cancel_final now later id r s h = elim (Option-cases (lookup id s.tasks)) [
    | inl gone ↦ absurd (ground arith)
    | inr (t, at) ↦ ground (
      arith,
      lookup-insert id id (record t { status = cancelled; updated_at = now }) s.tasks,
      eq_iff id id,
    )
  ]

  -- A task can be cancelled exactly while it is pending or running.
  cancel_iff :
      (now : ℕ) (id : String) (s : TaskStore R) {t : Task R}
      → lookup id s.tasks ≡ some t
      → ((cancel now id s).1 ≡ true) ↔ (is_finished t.status ≡ false)
  unfolding cancel
  cancel_iff now id s {t} at = (λ h. ground arith, λ h. ground arith)

  abbrev pub outcome_status : RunResult R → TaskStatus
  outcome_status (answered resp) = completed
  outcome_status (broke text) = failed

  finish_status :
      (now : ℕ) (r : RunResult R) (t : Task R) → (finish now r t).status ≡ outcome_status r
  finish_status now (answered resp) t = refl
  finish_status now (broke text) t = refl

  -- The task holds the outcome of the run.
  abbrev pub Holds : RunResult R → Task R → Type 0
  Holds (answered resp) t = t.response ≡ resp
  Holds (broke text) t = t.error ≡ text

  finish-Holds : (now : ℕ) (r : RunResult R) (t : Task R) → Holds r (finish now r t)
  finish-Holds now (answered resp) t = refl
  finish-Holds now (broke text) t = refl

  -- A cancellation that succeeds between `Create` and the start of the task's goroutine is lost:
  -- the goroutine sets the status to running, and then the result of the run is stored.
  pub cancel_lost :
      (t₁ t₂ t₃ : ℕ) (id : String) (r : RunResult R) (s : TaskStore R)
      → (cancel t₁ id s).1 ≡ true
      → let s' = set_result t₃ id r (update_status t₂ id running (cancel t₁ id s).0) in
        (status_of id s' ≡ some (outcome_status r))
        × ((t : Task R) × (lookup id s'.tasks ≡ some t) × Holds r t)
  unfolding cancel set_result update_status
  cancel_lost t₁ t₂ t₃ id r s h = elim (Option-cases (lookup id s.tasks)) [
    | inl gone ↦ absurd (ground arith)
    | inr (t, at) ↦
        let t' = record t { status = cancelled; updated_at = t₁ } in
        let m = insert id t' s.tasks in
        let t'' = record t' { status = running; updated_at = t₂ } in
        let m' = insert id t'' m in
        let kept : lookup id
              (set_result t₃ id r (update_status t₂ id running (cancel t₁ id s).0)).tasks
            ≡ some (finish t₃ r t'') =
          ground (
            arith,
            lookup-insert id id t' s.tasks,
            lookup-insert id id t'' m,
            lookup-insert id id (finish t₃ r t'') m',
            eq_iff id id,
          ) in
        (
          rw (kept, status_of) (ap some (finish_status t₃ r t'')),
          (finish t₃ r t'', kept, finish-Holds t₃ r t''),
        )
  ]
