-- ===== src/Service/Task/Cancelled.antt =====
-- What becomes of a task that was cancelled (service/task.go).
use vagent.Common.{
  ℕ, ◌≡◌, ◌⊎◌, inl, inr, refl, String, Bool, true, false, List, [], ◌∷◌, none, some, arith, All,
  str_eq, eq_iff, lookup, lookup-insert, lookup-delete, oldest, Option-cases,
}
use vagent.Service.Task.{
  TaskStatus, pending, cancelled, Task, TaskStore, is_finished, evict_one, create, update_status,
  RunResult, finish, set_result, cancel,
}

-- The operations that change the store.
pub data Change (R : Type 0) : Type 0 where
  creates : ℕ → String → String → Bool → Change R
  updates : ℕ → String → TaskStatus → Change R
  results : ℕ → String → RunResult R → Change R
  cancels : ℕ → String → Change R

module _ {R : Type 0} where
  abbrev pub change : Change R → TaskStore R → TaskStore R
  change (creates now id agent_id has_cancel) s = (create now id agent_id has_cancel s).0
  change (updates now id status) s = update_status now id status s
  change (results now id r) s = set_result now id r s
  change (cancels now id) s = (cancel now id s).0

  abbrev pub changes : List (Change R) → TaskStore R → TaskStore R
  changes [] s = s
  changes (c ∷ cs) s = changes cs (change c s)

  -- A change that neither creates the task nor updates its status.
  abbrev pub Leaves : String → Change R → Type 0
  Leaves id (creates now k agent_id has_cancel) = str_eq k id ≡ false
  Leaves id (updates now k status) = str_eq k id ≡ false
  Leaves id (results now k r) = Unit {0}
  Leaves id (cancels now k) = Unit {0}

  -- A task was created, which may evict another one.
  abbrev pub any_created : List (Change R) → Bool
  any_created [] = false
  any_created (creates now id agent_id has_cancel ∷ cs) = true
  any_created (updates now id status ∷ cs) = any_created cs
  any_created (results now id r ∷ cs) = any_created cs
  any_created (cancels now id ∷ cs) = any_created cs

  -- The task is as it was, or it is gone, which an eviction alone explains.
  abbrev pub Stays : Bool → String → Task R → TaskStore R → Type 0
  Stays evicts id t s =
      (lookup id s.tasks ≡ some t) ⊎ ((lookup id s.tasks ≡ none) × (evicts ≡ true))

  create-Stays :
      (evicts : Bool) (now : ℕ) (k agent_id : String) (has_cancel : Bool) (id : String) (t : Task R)
      (s : TaskStore R)
      → str_eq k id ≡ false
      → evicts ≡ true
      → Stays evicts id t s
      → Stays evicts id t (create now k agent_id has_cancel s).0
  unfolding create evict_one
  create-Stays evicts now k agent_id has_cancel id t s other may stays =
      let fresh : Task R = record {
        id = k;
        agent_id = agent_id;
        status = pending;
        response = none;
        error = "";
        created_at = now;
        updated_at = now;
        has_cancel = has_cancel;
      } in
      let victim = (oldest (λ t. is_finished t.status) (λ t. t.updated_at) ("", 0) s.tasks).0 in
      ground (
        arith,
        stays,
        other,
        may,
        lookup-delete victim id s.tasks,
        lookup-insert k id fresh s.tasks,
        lookup-insert k id fresh (evict_one s.tasks).0,
      )

  update_status-Stays :
      (evicts : Bool) (now : ℕ) (k : String) (status : TaskStatus) (id : String) (t : Task R)
      (s : TaskStore R)
      → str_eq k id ≡ false
      → Stays evicts id t s
      → Stays evicts id t (update_status now k status s)
  unfolding update_status
  update_status-Stays evicts now k status id t s other stays =
      elim (Option-cases (lookup k s.tasks)) [
        | inl gone ↦ ground (arith, gone, stays)
        | inr (v, at) ↦
            let v' : Task R = record v { status = status; updated_at = now } in
            ground (arith, at, other, stays, lookup-insert k id v' s.tasks)
      ]

  set_result-Stays :
      (evicts : Bool) (now : ℕ) (k : String) (r : RunResult R) (id : String) (t : Task R)
      (s : TaskStore R)
      → t.status ≡ cancelled
      → Stays evicts id t s
      → Stays evicts id t (set_result now k r s)
  unfolding set_result
  set_result-Stays evicts now k r id t s over stays = elim (Option-cases (lookup k s.tasks)) [
    | inl gone ↦ ground (arith, gone, stays)
    | inr (v, at) ↦
        ground (arith, at, over, stays, eq_iff k id, lookup-insert k id (finish now r v) s.tasks)
  ]

  cancel-Stays :
      (evicts : Bool) (now : ℕ) (k id : String) (t : Task R) (s : TaskStore R)
      → t.status ≡ cancelled
      → Stays evicts id t s
      → Stays evicts id t (cancel now k s).0
  unfolding cancel
  cancel-Stays evicts now k id t s over stays = elim (Option-cases (lookup k s.tasks)) [
    | inl gone ↦ ground (arith, gone, stays)
    | inr (v, at) ↦
        let v' : Task R = record v { status = cancelled; updated_at = now } in
        ground (arith, at, over, stays, eq_iff k id, lookup-insert k id v' s.tasks)
  ]

  changes-Stays :
      (cs : List (Change R)) (evicts : Bool) (id : String) (t : Task R) (s : TaskStore R)
      → t.status ≡ cancelled
      → All (Leaves id) cs
      → (any_created cs ≡ true → evicts ≡ true)
      → Stays evicts id t s
      → Stays evicts id t (changes cs s)
  changes-Stays [] evicts id t s over leave why stays = stays
  changes-Stays (creates now k agent_id has_cancel ∷ cs) evicts id t s over leave why stays =
      let may : evicts ≡ true = why refl in
      changes-Stays cs evicts id t (create now k agent_id has_cancel s).0 over leave.1 (λ h. may)
        (create-Stays evicts now k agent_id has_cancel id t s leave.0 may stays)
  changes-Stays (updates now k status ∷ cs) evicts id t s over leave why stays =
      changes-Stays cs evicts id t (update_status now k status s) over leave.1 why
        (update_status-Stays evicts now k status id t s leave.0 stays)
  changes-Stays (results now k r ∷ cs) evicts id t s over leave why stays =
      changes-Stays cs evicts id t (set_result now k r s) over leave.1 why
        (set_result-Stays evicts now k r id t s over stays)
  changes-Stays (cancels now k ∷ cs) evicts id t s over leave why stays =
      changes-Stays cs evicts id t (cancel now k s).0 over leave.1 why
        (cancel-Stays evicts now k id t s over stays)

  -- When a task has been cancelled, it keeps its status, its response and its error through any
  -- changes of the store, later results and cancellations of the task included, as long as none
  -- updates its status or creates a task with its ID; it can be gone only if some task was created.
  pub changes-cancel-Stays :
      (now : ℕ) (id : String) (cs : List (Change R)) (s : TaskStore R) {t : Task R}
      → lookup id s.tasks ≡ some t
      → (cancel now id s).1 ≡ true
      → All (Leaves id) cs
      → Stays
          (any_created cs)
          id
          (record t { status = cancelled; updated_at = now })
          (changes cs (cancel now id s).0)
  changes-cancel-Stays now id cs s {t} at done leave =
      let t' : Task R = record t { status = cancelled; updated_at = now } in
      changes-Stays cs (any_created cs) id t' (cancel now id s).0 refl leave (λ h. h)
        (inl
          (unfold cancel in ground (arith, at, done, eq_iff id id, lookup-insert id id t' s.tasks)))
