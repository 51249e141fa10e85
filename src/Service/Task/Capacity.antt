-- ===== src/Service/Task/Capacity.antt =====
-- The capacity of the task store (service/task.go, `Create`).
use vagent.Common.{
  ℕ, ◌≤◌, ◌<◌, ◌≡◌, ◌↔◌, refl, String, Bool, true, false, List, [], ◌∷◌, none, some, arith, length,
  str_eq, eq_iff, lookup, IsDistinct, IsNamed, lookup-insert, lookup-delete, length-delete-lt,
  length-insert-le, any_eligible, oldest, oldest-found, oldest-source, oldest-present, Bool-cases,
  inl, inr,
}
use vagent.Service.Task.{TaskStatus, Task, TaskStore, is_finished, evict_one, create}

module _ {R : Type 0} where
  abbrev pub finished : Task R → Bool
  finished t = is_finished t.status

  abbrev pub age : Task R → ℕ
  age t = t.updated_at

  abbrev pub any_finished : List (String × Task R) → Bool
  any_finished = any_eligible finished age

  none-eligible :
      (m : List (String × Task R)) (k : String) (v : Task R)
      → any_finished m ≡ false
      → lookup k m ≡ some v
      → finished v ≡ false
  unfolding lookup
  none-eligible [] k v h at = cc
  none-eligible (e ∷ m) k v h at = ground (arith, none-eligible m k v)

  -- A task is evicted exactly if one is finished.
  evict_one-found :
      (m : List (String × Task R)) → IsDistinct m → IsNamed m → (evict_one m).1 ≡ any_finished m
  unfolding evict_one
  evict_one-found m d n = elim (Bool-cases (any_finished m)) [
    | inl some_done ↦ ground (arith, oldest-found finished age ("", 0) m n)
    | inr none_done ↦ elim (oldest-source finished age ("", 0) m d) [
      | inl same ↦
          let unnamed : str_eq (oldest finished age ("", 0) m).0 "" ≡ true = rw same refl in
          rw (unnamed, none_done)
      | inr (v, at, fits, old) ↦ absurd (ground (arith, none-eligible m _ v none_done at))
    ]
  ]

  -- What is evicted is finished: a task that is not stays.
  evict_one-keeps :
      (m : List (String × Task R)) (k : String) (t : Task R)
      → IsDistinct m
      → IsNamed m
      → lookup k m ≡ some t
      → finished t ≡ false
      → lookup k (evict_one m).0 ≡ some t
  unfolding evict_one
  evict_one-keeps m k t d n at active =
      let key = (oldest finished age ("", 0) m).0 in
      elim (oldest-source finished age ("", 0) m d) [
        | inl same ↦ let unnamed : str_eq key "" ≡ true = rw same refl in rw unnamed at
        | inr (v, found, fits, old) ↦ ground (arith, lookup-delete key k m, eq_iff key k)
      ]

  length-evict_one :
      (m : List (String × Task R))
      → IsDistinct m
      → IsNamed m
      → any_finished m ≡ true
      → length (evict_one m).0 < length m
  unfolding evict_one
  length-evict_one m d n h =
      let (v, at, fits, old) = oldest-present finished age m d n h in
      rw (oldest-found finished age ("", 0) m n h)
        (length-delete-lt (oldest finished age ("", 0) m).0 m at)

  module _ (now : ℕ) (id agent_id : String) (has_cancel : Bool) (s : TaskStore R) where
    -- In a store whose keys are distinct and not empty, `Create` is refused exactly if the store
    -- has a capacity, is full, and every task in it is pending or running.
    create-refused :
        IsDistinct s.tasks
        → IsNamed s.tasks
        → ((create now id agent_id has_cancel s).1 ≡ none)
          ↔ ((0 < s.max_tasks) × (s.max_tasks ≤ length s.tasks) × (any_finished s.tasks ≡ false))
    unfolding create
    create-refused d n = (
      λ h. ground (arith, evict_one-found s.tasks d n),
      λ h. ground (arith, evict_one-found s.tasks d n),
    )

    -- With a positive capacity and keys that are distinct and not empty, a store within its
    -- capacity stays within it.
    length-create-le :
        IsDistinct s.tasks
        → IsNamed s.tasks
        → 0 < s.max_tasks
        → length s.tasks ≤ s.max_tasks
        → length (create now id agent_id has_cancel s).0.tasks ≤ s.max_tasks
    unfolding create
    length-create-le d n p h =
        let t : Task R = record {
          id = id;
          agent_id = agent_id;
          status = TaskStatus.pending;
          response = none;
          error = "";
          created_at = now;
          updated_at = now;
          has_cancel = has_cancel;
        } in
        ground (
          arith,
          evict_one-found s.tasks d n,
          length-evict_one s.tasks d n,
          length-insert-le id t s.tasks,
          length-insert-le id t (evict_one s.tasks).0,
        )

    -- In a store whose keys are distinct and not empty, `Create` with a new ID never loses or
    -- changes another task that is pending or running.
    pub lookup-create_active :
        (k : String) (t : Task R)
        → IsDistinct s.tasks
        → IsNamed s.tasks
        → str_eq id k ≡ false
        → lookup k s.tasks ≡ some t
        → finished t ≡ false
        → lookup k (create now id agent_id has_cancel s).0.tasks ≡ some t
    unfolding create
    lookup-create_active k t d n other at active =
        let fresh : Task R = record {
          id = id;
          agent_id = agent_id;
          status = TaskStatus.pending;
          response = none;
          error = "";
          created_at = now;
          updated_at = now;
          has_cancel = has_cancel;
        } in
        ground (
          arith,
          evict_one-keeps s.tasks k t d n at active,
          lookup-insert id k fresh s.tasks,
          lookup-insert id k fresh (evict_one s.tasks).0,
        )
