-- ===== src/Service/Task.antt =====
-- The store of asynchronous tasks (service/task.go). A method that changes the store returns the
-- new one. The clock is the argument `now`, and a new task's random ID the argument `id`; responses
-- `R` and error texts are opaque. `has_cancel` stands for a cancel function that is not nil.
mod Capacity
mod Lifecycle
mod Cancelled
mod Tests
use vagent.Common.{
  ℕ, String, Bool, true, false, not, ◌&&◌, ◌||◌, List, [], ◌∷◌, Option, none, some, ltb, leb,
  length, str_eq, lookup, insert, delete, oldest, if◌then◌else◌,
}

pub data TaskStatus : Type 0 where
  pending running completed failed cancelled : TaskStatus

pub record Task (R : Type 0) : Type 0 where
  pub id : String
  pub agent_id : String
  pub status : TaskStatus
  pub response : Option R
  pub error : String
  pub created_at : ℕ
  pub updated_at : ℕ
  pub has_cancel : Bool

pub record TaskStore (R : Type 0) : Type 0 where
  pub tasks : List (String × Task R)
  pub max_tasks : ℕ

unfoldable pub new_task_store : {R : Type 0} → ℕ → TaskStore R
new_task_store max_tasks = record { tasks = []; max_tasks = max_tasks }

-- The test of `evictOneLocked`, and its negation in `Cancel`.
abbrev pub is_finished : TaskStatus → Bool
is_finished completed = true
is_finished failed = true
is_finished cancelled = true
is_finished _ = false

-- `evictOneLocked`: the new map, and whether a task was evicted.
unfoldable pub evict_one : {R : Type 0} → List (String × Task R) → List (String × Task R) × Bool
evict_one m =
    let key = (oldest (λ t. is_finished t.status) (λ t. t.updated_at) ("", 0) m).0 in
    if str_eq key "" then (m, false) else (delete key m, true)

-- What `Create` does once there is room.
unfoldable pub add_task :
    {R : Type 0} → ℕ → String → String → Bool → TaskStore R → TaskStore R × Option (Task R)
add_task now id agent_id has_cancel s =
    let t : Task _ = record {
      id = id;
      agent_id = agent_id;
      status = pending;
      response = none;
      error = "";
      created_at = now;
      updated_at = now;
      has_cancel = has_cancel;
    } in
    (record s { tasks = insert id t s.tasks }, some t)

-- `Create`; no task stands for `ErrTooManyTasks`.
unfoldable pub create :
    {R : Type 0} → ℕ → String → String → Bool → TaskStore R → TaskStore R × Option (Task R)
unfolding evict_one add_task
create now id agent_id has_cancel s =
    if ltb 0 s.max_tasks && leb s.max_tasks (length s.tasks)
    then (let (m, evicted) = evict_one s.tasks in
        if evicted then add_task now id agent_id has_cancel (record s { tasks = m }) else (s, none))
    else add_task now id agent_id has_cancel s

-- `Get` returns a copy with no cancel function.
unfoldable pub get : {R : Type 0} → String → TaskStore R → Option (Task R)
get id s = elim (lookup id s.tasks) [
  | none ↦ none
  | some t ↦ some (record t { has_cancel = false })
]

unfoldable pub update_status : {R : Type 0} → ℕ → String → TaskStatus → TaskStore R → TaskStore R
update_status now id status s = elim (lookup id s.tasks) [
  | none ↦ s
  | some t ↦ record s { tasks = insert id (record t { status = status; updated_at = now }) s.tasks }
]

-- The result of a run: a response, or the text of an error.
pub data RunResult (R : Type 0) : Type 0 where
  answered : Option R → RunResult R
  broke : String → RunResult R

abbrev pub finish : {R : Type 0} → ℕ → RunResult R → Task R → Task R
finish now (answered resp) t = record t { updated_at = now; status = completed; response = resp }
finish now (broke text) t = record t { updated_at = now; status = failed; error = text }

abbrev pub is_cancelled : TaskStatus → Bool
is_cancelled cancelled = true
is_cancelled _ = false

unfoldable pub set_result : {R : Type 0} → ℕ → String → RunResult R → TaskStore R → TaskStore R
set_result now id r s = elim (lookup id s.tasks) [
  | none ↦ s
  | some t ↦
      if is_cancelled t.status then s else record s { tasks = insert id (finish now r t) s.tasks }
]

-- `Cancel`: the new store, whether the task was cancelled, and whether its cancel function was
-- called.
unfoldable pub cancel : {R : Type 0} → ℕ → String → TaskStore R → TaskStore R × Bool × Bool
cancel now id s = elim (lookup id s.tasks) [
  | none ↦ (s, false, false)
  | some t ↦ if is_finished t.status then (s, false, false) else (
    record s { tasks = insert id (record t { status = cancelled; updated_at = now }) s.tasks },
    true,
    t.has_cancel,
  )
]
