-- ===== src/Service/Task/Tests.antt =====
-- The task store at concrete inputs (service/task.go).
use vagent.Common.{ℕ, ◌≡◌, refl, String, true, false, List, [], ◌∷◌, none, some, lookup}
use vagent.Service.Task.{
  TaskStatus, pending, running, completed, cancelled, Task, TaskStore, new_task_store, add_task,
  create, get, update_status, answered, set_result, cancel,
}
use vagent.Service.Task.Capacity.{lookup-create_active}
use vagent.Service.Task.Lifecycle.{status_of, cancel_lost}
use vagent.Service.Task.Cancelled.{
  Change, creates, updates, results, cancels, changes, Stays, changes-cancel-Stays,
}

abbrev task : String → TaskStatus → ℕ → Task ℕ
task id status at = record {
  id = id;
  agent_id = "agent";
  status = status;
  response = none;
  error = "";
  created_at = at;
  updated_at = at;
  has_cancel = true;
}

-- A full store: one task runs and one is done.
abbrev full_store : TaskStore ℕ
full_store = record {
  tasks = ("a", task "a" running 10) ∷ ("b", task "b" completed 20) ∷ [];
  max_tasks = 2;
}

first_task : (create 5 "a" "agent" true (new_task_store {R = ℕ} 2)).1 ≡ some (task "a" pending 5)
unfolding create new_task_store add_task
first_task = refl

hides_cancel : get "a" full_store ≡ some (record (task "a" running 10) { has_cancel = false })
unfolding get lookup
hides_cancel = refl

lookup-create_active_example :
    lookup "a" (create 30 "c" "agent" true full_store).0.tasks ≡ some (task "a" running 10)
lookup-create_active_example =
    lookup-create_active 30 "c" "agent" true full_store "a" (task "a" running 10)
      (unfold lookup in (refl, (refl, tt))) (refl, (refl, tt)) refl (unfold lookup in refl) refl

-- A new task, an update of another one, the result of the cancelled one, and its cancellation.
abbrev busy : List (Change ℕ)
busy =
    creates 35 "c" "agent" true
    ∷ updates 36 "c" running
    ∷ results 40 "a" (answered (some 7))
    ∷ cancels 41 "a"
    ∷ []

changes-cancel-Stays_example :
    Stays true "a"
      (record (task "a" running 10) { status = cancelled; updated_at = 30 })
      (changes busy (cancel 30 "a" full_store).0)
changes-cancel-Stays_example =
    changes-cancel-Stays 30 "a" busy full_store {t = task "a" running 10} (unfold lookup in refl)
      (unfold cancel lookup in refl) (refl, (refl, (tt, (tt, tt))))

cancel_lost_example :
    let s =
      set_result 50 "a"
        (answered (some 7))
        (update_status 40 "a" running (cancel 30 "a" full_store).0) in
    (status_of "a" s ≡ some completed)
    × ((t : Task ℕ) × (lookup "a" s.tasks ≡ some t) × (t.response ≡ some 7))
cancel_lost_example =
    cancel_lost 30 40 50 "a" (answered (some 7)) full_store (unfold cancel lookup in refl)
