-- ===== src/Backend/Tasks.antt =====
-- pyreljob/backends/sqlalchemy.py: the executions of the tasks of a run.
pub mod Started
use pyreljob.Backend.Jobs.{scalar_one_or_none}
use pyreljob.Json.{Json}
use pyreljob.Models.{Time, Readings, Db, TaskModel, TaskRecord, TaskStatus, Result, ok, raised}
use pyreljob.Prelude.{
  ℕ, String, Bool, true, false, ◌&&◌, Option, none, some, List, [], ◌∷◌, ◌++◌, ◌==◌, ltb,
}
use pyreljob.Sql.{select, update, order_by}

abbrev pub is_task : ℕ → ℕ → TaskModel → Bool
is_task run_id position t = (t.run_id == run_id) && (t.position == position)

abbrev pub task_of : ℕ → TaskModel → Bool
task_of run_id t = t.run_id == run_id

abbrev pub by_position : TaskModel → TaskModel → Bool
by_position s t = ltb s.position t.position

unfoldable pub tasks : ℕ → Db → List TaskRecord
tasks run_id db = order_by by_position (select (task_of run_id) db.tasks)

abbrev pub update_task : ℕ → ℕ → (TaskModel → TaskModel) → Db → Db
update_task run_id position f db = record db { tasks = update (is_task run_id position) f db.tasks }

unfoldable pub started_task : ℕ → ℕ → ℕ → String → ℕ → Readings → TaskModel
started_task id run_id position task_name attempts now = record {
  id = id;
  run_id = run_id;
  position = position;
  task_name = task_name;
  status = TaskStatus.running;
  result = none;
  error = none;
  attempts = attempts;
  retry_at = none;
  created_at = now 0;
  updated_at = some (now 1);
  started_at = some (now 2);
  finished_at = none;
  compensated_at = none;
}

unfoldable pub restarted : String → ℕ → Readings → TaskModel → TaskModel
restarted task_name attempts now t = record t {
  task_name = task_name;
  status = TaskStatus.running;
  result = none;
  error = none;
  attempts = attempts;
  retry_at = none;
  updated_at = some (now 0);
  started_at = some (now 1);
  finished_at = none;
}

-- `id` is the key that the database gives a new row.
unfoldable pub start_task : ℕ → ℕ → ℕ → String → ℕ → Readings → Db → Result Db
unfolding scalar_one_or_none started_task restarted
start_task id run_id position task_name attempts now db =
    elim (scalar_one_or_none (select (is_task run_id position) db.tasks)) [
      | raised e ↦ raised e
      | ok none ↦ ok (record db {
        tasks = db.tasks ++ started_task id run_id position task_name attempts now ∷ [];
      })
      | ok (some _) ↦ ok (update_task run_id position (restarted task_name attempts now) db)
    ]

unfoldable pub succeed_task : ℕ → ℕ → Option Json → Readings → Db → Db
succeed_task run_id position result now = update_task run_id position (λ t. record t {
  status = TaskStatus.succeeded;
  result = result;
  error = none;
  finished_at = some (now 0);
  updated_at = some (now 1);
})

unfoldable pub fail_task : ℕ → ℕ → String → ℕ → Option Time → Readings → Db → Db
fail_task run_id position error attempts retry_at now = update_task run_id position (λ t. record t {
  status = TaskStatus.failed;
  error = some error;
  attempts = attempts;
  retry_at = retry_at;
  finished_at = some (now 0);
  updated_at = some (now 1);
})

unfoldable pub cancel_task : ℕ → ℕ → Readings → Db → Db
cancel_task run_id position now = update_task run_id position (λ t. record t {
  status = TaskStatus.cancelled;
  finished_at = some (now 0);
  updated_at = some (now 1);
})

unfoldable pub compensate_task : ℕ → ℕ → Readings → Db → Db
compensate_task run_id position now = update_task run_id position (λ t. record t {
  status = TaskStatus.compensated;
  compensated_at = some (now 0);
  updated_at = some (now 1);
})
