-- ===== src/Migrations/Steps.antt =====
-- pyreljob/migrations/versions.py: the versioned steps. A step gets its connection, and the schema is
-- the state of the transaction.
pub mod Entities
use pyreljob.Migrations.Schema.{
  Cell, Default, Column, Row, TableName, Index, Schema, Connection, Statement, skip, ◌>>◌, when,
  with_columns, has_name, is_text, set_cell, index_on, nullable, with_default, timestamped,
}
use pyreljob.Migrations.Statements.{
  create_table, add_column, create_index, drop_column, update_rows, add_missing,
}
use pyreljob.Migrations.Steps.Entities.{job_run_task_model}
use pyreljob.Migrations.{Migration, Store, up}
use pyreljob.Prelude.{ℕ, String, not, Option, none, some, List, [], ◌∷◌, map, if◌then◌else◌}

abbrev pub jobs_table : List Column
jobs_table =
    nullable "id"
    ∷ nullable "name"
    ∷ with_default "queue" (Cell.text "default")
    ∷ with_default "status" (Cell.text "pending")
    ∷ nullable "payload"
    ∷ nullable "result"
    ∷ nullable "error"
    ∷ with_default "attempts" (Cell.number 0)
    ∷ with_default "max_attempts" (Cell.number 3)
    ∷ with_default "priority" (Cell.number 0)
    ∷ nullable "worker_id"
    ∷ nullable "schedule"
    ∷ timestamped "created_at"
    ∷ nullable "scheduled_at"
    ∷ nullable "started_at"
    ∷ nullable "finished_at"
    ∷ nullable "next_run_at"
    ∷ []

unfoldable pub create_jobs_table : Statement
unfolding create_table create_index
create_jobs_table =
    create_table TableName.jobs jobs_table
    >> create_index (index_on "ix_jobs_queue_status" TableName.jobs ("queue" ∷ "status" ∷ []))
    >> create_index (index_on "ix_jobs_scheduled_at" TableName.jobs ("scheduled_at" ∷ []))
    >> create_index (index_on "ix_jobs_next_run_at" TableName.jobs ("next_run_at" ∷ []))

unfoldable pub create_schedule_index : Statement
unfolding create_index
create_schedule_index =
    create_index (index_on "ix_jobs_name_schedule" TableName.jobs ("name" ∷ "schedule" ∷ []))

unfoldable pub add_locked_at : Connection → Statement
unfolding add_missing
add_locked_at conn =
    with_columns TableName.jobs
      (λ columns. add_missing conn TableName.jobs columns (nullable "locked_at"))

unfoldable pub add_timestamps : Connection → Statement
unfolding add_missing
add_timestamps conn = with_columns TableName.jobs (λ jobs. with_columns TableName.runs (λ runs.
    with_columns TableName.tasks (λ tasks.
      add_missing conn TableName.jobs jobs (nullable "updated_at")
      >> add_missing conn TableName.runs runs (nullable "updated_at")
      >> add_missing conn TableName.tasks tasks (timestamped "created_at")
      >> add_missing conn TableName.tasks tasks (nullable "updated_at"))))

unfoldable pub add_job_retries : Connection → Statement
unfolding add_missing
add_job_retries conn = with_columns TableName.jobs (λ columns.
    add_missing conn TableName.jobs columns (with_default "retries" (Cell.number 0))
    >> add_missing conn TableName.jobs columns (with_default "attempts" (Cell.number 0)))

unfoldable pub drop_cron_column : Connection → Statement
unfolding has_name drop_column
drop_cron_column conn =
    with_columns TableName.jobs
      (λ columns. when (has_name "cron" columns) (drop_column conn TableName.jobs "cron"))

-- UPDATE … SET status = 'ready' WHERE status = 'pending'
abbrev pub make_ready : Row → Row
make_ready r = if is_text "pending" (r "status") then set_cell "status" (Cell.text "ready") r else r

unfoldable pub rename_pending_to_ready : Statement
unfolding update_rows
rename_pending_to_ready =
    update_rows TableName.runs ("status" ∷ []) make_ready
    >> update_rows TableName.tasks ("status" ∷ []) make_ready

unfoldable pub add_run_progress : Connection → Statement
unfolding add_missing
add_run_progress conn =
    with_columns TableName.runs
      (λ columns. add_missing conn TableName.runs columns (nullable "progress"))

unfoldable pub add_job_tags : Connection → Statement
unfolding add_missing
add_job_tags conn =
    with_columns TableName.jobs
      (λ columns. add_missing conn TableName.jobs columns (nullable "tags"))

abbrev pub migration : ℕ → String → Statement → Migration Schema
migration version description fn = record { version = version; description = description; fn = fn }

unfoldable pub all_migrations : Connection → List (Migration Schema)
unfolding create_jobs_table create_schedule_index add_locked_at job_run_task_model add_timestamps
    add_job_retries drop_cron_column rename_pending_to_ready add_run_progress add_job_tags
all_migrations conn =
    migration 1 "create jobs table" create_jobs_table
    ∷ migration 2 "index job schedule" create_schedule_index
    ∷ migration 3 "add job lease (locked_at)" (add_locked_at conn)
    ∷ migration 4 "job entities, runs, tasks" (job_run_task_model conn)
    ∷ migration 5 "add created_at/updated_at timestamps" (add_timestamps conn)
    ∷ migration 6 "add job-level retries" (add_job_retries conn)
    ∷ migration 7 "drop cron column" (drop_cron_column conn)
    ∷ migration 8 "rename pending runs/tasks to ready" rename_pending_to_ready
    ∷ migration 9 "add run progress column" (add_run_progress conn)
    ∷ migration 10 "add job tags column" (add_job_tags conn)
    ∷ []

abbrev pub descriptions : Option (List (Migration Schema)) → Option (List String)
descriptions none = none
descriptions (some applied) = some (map (λ m. m.description) applied)

-- SQLAlchemyBackend.migrate: what it returns, none if a migration raised, and the database after it.
unfoldable pub migrate : Connection → Store Schema → Option (List String) × Store Schema
unfolding up all_migrations
migrate conn st =
    let (applied, st') = up (all_migrations conn) none st in (descriptions applied, st')
