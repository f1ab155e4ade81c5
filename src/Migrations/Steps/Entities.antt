-- ===== src/Migrations/Steps/Entities.antt =====
-- pyreljob/migrations/versions.py: version 4, which makes jobs durable entities and moves what a job
-- executed into runs.
use pyreljob.Migrations.Schema.{
  Cell, Column, Row, TableName, Connection, Statement, skip, ◌>>◌, when, with_columns, on_table,
  column_names, has_name, has_all, set_cell, is_text, is_null, nullable, with_default, timestamped,
  index_on, unique_index_on,
}
use pyreljob.Migrations.Statements.{
  create_table, create_index, drop_index, rename_column, drop_column, update_rows, insert_runs,
  add_missing,
}
use pyreljob.Prelude.{String, not, ◌&&◌, none, List, [], ◌∷◌, map, if◌then◌else◌}

abbrev pub runs_table : List Column
runs_table =
    nullable "id"
    ∷ nullable "job_id"
    ∷ with_default "status" (Cell.text "pending")
    ∷ nullable "result"
    ∷ nullable "error"
    ∷ nullable "ctx"
    ∷ nullable "worker_id"
    ∷ nullable "scheduled_at"
    ∷ timestamped "created_at"
    ∷ nullable "started_at"
    ∷ nullable "finished_at"
    ∷ nullable "locked_at"
    ∷ []

abbrev pub tasks_table : List Column
tasks_table =
    nullable "id"
    ∷ nullable "run_id"
    ∷ nullable "position"
    ∷ nullable "task_name"
    ∷ with_default "status" (Cell.text "pending")
    ∷ nullable "result"
    ∷ nullable "error"
    ∷ with_default "attempts" (Cell.number 0)
    ∷ nullable "retry_at"
    ∷ nullable "started_at"
    ∷ nullable "finished_at"
    ∷ nullable "compensated_at"
    ∷ []

unfoldable pub create_run_tables : Statement
unfolding create_table create_index
create_run_tables =
    create_table TableName.runs runs_table
    >> create_index (index_on "ix_runs_job_id" TableName.runs ("job_id" ∷ []))
    >> create_table TableName.tasks tasks_table
    >> create_index (index_on "ix_tasks_run_id" TableName.tasks ("run_id" ∷ []))

unfoldable pub drop_legacy_indexes : Statement
unfolding drop_index
drop_legacy_indexes =
    drop_index "ix_jobs_name_schedule"
    >> drop_index "ix_jobs_name"
    >> drop_index "ix_jobs_scheduled_at"

-- The columns of an entity: `columns` are those that jobs had before.
unfoldable pub alter_jobs : Connection → List String → Statement
unfolding has_name rename_column add_missing
alter_jobs conn columns =
    when (has_name "name" columns && not (has_name "job" columns))
      (rename_column TableName.jobs "name" "job")
    >> when (has_name "payload" columns && not (has_name "args" columns))
        (rename_column TableName.jobs "payload" "args")
    >> add_missing conn TableName.jobs columns (with_default "source" (Cell.text "on_demand"))
    >> add_missing conn TableName.jobs columns (nullable "cron")
    >> add_missing conn TableName.jobs columns (nullable "idempotency_key")

-- UPDATE … SET source = 'scheduled', cron = schedule WHERE schedule IS NOT NULL
abbrev pub split_schedule : Row → Row
split_schedule r =
    if is_null (r "schedule")
    then r
    else set_cell "source" (Cell.text "scheduled") (set_cell "cron" (r "schedule") r)

-- CASE WHEN status = 'running' THEN 'pending' ELSE status END
abbrev pub run_status : Cell → Cell
run_status status = if is_text "running" status then Cell.text "pending" else status

-- The values of the columns that INSERT INTO runs names, from a row of jobs.
abbrev pub run_values : Row → Row
run_values r = set_cell "job_id" (r "id") (set_cell "status" (run_status (r "status")) r)

abbrev pub backfilled : List String
backfilled =
    "job_id" ∷ "status" ∷ "result" ∷ "error" ∷ "worker_id" ∷ "scheduled_at" ∷ "started_at"
    ∷ "finished_at" ∷ "locked_at" ∷ "created_at" ∷ []

abbrev pub selected : List String
selected =
    "id" ∷ "status" ∷ "result" ∷ "error" ∷ "worker_id" ∷ "scheduled_at" ∷ "started_at"
    ∷ "finished_at" ∷ "locked_at" ∷ "created_at" ∷ []

-- INSERT INTO runs (…) SELECT … FROM jobs
unfoldable pub backfill_runs : Connection → Statement
unfolding insert_runs has_all
backfill_runs conn = on_table TableName.jobs (λ jobs.
    if has_all selected (column_names jobs)
    then insert_runs conn backfilled (map run_values jobs.rows)
    else (λ s. none))

-- CASE WHEN status = 'cancelled' THEN 'cancelled' ELSE 'active' END
abbrev pub entity_status : Cell → Cell
entity_status status =
    if is_text "cancelled" status then Cell.text "cancelled" else Cell.text "active"

abbrev pub collapse_status : Row → Row
collapse_status r = set_cell "status" (entity_status (r "status")) r

unfoldable pub move_rows : Connection → List String → Statement
unfolding has_name update_rows backfill_runs
move_rows conn columns =
    when (has_name "schedule" columns)
      (update_rows TableName.jobs ("source" ∷ "cron" ∷ "schedule" ∷ []) split_schedule)
    >> when (has_name "status" columns) (backfill_runs conn)
    >> when (has_name "status" columns) (update_rows TableName.jobs ("status" ∷ []) collapse_status)

abbrev pub execution_columns : List String
execution_columns =
    "schedule" ∷ "result" ∷ "error" ∷ "attempts" ∷ "worker_id" ∷ "scheduled_at" ∷ "started_at"
    ∷ "finished_at" ∷ "locked_at" ∷ []

unfoldable pub drop_columns : Connection → List String → List String → Statement
unfolding has_name drop_column
drop_columns conn columns [] = skip
drop_columns conn columns (c ∷ cs) =
    when (has_name c columns) (drop_column conn TableName.jobs c) >> drop_columns conn columns cs

unfoldable pub job_run_task_model : Connection → Statement
unfolding create_run_tables drop_legacy_indexes alter_jobs move_rows drop_columns create_index
job_run_task_model conn =
    create_run_tables
    >> with_columns TableName.jobs (λ columns.
      drop_legacy_indexes
      >> alter_jobs conn columns
      >> move_rows conn columns
      >> drop_columns conn columns execution_columns)
    >> create_index
        (unique_index_on "ux_jobs_idempotency_key" TableName.jobs ("idempotency_key" ∷ []))
