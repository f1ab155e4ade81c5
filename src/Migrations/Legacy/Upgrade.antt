-- ===== src/Migrations/Legacy/Upgrade.antt =====
-- Migrating a database of version 3 (pyreljob/migrations/versions.py, SQLAlchemyBackend.migrate).
use pyreljob.Migrations.Legacy.{
  first_three, upgrade, upgraded_store, final_indexes, legacy_schema, legacy_store, empty_store,
  IsUpgraded,
}
use pyreljob.Migrations.Legacy.Rows.{
  split_rows, job_rows, run_rows, has_duplicate-split_rows, AreUpgraded-rows,
}
use pyreljob.Migrations.Schema.{
  Cell, Column, Row, Table, TableName, Index, Schema, Connection, has_name, has_all, nullable,
  with_default, timestamped, index_on, unique_index_on,
}
use pyreljob.Migrations.Statements.{
  has_duplicate, number_rows, create_table, add_column, create_index, drop_index, drop_column,
  rename_column, update_rows, insert_runs, add_missing, number_rows, new_row,
}
use pyreljob.Migrations.Steps.Entities.{
  create_run_tables, drop_legacy_indexes, alter_jobs, move_rows, drop_columns, backfill_runs,
  job_run_task_model, runs_table, tasks_table, collapse_status, run_values, backfilled,
}
use pyreljob.Migrations.Steps.{
  all_migrations, migrate, create_jobs_table, create_schedule_index, add_locked_at, add_timestamps,
  add_job_retries, drop_cron_column, rename_pending_to_ready, add_run_progress, add_job_tags,
}
use pyreljob.Migrations.{up, pending, migrations, apply_all, apply_migration}
use pyreljob.Prelude.{◌≡◌, ◌∙◌, refl, some, List, [], ◌∷◌, ◌++◌, map}
use pyreljob.Sql.{select, exists, order_by, insert_by}

-- What the first three migrations make of an empty database.
pub up-legacy :
    (conn : Connection) → (up (all_migrations conn) (some 3) empty_store).1 ≡ legacy_store []
unfolding up pending migrations apply_all apply_migration select order_by insert_by exists
    all_migrations create_jobs_table create_schedule_index add_locked_at create_table create_index
    has_all has_name add_missing add_column
up-legacy conn = refl

abbrev entity_columns : List Column
entity_columns =
    nullable "id"
    ∷ nullable "job"
    ∷ with_default "queue" (Cell.text "default")
    ∷ with_default "status" (Cell.text "pending")
    ∷ nullable "args"
    ∷ with_default "max_attempts" (Cell.number 3)
    ∷ with_default "priority" (Cell.number 0)
    ∷ timestamped "created_at"
    ∷ nullable "next_run_at"
    ∷ with_default "source" (Cell.text "on_demand")
    ∷ nullable "cron"
    ∷ nullable "idempotency_key"
    ∷ []

abbrev entity_indexes : List Index
entity_indexes =
    index_on "ix_jobs_queue_status" TableName.jobs ("queue" ∷ "status" ∷ [])
    ∷ index_on "ix_jobs_next_run_at" TableName.jobs ("next_run_at" ∷ [])
    ∷ index_on "ix_runs_job_id" TableName.runs ("job_id" ∷ [])
    ∷ index_on "ix_tasks_run_id" TableName.tasks ("run_id" ∷ [])
    ∷ []

abbrev key_index : Index
key_index = unique_index_on "ux_jobs_idempotency_key" TableName.jobs ("idempotency_key" ∷ [])

abbrev entity_schema : Connection → List Row → List Index → Schema
entity_schema conn rows indexes = record {
  jobs = some (record { columns = entity_columns; rows = map collapse_status (split_rows rows) });
  runs = some (record {
    columns = runs_table;
    rows =
        number_rows (new_row conn runs_table backfilled) conn.first_run_id
          (map run_values (split_rows rows));
  });
  tasks = some (record { columns = tasks_table; rows = [] });
  indexes = indexes;
}

job_run_task_model-index :
    (conn : Connection) (rows : List Row)
    → job_run_task_model conn (legacy_schema rows)
      ≡ create_index key_index (entity_schema conn rows entity_indexes)
unfolding job_run_task_model create_run_tables create_table create_index has_all has_name exists
    drop_legacy_indexes alter_jobs rename_column add_missing add_column drop_index select move_rows
    update_rows backfill_runs insert_runs drop_columns drop_column
job_run_task_model-index conn rows = refl

job_run_task_model-eq :
    (conn : Connection) (rows : List Row)
    → job_run_task_model conn (legacy_schema rows)
      ≡ some (entity_schema conn rows (entity_indexes ++ key_index ∷ []))
unfolding create_index has_all has_name exists
job_run_task_model-eq conn rows =
    job_run_task_model-index conn rows ∙ rw (has_duplicate-split_rows rows) refl

abbrev final_jobs : List Row → Table
final_jobs rows = record {
  columns =
      nullable "id"
      ∷ nullable "job"
      ∷ with_default "queue" (Cell.text "default")
      ∷ with_default "status" (Cell.text "pending")
      ∷ nullable "args"
      ∷ with_default "max_attempts" (Cell.number 3)
      ∷ with_default "priority" (Cell.number 0)
      ∷ timestamped "created_at"
      ∷ nullable "next_run_at"
      ∷ with_default "source" (Cell.text "on_demand")
      ∷ nullable "idempotency_key"
      ∷ nullable "updated_at"
      ∷ with_default "retries" (Cell.number 0)
      ∷ with_default "attempts" (Cell.number 0)
      ∷ nullable "tags"
      ∷ [];
  rows = job_rows rows;
}

abbrev final_runs : Connection → List Row → Table
final_runs conn rows = record {
  columns = runs_table ++ nullable "updated_at" ∷ nullable "progress" ∷ [];
  rows = run_rows conn conn.first_run_id rows;
}

abbrev final_tasks : Table
final_tasks = record {
  columns = tasks_table ++ timestamped "created_at" ∷ nullable "updated_at" ∷ [];
  rows = [];
}

abbrev final_schema : Connection → List Row → Schema
final_schema conn rows = record {
  jobs = some (final_jobs rows);
  runs = some (final_runs conn rows);
  tasks = some final_tasks;
  indexes = final_indexes;
}

migrate-final :
    (conn : Connection) (rows : List Row)
    → migrate conn (legacy_store rows) ≡ (some upgrade, upgraded_store (final_schema conn rows))
unfolding migrate up pending migrations apply_all apply_migration select order_by insert_by exists
    all_migrations add_timestamps add_job_retries drop_cron_column rename_pending_to_ready
    add_run_progress add_job_tags drop_column update_rows has_all has_name add_missing add_column
migrate-final conn rows = rw (job_run_task_model-eq conn rows) refl

final_schema-IsUpgraded :
    (conn : Connection) (rows : List Row) → IsUpgraded conn rows (final_schema conn rows)
unfolding has_all has_name
final_schema-IsUpgraded conn rows = record {
  jobs = final_jobs rows;
  runs = final_runs conn rows;
  tasks = final_tasks;
  has_jobs = refl;
  has_runs = refl;
  has_tasks = refl;
  upgraded = AreUpgraded-rows conn conn.first_run_id rows;
  no_tasks = refl;
  job_columns = (refl, refl);
  run_columns = (refl, refl);
  task_columns = (refl, refl);
  indexes = refl;
}

-- From a database of version 3 with any rows, migrate applies the seven later migrations, and gives each
-- legacy row one job and one run; the tables then have exactly the columns that the models map.
pub migrate-IsUpgraded :
    (conn : Connection) (rows : List Row)
    → (s : Schema) × (migrate conn (legacy_store rows) ≡ (some upgrade, upgraded_store s))
      × IsUpgraded conn rows s
migrate-IsUpgraded conn rows =
    (final_schema conn rows, migrate-final conn rows, final_schema-IsUpgraded conn rows)

-- A new database, whichever of the two it is: every migration is applied, the tables are empty, and they
-- have exactly the columns that the models map.
pub migrate-fresh :
    (conn : Connection)
    → (s : Schema) × (migrate conn empty_store ≡ (some (first_three ++ upgrade), upgraded_store s))
      × IsUpgraded conn [] s
unfolding migrate up pending migrations apply_all apply_migration select order_by insert_by exists
    all_migrations create_jobs_table create_schedule_index add_locked_at create_table create_index
    add_timestamps add_job_retries drop_cron_column rename_pending_to_ready add_run_progress
    add_job_tags drop_column update_rows has_all has_name add_missing add_column job_run_task_model
    create_run_tables drop_legacy_indexes alter_jobs rename_column drop_index move_rows
    backfill_runs insert_runs drop_columns has_duplicate number_rows
migrate-fresh conn = (final_schema conn [], refl, final_schema-IsUpgraded conn [])
