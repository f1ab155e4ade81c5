-- ===== src/Migrations/Legacy.antt =====
-- A database of version 3 (pyreljob/migrations/versions.py), with one row of jobs for each execution,
-- the rows that should stand for them in version 10, and the columns that pyreljob/models/orm.py maps.
pub mod Rows
pub mod Upgrade
use pyreljob.Migrations.Schema.{
  Cell, Row, Table, TableName, Index, Schema, Connection, column_names, has_all, is_null, is_text,
  nullable, index_on, unique_index_on,
}
use pyreljob.Migrations.Steps.{jobs_table}
use pyreljob.Migrations.{Store}
use pyreljob.Prelude.{
  ℕ, suc, ◌≡◌, String, true, ◌||◌, none, some, List, [], ◌∷◌, ◌++◌, if◌then◌else◌, str_eq,
}

-- The schema of version 3, with any rows.
abbrev pub legacy_schema : List Row → Schema
legacy_schema rows = record {
  jobs = some (record { columns = jobs_table ++ nullable "locked_at" ∷ []; rows = rows });
  runs = none;
  tasks = none;
  indexes =
      index_on "ix_jobs_queue_status" TableName.jobs ("queue" ∷ "status" ∷ [])
      ∷ index_on "ix_jobs_scheduled_at" TableName.jobs ("scheduled_at" ∷ [])
      ∷ index_on "ix_jobs_next_run_at" TableName.jobs ("next_run_at" ∷ [])
      ∷ index_on "ix_jobs_name_schedule" TableName.jobs ("name" ∷ "schedule" ∷ [])
      ∷ [];
}

abbrev pub legacy_store : List Row → Store Schema
legacy_store rows = record {
  schema_migrations = some (
      (1, "create jobs table") ∷ (2, "index job schedule") ∷ (3, "add job lease (locked_at)") ∷ []);
  schema = legacy_schema rows;
}

abbrev pub empty_store : Store Schema
empty_store = record {
  schema_migrations = none;
  schema = record { jobs = none; runs = none; tasks = none; indexes = [] };
}

abbrev pub first_three : List String
first_three = "create jobs table" ∷ "index job schedule" ∷ "add job lease (locked_at)" ∷ []

-- What is left to apply, and the store after it.
abbrev pub upgrade : List String
upgrade =
    "job entities, runs, tasks" ∷ "add created_at/updated_at timestamps" ∷ "add job-level retries"
    ∷ "drop cron column" ∷ "rename pending runs/tasks to ready" ∷ "add run progress column"
    ∷ "add job tags column" ∷ []

abbrev pub upgraded_store : Schema → Store Schema
upgraded_store s = record {
  schema_migrations = some (
      (1, "create jobs table")
      ∷ (2, "index job schedule")
      ∷ (3, "add job lease (locked_at)")
      ∷ (4, "job entities, runs, tasks")
      ∷ (5, "add created_at/updated_at timestamps")
      ∷ (6, "add job-level retries")
      ∷ (7, "drop cron column")
      ∷ (8, "rename pending runs/tasks to ready")
      ∷ (9, "add run progress column")
      ∷ (10, "add job tags column")
      ∷ []);
  schema = s;
}

abbrev pub source_of : Cell → Cell
source_of schedule = if is_null schedule then Cell.text "on_demand" else Cell.text "scheduled"

abbrev pub ready_status : Cell → Cell
ready_status status =
    if is_text "running" status || is_text "pending" status then Cell.text "ready" else status

-- A job that was cancelled stays so, and every other one is active.
abbrev pub job_status : Cell → Cell
job_status (Cell.text t) =
    if str_eq t "cancelled" then Cell.text "cancelled" else Cell.text "active"
job_status _ = Cell.text "active"

-- `j` is the job for the legacy row `r`.
pub record IsJobOf (r j : Row) : Type 0 where
  pub id : j "id" ≡ r "id"
  pub job : j "job" ≡ r "name"
  pub args : j "args" ≡ r "payload"
  pub status : j "status" ≡ job_status (r "status")
  pub source : j "source" ≡ source_of (r "schedule")
  pub queue : j "queue" ≡ r "queue"
  pub priority : j "priority" ≡ r "priority"
  pub max_attempts : j "max_attempts" ≡ r "max_attempts"
  pub next_run_at : j "next_run_at" ≡ r "next_run_at"
  pub created_at : j "created_at" ≡ r "created_at"
  pub retries : j "retries" ≡ Cell.number 0
  pub attempts : j "attempts" ≡ Cell.number 0
  pub idempotency_key : j "idempotency_key" ≡ Cell.null
  pub tags : j "tags" ≡ Cell.null
  pub updated_at : j "updated_at" ≡ Cell.null

-- `n` is the run with the key `k` for the legacy row `r`.
pub record IsRunOf (k : ℕ) (r n : Row) : Type 0 where
  pub id : n "id" ≡ Cell.number k
  pub job_id : n "job_id" ≡ r "id"
  pub status : n "status" ≡ ready_status (r "status")
  pub result : n "result" ≡ r "result"
  pub error : n "error" ≡ r "error"
  pub worker_id : n "worker_id" ≡ r "worker_id"
  pub scheduled_at : n "scheduled_at" ≡ r "scheduled_at"
  pub started_at : n "started_at" ≡ r "started_at"
  pub finished_at : n "finished_at" ≡ r "finished_at"
  pub locked_at : n "locked_at" ≡ r "locked_at"
  pub created_at : n "created_at" ≡ r "created_at"
  pub ctx : n "ctx" ≡ Cell.null
  pub progress : n "progress" ≡ Cell.null
  pub updated_at : n "updated_at" ≡ Cell.null

-- One job and one run for each legacy row, in its order; the runs have the keys from `k` on.
pub AreUpgraded : ℕ → List Row → List Row → List Row → Type 0
AreUpgraded k [] [] [] = Unit
AreUpgraded k (r ∷ rs) (j ∷ js) (n ∷ ns) =
    IsJobOf r j × IsRunOf k r n × AreUpgraded (suc k) rs js ns
AreUpgraded k _ _ _ = ⊥

-- The columns that the three model classes map.
abbrev pub job_model : List String
job_model =
    "id" ∷ "job" ∷ "queue" ∷ "status" ∷ "args" ∷ "priority" ∷ "source" ∷ "next_run_at"
    ∷ "max_attempts" ∷ "retries" ∷ "attempts" ∷ "idempotency_key" ∷ "tags" ∷ "created_at"
    ∷ "updated_at" ∷ []

abbrev pub run_model : List String
run_model =
    "id" ∷ "job_id" ∷ "status" ∷ "result" ∷ "error" ∷ "ctx" ∷ "worker_id" ∷ "progress"
    ∷ "scheduled_at" ∷ "created_at" ∷ "updated_at" ∷ "started_at" ∷ "finished_at" ∷ "locked_at" ∷ []

abbrev pub task_model : List String
task_model =
    "id" ∷ "run_id" ∷ "position" ∷ "task_name" ∷ "status" ∷ "result" ∷ "error" ∷ "attempts"
    ∷ "retry_at" ∷ "created_at" ∷ "updated_at" ∷ "started_at" ∷ "finished_at" ∷ "compensated_at"
    ∷ []

-- The table has the columns of the model, and no others.
abbrev pub Mirrors : List String → Table → Type 0
Mirrors model tb =
    (has_all model (column_names tb) ≡ true) × (has_all (column_names tb) model ≡ true)

abbrev pub final_indexes : List Index
final_indexes =
    index_on "ix_jobs_queue_status" TableName.jobs ("queue" ∷ "status" ∷ [])
    ∷ index_on "ix_jobs_next_run_at" TableName.jobs ("next_run_at" ∷ [])
    ∷ index_on "ix_runs_job_id" TableName.runs ("job_id" ∷ [])
    ∷ index_on "ix_tasks_run_id" TableName.tasks ("run_id" ∷ [])
    ∷ unique_index_on "ux_jobs_idempotency_key" TableName.jobs ("idempotency_key" ∷ [])
    ∷ []

-- The schema of version 10 that the legacy rows lead to.
pub record IsUpgraded (conn : Connection) (rows : List Row) (s : Schema) : Type 0 where
  pub jobs : Table
  pub runs : Table
  pub tasks : Table
  pub has_jobs : s.jobs ≡ some jobs
  pub has_runs : s.runs ≡ some runs
  pub has_tasks : s.tasks ≡ some tasks
  pub upgraded : AreUpgraded conn.first_run_id rows jobs.rows runs.rows
  pub no_tasks : tasks.rows ≡ []
  pub job_columns : Mirrors job_model jobs
  pub run_columns : Mirrors run_model runs
  pub task_columns : Mirrors task_model tasks
  pub indexes : s.indexes ≡ final_indexes
