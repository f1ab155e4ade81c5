-- ===== src/Witnesses/Upgrading.antt =====
-- The migrations on databases with two legacy jobs, and on one with a task.
use mathlib.Core.List.Memᴰ
use pyreljob.Migrations.Again.{migration-again}
use pyreljob.Migrations.Legacy.Upgrade.{migrate-IsUpgraded, migrate-fresh}
use pyreljob.Migrations.Legacy.{
  IsUpgraded, legacy_store, empty_store, first_three, upgrade, upgraded_store,
}
use pyreljob.Migrations.Refused.{add_timestamps-refused}
use pyreljob.Migrations.Repeated.{migrate-again}
use pyreljob.Migrations.Schema.{
  Cell, Row, Table, Schema, Connection, column_names, has_name, set_cell, with_default, nullable,
}
use pyreljob.Migrations.Statements.{add_missing, add_column}
use pyreljob.Migrations.Steps.Entities.{tasks_table}
use pyreljob.Migrations.Steps.{all_migrations, migration, migrate, add_timestamps, add_job_retries}
use pyreljob.Prelude.{◌≡◌, refl, false, none, some, [], ◌∷◌, ◌++◌, arith}

abbrev sqlite : Connection
sqlite = record { is_postgres = false; now = 1000000; first_run_id = 1 }

abbrev no_values : Row
no_values c = Cell.null

abbrev legacy_job : Row
legacy_job = set_cell "id" (Cell.number 1) (
    set_cell "name" (Cell.text "app.Old") (
      set_cell "status" (Cell.text "running")
        (set_cell "schedule" (Cell.text "0 2 * * *") no_values)))

abbrev cancelled_job : Row
cancelled_job =
    set_cell "id" (Cell.number 2) (
      set_cell "name" (Cell.text "app.OneOff")
        (set_cell "status" (Cell.text "cancelled") no_values))

migrate-IsUpgraded_example :
    (s : Schema) × (migrate sqlite (legacy_store (legacy_job ∷ cancelled_job ∷ []))
      ≡ (some upgrade, upgraded_store s))
    × IsUpgraded sqlite (legacy_job ∷ cancelled_job ∷ []) s
migrate-IsUpgraded_example = migrate-IsUpgraded sqlite (legacy_job ∷ cancelled_job ∷ [])

abbrev one_task : Table
one_task = record { columns = tasks_table; rows = no_values ∷ [] }

abbrev with_task : Schema
with_task = record { jobs = none; runs = none; tasks = some one_task; indexes = [] }

one_task-old : has_name "created_at" (column_names one_task) ≡ false
unfolding has_name
one_task-old = refl

add_timestamps-refused_example : add_timestamps sqlite with_task ≡ none
add_timestamps-refused_example =
    add_timestamps-refused sqlite with_task one_task refl refl one_task-old refl

abbrev old_jobs : Schema
old_jobs = record {
  jobs = some (record { columns = nullable "id" ∷ []; rows = [] });
  runs = none;
  tasks = none;
  indexes = [];
}

abbrev new_jobs : Schema
new_jobs = record {
  jobs = some (record {
    columns =
        nullable "id"
        ∷ with_default "retries" (Cell.number 0)
        ∷ with_default "attempts" (Cell.number 0)
        ∷ [];
    rows = [];
  });
  runs = none;
  tasks = none;
  indexes = [];
}

retried : add_job_retries sqlite old_jobs ≡ some new_jobs
unfolding add_job_retries add_missing add_column has_name
retried = refl

migration-again_example : add_job_retries sqlite new_jobs ≡ some new_jobs
unfolding all_migrations
migration-again_example =
    migration-again sqlite (migration 6 "add job-level retries" (add_job_retries sqlite))
      (Memᴰ.tail (Memᴰ.tail (Memᴰ.tail (Memᴰ.tail (Memᴰ.tail (Memᴰ.head refl))))))
      (λ e. ground (arith, e)) old_jobs new_jobs retried

migrate-again_example :
    migrate sqlite (upgraded_store (migrate-fresh sqlite).0)
    ≡ (some [], upgraded_store (migrate-fresh sqlite).0)
migrate-again_example =
    migrate-again sqlite empty_store (upgraded_store (migrate-fresh sqlite).0)
      (first_three ++ upgrade) (migrate-fresh sqlite).1
