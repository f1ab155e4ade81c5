-- ===== src/Migrations/Again.antt =====
-- The guarded steps of pyreljob/migrations/versions.py, run a second time.
use pyreljob.Migrations.Additions.{
  with_timestamps, SettlesAtOnce, names, additions-again, with_columns-names, names-with_columns,
  with_columns-SettlesAtOnce, then_run-cases,
}
use pyreljob.Migrations.Indexes.{
  is_index-create_index, is_index-kept, get_table-create_index, create_index-there,
  get_table-create_table, create_table-there,
}
use mathlib.Core.List.{Memᴰ}
use pyreljob.Migrations.{Migration}
use pyreljob.Sql.Keyed.{All-mem}
use pyreljob.Sql.{select, exists}
use pyreljob.Migrations.Statements.{uses_column, create_table, create_index}
use pyreljob.Migrations.Steps.{all_migrations, create_jobs_table, create_schedule_index, jobs_table}
use pyreljob.Migrations.Schema.{Index, index_on, has_all}
use pyreljob.Migrations.Schema.{
  Cell, Column, Row, TableName, Schema, Connection, Statement, get_table, ◌>>◌, when, with_columns,
  column_names, has_name, nullable, with_default, timestamped, is_text,
}
use pyreljob.Migrations.Statements.{add_missing, drop_column, update_rows}
use pyreljob.Migrations.Steps.{
  add_locked_at, add_timestamps, add_job_retries, add_run_progress, add_job_tags, drop_cron_column,
  rename_pending_to_ready, make_ready,
}
use mathlib.Core.Option.{some-injective}
use pyreljob.Prelude.{
  ◌≡◌, ◌≢◌, ◌∙◌, refl, ap, subst, false, not, some, List, [], ◌∷◌, map, String, str_eq, ◌&&◌, inl,
  inr, Bool-cases, Option-cases, All, arith,
}

add_locked_at-SettlesAtOnce : (conn : Connection) → SettlesAtOnce (add_locked_at conn)
unfolding add_locked_at
add_locked_at-SettlesAtOnce conn =
    with_columns-SettlesAtOnce conn TableName.jobs (nullable "locked_at") []
      (λ columns. add_missing conn TableName.jobs columns (nullable "locked_at")) (λ s. refl)

add_job_retries-SettlesAtOnce : (conn : Connection) → SettlesAtOnce (add_job_retries conn)
unfolding add_job_retries
add_job_retries-SettlesAtOnce conn =
    with_columns-SettlesAtOnce conn TableName.jobs (with_default "retries" (Cell.number 0))
      ((TableName.jobs, with_default "attempts" (Cell.number 0)) ∷ [])
      (λ columns.
        add_missing conn TableName.jobs columns (with_default "retries" (Cell.number 0))
        >> add_missing conn TableName.jobs columns (with_default "attempts" (Cell.number 0)))
      (λ s. refl)

add_run_progress-SettlesAtOnce : (conn : Connection) → SettlesAtOnce (add_run_progress conn)
unfolding add_run_progress
add_run_progress-SettlesAtOnce conn =
    with_columns-SettlesAtOnce conn TableName.runs (nullable "progress") []
      (λ columns. add_missing conn TableName.runs columns (nullable "progress")) (λ s. refl)

add_job_tags-SettlesAtOnce : (conn : Connection) → SettlesAtOnce (add_job_tags conn)
unfolding add_job_tags
add_job_tags-SettlesAtOnce conn =
    with_columns-SettlesAtOnce conn TableName.jobs (nullable "tags") []
      (λ columns. add_missing conn TableName.jobs columns (nullable "tags")) (λ s. refl)

abbrev timestamps : List (TableName × Column)
timestamps =
    (TableName.runs, nullable "updated_at")
    ∷ (TableName.tasks, timestamped "created_at")
    ∷ (TableName.tasks, nullable "updated_at")
    ∷ []

add_timestamps-SettlesAtOnce : (conn : Connection) → SettlesAtOnce (add_timestamps conn)
unfolding add_timestamps
add_timestamps-SettlesAtOnce conn s s' e =
    let in_tasks : List String → List String → Statement =
      λ jobs runs. with_columns TableName.tasks (λ tasks. with_timestamps conn jobs runs tasks) in
    let in_runs : List String → Statement =
      λ jobs. with_columns TableName.runs (λ runs. in_tasks jobs runs) in
    let e1 = with_columns-names TableName.jobs in_runs s s' e in
    let e2 = with_columns-names TableName.runs (in_tasks (names s TableName.jobs)) s s' e1 in
    let e3 =
      with_columns-names TableName.tasks
        (with_timestamps conn (names s TableName.jobs) (names s TableName.runs)) s s' e2 in
    let (there, again) =
      additions-again conn (TableName.jobs, nullable "updated_at") timestamps s s' e3 in
    names-with_columns TableName.jobs "updated_at" in_runs s' there.0
    ∙ names-with_columns TableName.runs "updated_at" (in_tasks (names s' TableName.jobs)) s'
        there.1.0
    ∙ names-with_columns TableName.tasks "created_at"
        (with_timestamps conn (names s' TableName.jobs) (names s' TableName.runs)) s' there.1.1.0
    ∙ again

abbrev drop_cron : Connection → List String → Statement
drop_cron conn columns = when (has_name "cron" columns) (drop_column conn TableName.jobs "cron")

has_name-select :
    (c : String) (ds : List Column)
    → has_name c (map (λ x. x.name) (select (λ d. not (str_eq d.name c)) ds)) ≡ false
unfolding has_name select
has_name-select c [] = refl
has_name-select c (d ∷ ds) = ground (arith, has_name-select c ds)

drop_cron_column-SettlesAtOnce : (conn : Connection) → SettlesAtOnce (drop_cron_column conn)
unfolding drop_cron_column drop_column
drop_cron_column-SettlesAtOnce conn s s' e = elim (Option-cases s.jobs) [
  | inl h ↦ absurd (ground (arith, rw (drop_cron_column, h) at e))
  | inr (tb, h) ↦ elim (Bool-cases (has_name "cron" (column_names tb))) [
    | inl there ↦
        elim (Bool-cases
          (exists (uses_column TableName.jobs "cron") s.indexes && not conn.is_postgres)) [
            | inl used ↦ absurd (
                ground
                  (arith, rw (drop_cron_column, h, there, when, drop_column, there, used) at e))
            | inr free ↦
                subst (λ x. drop_cron_column conn x ≡ some x)
                  (some-injective _ s'
                    (rw (drop_cron_column, h, there, when, drop_column, there, free) at e))
                  (rw (has_name-select "cron" tb.columns) refl)
          ]
    | inr gone ↦
        subst (λ x. drop_cron_column conn x ≡ some s')
          (ap (λ o. record s { jobs = o }) h
            ∙ some-injective _ s' (rw (drop_cron_column, h, gone) at e))
          e
  ]
]

make_ready-again : (r : Row) → make_ready (make_ready r) ≡ make_ready r
make_ready-again r = elim (Bool-cases (is_text "pending" (r "status"))) [
  | inl h ↦ rw h refl
  | inr h ↦ rw (h, h) refl
]

map-make_ready-again :
    (rows : List Row) → map make_ready (map make_ready rows) ≡ map make_ready rows
map-make_ready-again [] = refl
map-make_ready-again (r ∷ rows) = rw (make_ready-again r, map-make_ready-again rows) refl

rename_pending_to_ready-SettlesAtOnce : SettlesAtOnce rename_pending_to_ready
unfolding rename_pending_to_ready update_rows has_all
rename_pending_to_ready-SettlesAtOnce s s' e = elim (Option-cases s.runs) [
  | inl h ↦ absurd (ground (arith, rw (rename_pending_to_ready, h) at e))
  | inr (runs, h) ↦ elim (Bool-cases (has_name "status" (column_names runs))) [
    | inl a ↦ elim (Option-cases s.tasks) [
      | inl g ↦ absurd (ground (arith, rw (rename_pending_to_ready, h, a, g) at e))
      | inr (tasks, g) ↦ elim (Bool-cases (has_name "status" (column_names tasks))) [
        | inl b ↦
            subst (λ x. rename_pending_to_ready x ≡ some x)
              (some-injective _ s' (rw (rename_pending_to_ready, h, a, g, b) at e))
              (rw (a, b, map-make_ready-again runs.rows, map-make_ready-again tasks.rows) refl)
        | inr b ↦ absurd (ground (arith, rw (rename_pending_to_ready, h, a, g, b) at e))
      ]
    ]
    | inr a ↦ absurd (ground (arith, rw (rename_pending_to_ready, h, a) at e))
  ]
]

abbrev jobs_index : String → List String → Index
jobs_index name columns = index_on name TableName.jobs columns

create_schedule_index-SettlesAtOnce : SettlesAtOnce create_schedule_index
unfolding create_schedule_index
create_schedule_index-SettlesAtOnce s s' e =
    let ix = jobs_index "ix_jobs_name_schedule" ("name" ∷ "schedule" ∷ []) in
    create_index-there ix s' (is_index-create_index ix s s' e)

create_jobs_table-SettlesAtOnce : SettlesAtOnce create_jobs_table
unfolding create_jobs_table
create_jobs_table-SettlesAtOnce s s' e =
    let i1 : Index = jobs_index "ix_jobs_queue_status" ("queue" ∷ "status" ∷ []) in
    let i2 : Index = jobs_index "ix_jobs_scheduled_at" ("scheduled_at" ∷ []) in
    let i3 : Index = jobs_index "ix_jobs_next_run_at" ("next_run_at" ∷ []) in
    let (s1, e1, f1) =
      then_run-cases (create_table TableName.jobs jobs_table s)
        (create_index i1 >> create_index i2 >> create_index i3) s' e in
    let (s2, e2, f2) =
      then_run-cases (create_index i1 s1) (create_index i2 >> create_index i3) s' f1 in
    let (s3, e3, e4) = then_run-cases (create_index i2 s2) (create_index i3) s' f2 in
    let (tb, g) = get_table-create_table TableName.jobs jobs_table s s1 e1 in
    let g' : get_table TableName.jobs s' ≡ some tb =
      get_table-create_index TableName.jobs i3 s3 s' e4
      ∙ get_table-create_index TableName.jobs i2 s2 s3 e3
      ∙ get_table-create_index TableName.jobs i1 s1 s2 e2
      ∙ g in
    let h1 =
      is_index-kept i1.name i3 s3 s'
        (is_index-kept i1.name i2 s2 s3 (is_index-create_index i1 s1 s2 e2) e3) e4 in
    let h2 = is_index-kept i2.name i3 s3 s' (is_index-create_index i2 s2 s3 e3) e4 in
    let h3 = is_index-create_index i3 s3 s' e4 in
    rw
      (
        create_table-there TableName.jobs jobs_table s' tb g',
        create_index-there i1 s' h1,
        create_index-there i2 s' h2,
      )
      (create_index-there i3 s' h3)

migrations-SettleAtOnce :
    (conn : Connection) → All (λ m. m.version ≢ 4 → SettlesAtOnce m.fn) (all_migrations conn)
unfolding all_migrations
migrations-SettleAtOnce conn = (
  (λ _. create_jobs_table-SettlesAtOnce),
  (
    (λ _. create_schedule_index-SettlesAtOnce),
    (
      (λ _. add_locked_at-SettlesAtOnce conn),
      (
        (λ four. absurd (four refl)),
        (
          (λ _. add_timestamps-SettlesAtOnce conn),
          (
            (λ _. add_job_retries-SettlesAtOnce conn),
            (
              (λ _. drop_cron_column-SettlesAtOnce conn),
              (
                (λ _. rename_pending_to_ready-SettlesAtOnce),
                (
                  (λ _. add_run_progress-SettlesAtOnce conn),
                  ((λ _. add_job_tags-SettlesAtOnce conn), tt),
                ),
              ),
            ),
          ),
        ),
      ),
    ),
  ),
)

-- Every migration but the fourth, once it has ended on whatever schema, leaves the schema as it is when
-- it runs again.
pub migration-again :
    (conn : Connection) (m : Migration Schema)
    → Memᴰ m (all_migrations conn)
    → m.version ≢ 4
    → (s s' : Schema) → m.fn s ≡ some s'
    → m.fn s' ≡ some s'
migration-again conn m listed four s s' e =
    All-mem (λ x. x.version ≢ 4 → SettlesAtOnce x.fn) (all_migrations conn)
      (migrations-SettleAtOnce conn) m listed four s s' e
