-- ===== src/Migrations/Refused.antt =====
-- pyreljob/migrations/versions.py: version 5 on SQLite, which adds no column with a default that is not
-- a constant to a table with rows.
use pyreljob.Migrations.Columns.{add_column-cases}
use pyreljob.Migrations.Additions.{
  with_timestamps, run_and_task_timestamps, task_timestamps, then_run-cases, names,
  with_columns-names,
}
use pyreljob.Migrations.Schema.{
  Column, Table, TableName, Schema, Connection, Statement, put_table, when, with_columns, on_table,
  column_names, has_name, nullable, timestamped,
}
use pyreljob.Migrations.Statements.{add_column, add_missing, is_empty}
use pyreljob.Migrations.Steps.{add_timestamps}
use mathlib.Core.Option.{some-injective}
use pyreljob.Prelude.{
  ◌≡◌, ◌∙◌, refl, sym, ap, false, none, some, List, String, inl, inr, Bool-cases, Option-cases,
  arith,
}

-- What is added to jobs or runs leaves tasks.
tasks-add_missing :
    (conn : Connection) (t : TableName) (names : List String) (d : Column) (s s' : Schema)
    → ((x : Table) → (put_table t x s).tasks ≡ s.tasks)
    → add_missing conn t names d s ≡ some s'
    → s'.tasks ≡ s.tasks
unfolding add_missing
tasks-add_missing conn t names d s s' other e = elim (Bool-cases (has_name d.name names)) [
  | inl old ↦ ap (λ x. x.tasks) (sym (some-injective s s' (rw (add_missing, old) at e)))
  | inr new ↦
      let (tb, g, made) = add_column-cases conn t d s s' (rw (add_missing, new) at e) in
      ap (λ x. x.tasks) made ∙ other _
]

created_at-refused :
    (conn : Connection) (names : List String) (s : Schema) (tb : Table)
    → conn.is_postgres ≡ false
    → s.tasks ≡ some tb
    → has_name "created_at" names ≡ false
    → is_empty tb.rows ≡ false
    → add_missing conn TableName.tasks names (timestamped "created_at") s ≡ none
unfolding add_missing add_column
created_at-refused conn names s tb lite h new rows =
    rw (add_missing, new, when, add_column, on_table, h, rows, lite)
      (elim (Bool-cases (has_name "created_at" (column_names tb))) [
        | inl e ↦ rw e refl
        | inr e ↦ rw e refl
      ])

-- On SQLite, where tasks has rows and no column created_at, version 5 raises, whatever the other tables are.
pub add_timestamps-refused :
    (conn : Connection) (s : Schema) (tb : Table)
    → conn.is_postgres ≡ false
    → s.tasks ≡ some tb
    → has_name "created_at" (column_names tb) ≡ false
    → is_empty tb.rows ≡ false
    → add_timestamps conn s ≡ none
unfolding add_timestamps
add_timestamps-refused conn s tb lite h new rows = elim (Option-cases (add_timestamps conn s)) [
  | inl e ↦ e
  | inr (s', e) ↦
      let job_names = names s TableName.jobs in
      let run_names = names s TableName.runs in
      let task_names = names s TableName.tasks in
      let in_tasks : List String → List String → Statement =
        λ jobs runs. with_columns TableName.tasks (λ tasks. with_timestamps conn jobs runs tasks) in
      let in_runs : List String → Statement =
        λ jobs. with_columns TableName.runs (λ runs. in_tasks jobs runs) in
      let e1 = with_columns-names TableName.jobs in_runs s s' e in
      let e2 = with_columns-names TableName.runs (in_tasks job_names) s s' e1 in
      let e3 =
        with_columns-names TableName.tasks (with_timestamps conn job_names run_names) s s' e2 in
      let (s1, f1, g1) =
        then_run-cases (add_missing conn TableName.jobs job_names (nullable "updated_at") s)
          (run_and_task_timestamps conn run_names task_names) s' e3 in
      let (s2, f2, g2) =
        then_run-cases (add_missing conn TableName.runs run_names (nullable "updated_at") s1)
          (task_timestamps conn task_names) s' g1 in
      let kept =
        tasks-add_missing conn TableName.runs run_names (nullable "updated_at") s1 s2 (λ x. refl) f2
        ∙ tasks-add_missing conn TableName.jobs job_names (nullable "updated_at") s s1 (λ x. refl)
            f1
        ∙ h in
      let gone = created_at-refused conn task_names s2 tb lite kept (rw h new) rows in
      absurd (ground (arith, rw gone at g2))
]
