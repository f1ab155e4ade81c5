-- ===== src/Migrations/Additions.antt =====
-- Additions of columns guarded by names that were read before (pyreljob/migrations/versions.py), run a
-- second time.
use pyreljob.Migrations.Columns.{
  is_column, has_column, add_missing-present, has_column-add_missing, has_column-missing,
}
use pyreljob.Migrations.Schema.{
  timestamped, nullable, Column, Table, TableName, Schema, Connection, Statement, get_table,
  then_run, ◌>>◌, with_columns, column_names, has_name,
}
use pyreljob.Migrations.Statements.{add_missing}
use pyreljob.Prelude.{
  ◌≡◌, ◌∙◌, refl, sym, true, Option, none, some, List, [], ◌∷◌, String, All, arith,
}

-- Once the step has ended, it does nothing when it runs again.
abbrev pub SettlesAtOnce : Statement → Type 0
SettlesAtOnce m = (s s' : Schema) → m s ≡ some s' → m s' ≡ some s'

-- The names of a table's columns, none if there is no such table.
abbrev pub names_of : Option Table → List String
names_of none = []
names_of (some tb) = column_names tb

abbrev pub names : Schema → TableName → List String
names s t = names_of (get_table t s)

names-has_column :
    (s : Schema) (t : TableName) (c : String) → has_column t c s ≡ has_name c (names s t)
unfolding has_name
names-has_column s t c = go (get_table t s)
  where
    go : (o : Option Table) → is_column c o ≡ has_name c (names_of o)
    go none = refl
    go (some tb) = refl

-- Additions in a row, guarded by names that were read before.
abbrev pub additions :
    Connection
    → (TableName → List String)
    → TableName × Column
    → List (TableName × Column)
    → Statement
additions conn read (t, d) [] = add_missing conn t (read t) d
additions conn read (t, d) (x ∷ xs) = add_missing conn t (read t) d >> additions conn read x xs

abbrev pub AreThere : List (TableName × Column) → Schema → Type 0
AreThere xs s = All (λ x. has_column x.0 x.1.name s ≡ true) xs

pub then_run-cases :
    (o : Option Schema) (n : Statement) (s' : Schema)
    → then_run o n ≡ some s'
    → (mid : Schema) × (o ≡ some mid) × (n mid ≡ some s')
then_run-cases none n s' e = absurd (ground (arith, e))
then_run-cases (some mid) n s' e = (mid, refl, e)

has_column-additions :
    (conn : Connection) (read : TableName → List String) (u : TableName) (c : String)
    (x : TableName × Column) (xs : List (TableName × Column)) (s s' : Schema)
    → has_column u c s ≡ true
    → additions conn read x xs s ≡ some s'
    → has_column u c s' ≡ true
has_column-additions conn read u c (t, d) [] s s' h e =
    has_column-add_missing conn u t (read t) c d s s' h e
has_column-additions conn read u c (t, d) (x ∷ xs) s s' h e =
    let (mid, e1, e2) =
      then_run-cases (add_missing conn t (read t) d s) (additions conn read x xs) s' e in
    has_column-additions conn read u c x xs mid s'
      (has_column-add_missing conn u t (read t) c d s mid h e1) e2

AreThere-additions :
    (conn : Connection) (read : TableName → List String) (x : TableName × Column)
    (xs : List (TableName × Column)) (s s' : Schema)
    → ((t : TableName) (c : String) → has_name c (read t) ≡ true → has_column t c s ≡ true)
    → additions conn read x xs s ≡ some s'
    → AreThere (x ∷ xs) s'
AreThere-additions conn read (t, d) [] s s' known e =
    (has_column-missing conn t (read t) d s s' (known t d.name) e, tt)
AreThere-additions conn read (t, d) (x ∷ xs) s s' known e =
    let (mid, e1, e2) =
      then_run-cases (add_missing conn t (read t) d s) (additions conn read x xs) s' e in
    (
      has_column-additions conn read t d.name x xs mid s'
          (has_column-missing conn t (read t) d s mid (known t d.name) e1) e2,
      AreThere-additions conn read x xs mid s'
          (λ u c h. has_column-add_missing conn u t (read t) c d s mid (known u c h) e1) e2,
    )

additions-there :
    (conn : Connection) (x : TableName × Column) (xs : List (TableName × Column)) (s : Schema)
    → AreThere (x ∷ xs) s
    → additions conn (names s) x xs s ≡ some s
additions-there conn (t, d) [] s h =
    add_missing-present conn t (names s t) d s (sym (names-has_column s t d.name) ∙ h.0)
additions-there conn (t, d) (x ∷ xs) s h =
    rw (add_missing-present conn t (names s t) d s (sym (names-has_column s t d.name) ∙ h.0))
      (additions-there conn x xs s h.1)

pub additions-again :
    (conn : Connection) (x : TableName × Column) (xs : List (TableName × Column)) (s s' : Schema)
    → additions conn (names s) x xs s ≡ some s'
    → AreThere (x ∷ xs) s' × (additions conn (names s') x xs s' ≡ some s')
additions-again conn x xs s s' e =
    let there =
      AreThere-additions conn (names s) x xs s s' (λ t c h. names-has_column s t c ∙ h) e in
    (there, additions-there conn x xs s' there)

pub with_columns-names :
    (t : TableName) (f : List String → Statement) (s s' : Schema)
    → with_columns t f s ≡ some s'
    → f (names s t) s ≡ some s'
with_columns-names t f s s' = go (get_table t s)
  where
    go :
        (o : Option Table)
        → elim o [ none ↦ none | some tb ↦ f (column_names tb) s ] ≡ some s'
        → f (names_of o) s ≡ some s'
    go none e = absurd (ground (arith, e))
    go (some tb) e = e

pub names-with_columns :
    (t : TableName) (c : String) (f : List String → Statement) (s : Schema)
    → has_column t c s ≡ true
    → with_columns t f s ≡ f (names s t) s
names-with_columns t c f s = go (get_table t s)
  where
    go :
        (o : Option Table)
        → is_column c o ≡ true
        → elim o [ none ↦ none | some tb ↦ f (column_names tb) s ] ≡ f (names_of o) s
    go none e = absurd (ground (arith, e))
    go (some tb) e = refl

-- A step that adds columns to one table.
pub with_columns-SettlesAtOnce :
    (conn : Connection) (t : TableName) (d : Column) (xs : List (TableName × Column))
    (f : List String → Statement)
    → ((s : Schema) → f (names s t) s ≡ additions conn (names s) (t, d) xs s)
    → SettlesAtOnce (with_columns t f)
with_columns-SettlesAtOnce conn t d xs f added s s' e =
    let (there, again) =
      additions-again conn (t, d) xs s s' (sym (added s) ∙ with_columns-names t f s s' e) in
    names-with_columns t d.name f s' there.0 ∙ added s' ∙ again

-- The additions of version 5, with the names that each table had before.
abbrev pub task_timestamps : Connection → List String → Statement
task_timestamps conn tasks =
    add_missing conn TableName.tasks tasks (timestamped "created_at")
    >> add_missing conn TableName.tasks tasks (nullable "updated_at")

abbrev pub run_and_task_timestamps : Connection → List String → List String → Statement
run_and_task_timestamps conn runs tasks =
    add_missing conn TableName.runs runs (nullable "updated_at") >> task_timestamps conn tasks

abbrev pub with_timestamps : Connection → List String → List String → List String → Statement
with_timestamps conn jobs runs tasks =
    add_missing conn TableName.jobs jobs (nullable "updated_at")
    >> run_and_task_timestamps conn runs tasks
