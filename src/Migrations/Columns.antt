-- ===== src/Migrations/Columns.antt =====
-- The columns of a table before and after the migrations add to it (pyreljob/migrations/versions.py).
use pyreljob.Migrations.Schema.{
  Column, Table, TableName, Schema, Connection, get_table, put_table, same_table, on_table,
  column_names, has_name, set_cell, default_value,
}
use pyreljob.Migrations.Statements.{is_constant, is_empty, add_column, add_missing}
use mathlib.Core.Option.{some-injective}
use pyreljob.Prelude.{
  ◌≡◌, ◌∙◌, refl, sym, ap, subst, Bool, true, false, not, ◌||◌, Option, none, some, List, [], ◌∷◌,
  ◌++◌, map, String, str_eq, str_eq_iff, if◌then◌else◌, ◌&&◌, inl, inr, Bool-cases, Option-cases,
  arith,
}

-- Whether a table is there with this column.
abbrev pub is_column : String → Option Table → Bool
is_column c none = false
is_column c (some tb) = has_name c (column_names tb)

abbrev pub has_column : TableName → String → Schema → Bool
has_column t c s = is_column c (get_table t s)

has_name-append :
    (c : String) (cs : List Column) (d : Column)
    → has_name c (map (λ x. x.name) (cs ++ d ∷ []))
      ≡ (has_name c (map (λ x. x.name) cs) || str_eq d.name c)
unfolding has_name
has_name-append c [] d = ground arith
has_name-append c (e ∷ cs) d = ground (arith, has_name-append c cs d)

pub get_put :
    (t u : TableName) (x : Table) (s : Schema)
    → get_table t (put_table u x s) ≡ (if same_table u t then some x else get_table t s)
get_put TableName.jobs TableName.jobs x s = refl
get_put TableName.jobs TableName.runs x s = refl
get_put TableName.jobs TableName.tasks x s = refl
get_put TableName.runs TableName.jobs x s = refl
get_put TableName.runs TableName.runs x s = refl
get_put TableName.runs TableName.tasks x s = refl
get_put TableName.tasks TableName.jobs x s = refl
get_put TableName.tasks TableName.runs x s = refl
get_put TableName.tasks TableName.tasks x s = refl

same_table-eq : (t u : TableName) → same_table u t ≡ true → u ≡ t
same_table-eq TableName.jobs TableName.jobs e = refl
same_table-eq TableName.runs TableName.runs e = refl
same_table-eq TableName.tasks TableName.tasks e = refl
same_table-eq TableName.jobs TableName.runs e = absurd (ground (arith, e))
same_table-eq TableName.jobs TableName.tasks e = absurd (ground (arith, e))
same_table-eq TableName.runs TableName.jobs e = absurd (ground (arith, e))
same_table-eq TableName.runs TableName.tasks e = absurd (ground (arith, e))
same_table-eq TableName.tasks TableName.jobs e = absurd (ground (arith, e))
same_table-eq TableName.tasks TableName.runs e = absurd (ground (arith, e))

pub same_table_refl : (t : TableName) → same_table t t ≡ true
same_table_refl TableName.jobs = refl
same_table_refl TableName.runs = refl
same_table_refl TableName.tasks = refl

abbrev with_column : Connection → Column → Table → Table
with_column conn d tb = record {
  columns = tb.columns ++ d ∷ [];
  rows = map (set_cell d.name (default_value conn d.default)) tb.rows;
}

-- A column that was added to a table that is there.
pub add_column-cases :
    (conn : Connection) (u : TableName) (d : Column) (s s' : Schema)
    → add_column conn u d s ≡ some s'
    → (tb : Table) × (get_table u s ≡ some tb) × (s' ≡ put_table u (with_column conn d tb) s)
unfolding add_column
add_column-cases conn u d s s' e = elim (Option-cases (get_table u s)) [
  | inl h ↦ absurd (ground (arith, rw (add_column, on_table, h) at e))
  | inr (tb, h) ↦
      elim (Bool-cases (
        has_name d.name (column_names tb)
        || (not (is_constant d.default) && not (is_empty tb.rows) && not conn.is_postgres))) [
          | inl b ↦ absurd (ground (arith, rw (add_column, on_table, h, b) at e))
          | inr b ↦ (tb, h, sym (some-injective _ _ (rw (add_column, on_table, h, b) at e)))
        ]
]

-- A column that is there stays, whatever is added.
has_column-add_column :
    (conn : Connection) (t u : TableName) (c : String) (d : Column) (s s' : Schema)
    → has_column t c s ≡ true
    → add_column conn u d s ≡ some s'
    → has_column t c s' ≡ true
has_column-add_column conn t u c d s s' h e =
    let (tb, g, made) = add_column-cases conn u d s s' e in
    elim (Bool-cases (same_table u t)) [
      | inl same ↦
          let old : is_column c (some tb) ≡ true =
            subst (λ x. is_column c x ≡ true)
              (ap (λ x. get_table x s) (sym (same_table-eq t u same)) ∙ g) h in
          rw (made, get_put t u (with_column conn d tb) s, same)
            (rw (has_name-append c tb.columns d, old) refl)
      | inr other ↦ rw (made, get_put t u (with_column conn d tb) s, other) h
    ]

has_column-added :
    (conn : Connection) (u : TableName) (d : Column) (s s' : Schema)
    → add_column conn u d s ≡ some s'
    → has_column u d.name s' ≡ true
has_column-added conn u d s s' e =
    let (tb, g, made) = add_column-cases conn u d s s' e in
    rw (made, get_put u u (with_column conn d tb) s, same_table_refl u)
      (rw (has_name-append d.name tb.columns d) (ground (arith, (str_eq_iff d.name d.name).1 refl)))

pub has_column-cases :
    (t : TableName) (c : String) (s : Schema)
    → has_column t c s ≡ true
    → (tb : Table) × (get_table t s ≡ some tb) × (has_name c (column_names tb) ≡ true)
has_column-cases t c s h = elim (Option-cases (get_table t s)) [
  | inl g ↦ absurd (ground (arith, rw g at h))
  | inr (tb, g) ↦ (tb, g, rw g at h)
]

pub has_column-table :
    (t : TableName) (c : String) (s : Schema) (tb : Table)
    → get_table t s ≡ some tb
    → has_name c (column_names tb) ≡ true
    → has_column t c s ≡ true
has_column-table t c s tb g h = rw g h

pub add_missing-present :
    (conn : Connection) (t : TableName) (columns : List String) (d : Column) (s : Schema)
    → has_name d.name columns ≡ true
    → add_missing conn t columns d s ≡ some s
unfolding add_missing
add_missing-present conn t columns d s h = rw h refl

pub has_column-add_missing :
    (conn : Connection) (t u : TableName) (columns : List String) (c : String) (d : Column)
    (s s' : Schema)
    → has_column t c s ≡ true
    → add_missing conn u columns d s ≡ some s'
    → has_column t c s' ≡ true
unfolding add_missing
has_column-add_missing conn t u columns c d s s' h e = elim (Bool-cases (has_name d.name columns)) [
  | inl old ↦
      subst (λ x. has_column t c x ≡ true) (some-injective s s' (rw (add_missing, old) at e)) h
  | inr new ↦ has_column-add_column conn t u c d s s' h (rw (add_missing, new) at e)
]

-- Where the names that were read before are still in the table, the column is there afterwards.
pub has_column-missing :
    (conn : Connection) (u : TableName) (columns : List String) (d : Column) (s s' : Schema)
    → (has_name d.name columns ≡ true → has_column u d.name s ≡ true)
    → add_missing conn u columns d s ≡ some s'
    → has_column u d.name s' ≡ true
unfolding add_missing
has_column-missing conn u columns d s s' h e = elim (Bool-cases (has_name d.name columns)) [
  | inl old ↦
      subst (λ x. has_column u d.name x ≡ true) (some-injective s s' (rw (add_missing, old) at e))
        (h old)
  | inr new ↦ has_column-added conn u d s s' (rw (add_missing, new) at e)
]
