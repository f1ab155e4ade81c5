-- ===== src/Migrations/Statements.antt =====
-- The DDL and the statements that the migrations issue, each as the database carries it out.
use pyreljob.Migrations.Schema.{
  Cell, Default, Column, Row, Table, TableName, Index, Connection, get_table, put_table, same_table,
  Statement, when, on_table, column_names, has_name, has_all, set_cell, default_value,
}
use pyreljob.Prelude.{
  ℕ, suc, String, Bool, true, false, not, ◌&&◌, ◌||◌, none, some, List, [], ◌∷◌, ◌++◌, map, str_eq,
  if◌then◌else◌,
}
use pyreljob.Sql.{select, exists}

-- CREATE TABLE IF NOT EXISTS
unfoldable pub create_table : TableName → List Column → Statement
create_table t columns s = elim (get_table t s) [
  | none ↦ some (put_table t (record { columns = columns; rows = [] }) s)
  | some _ ↦ some s
]

abbrev pub is_constant : Default → Bool
is_constant Default.current_timestamp = false
is_constant _ = true

abbrev pub is_empty : List Row → Bool
is_empty [] = true
is_empty (r ∷ rs) = false

-- ALTER TABLE … ADD COLUMN. SQLite refuses a default that is not a constant, unless there are no rows.
unfoldable pub add_column : Connection → TableName → Column → Statement
unfolding has_name
add_column conn t c = on_table t (λ tb s.
    if has_name c.name (column_names tb)
      || (not (is_constant c.default) && not (is_empty tb.rows) && not conn.is_postgres)
    then none
    else some (
        put_table t
          (record {
            columns = tb.columns ++ c ∷ [];
            rows = map (set_cell c.name (default_value conn c.default)) tb.rows;
          })
          s))

abbrev pub renamed : String → String → String → String
renamed old new c = if str_eq c old then new else c

abbrev pub rename_column_of : String → String → Column → Column
rename_column_of old new c = record c { name = renamed old new c.name }

abbrev pub rename_in : TableName → String → String → Index → Index
rename_in t old new ix =
    if same_table ix.table t then record ix { columns = map (renamed old new) ix.columns } else ix

-- ALTER TABLE … RENAME COLUMN
unfoldable pub rename_column : TableName → String → String → Statement
unfolding has_name
rename_column t old new = on_table t (λ tb s.
    if has_name old (column_names tb) && not (has_name new (column_names tb))
    then some
        (record (put_table t
          (record {
            columns = map (rename_column_of old new) tb.columns;
            rows = map (λ r. set_cell new (r old) r) tb.rows;
          })
          s) { indexes = map (rename_in t old new) s.indexes })
    else none)

abbrev pub uses_column : TableName → String → Index → Bool
unfolding has_name
uses_column t c ix = same_table ix.table t && has_name c ix.columns

-- ALTER TABLE … DROP COLUMN. PostgreSQL drops the indexes on it too, SQLite refuses if there are any.
unfoldable pub drop_column : Connection → TableName → String → Statement
unfolding has_name select exists
drop_column conn t c = on_table t (λ tb s.
    if not (has_name c (column_names tb))
      || (exists (uses_column t c) s.indexes && not conn.is_postgres)
    then none
    else some
        (record (put_table t
          (record tb { columns = select (λ d. not (str_eq d.name c)) tb.columns }) s) {
            indexes = select (λ ix. not (uses_column t c ix)) s.indexes;
          }))

-- Two values that a unique index does not let stand side by side. Only texts are indexed so.
abbrev pub same_key : Cell → Cell → Bool
same_key (Cell.text a) (Cell.text b) = str_eq a b
same_key _ _ = false

unfoldable pub has_duplicate : List Cell → Bool
unfolding exists
has_duplicate [] = false
has_duplicate (v ∷ vs) = exists (same_key v) vs || has_duplicate vs

abbrev pub is_refused : Index → Table → Bool
unfolding has_duplicate
is_refused ix tb = elim ix.columns [
  | [] ↦ false
  | c ∷ _ ↦ ix.unique && has_duplicate (map (λ r. r c) tb.rows)
]

-- CREATE [UNIQUE] INDEX IF NOT EXISTS. A unique index has one column.
unfoldable pub create_index : Index → Statement
unfolding has_all exists has_duplicate
create_index ix s =
    if exists (λ other. str_eq other.name ix.name) s.indexes
    then some s
    else on_table ix.table
        (λ tb s'.
          if not (has_all ix.columns (column_names tb)) || is_refused ix tb
          then none
          else some (record s' { indexes = s'.indexes ++ ix ∷ [] }))
        s

-- DROP INDEX IF EXISTS
unfoldable pub drop_index : String → Statement
unfolding select
drop_index name s = some (record s { indexes = select (λ ix. not (str_eq ix.name name)) s.indexes })

-- UPDATE … SET …, which names these columns.
unfoldable pub update_rows : TableName → List String → (Row → Row) → Statement
unfolding has_all
update_rows t names f = on_table t (λ tb s.
    if has_all names (column_names tb)
    then some (put_table t (record tb { rows = map f tb.rows }) s)
    else none)

-- `if column not in columns: ALTER TABLE … ADD COLUMN`, where `columns` were read before.
unfoldable pub add_missing : Connection → TableName → List String → Column → Statement
unfolding has_name add_column
add_missing conn t columns c = when (not (has_name c.name columns)) (add_column conn t c)

-- What a column of a new row has that the statement does not name.
unfoldable pub defaults : Connection → List Column → Row
defaults conn [] d = Cell.null
defaults conn (c ∷ cs) d =
    if str_eq c.name d then default_value conn c.default else defaults conn cs d

-- A new row: its key, the columns that the statement names, and the defaults of the others.
abbrev pub new_row : Connection → List Column → List String → ℕ → Row → Row
unfolding has_name defaults
new_row conn columns names k values =
    set_cell "id" (Cell.number k)
      (λ d. if has_name d names then values d else defaults conn columns d)

unfoldable pub number_rows : (ℕ → Row → Row) → ℕ → List Row → List Row
number_rows f k [] = []
number_rows f k (r ∷ rs) = f k r ∷ number_rows f (suc k) rs

-- INSERT INTO runs … SELECT …, with the selected values under the names of the columns.
unfoldable pub insert_runs : Connection → List String → List Row → Statement
unfolding has_all number_rows
insert_runs conn names values = on_table TableName.runs (λ tb s.
    if has_all names (column_names tb)
    then some (
        put_table TableName.runs
          (record tb {
            rows = tb.rows ++ number_rows (new_row conn tb.columns names) conn.first_run_id values;
          })
          s)
    else none)
