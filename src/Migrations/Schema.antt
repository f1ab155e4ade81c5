-- ===== src/Migrations/Schema.antt =====
-- The tables as the migrations see them: columns with their defaults, rows, and indexes. A row gives a
-- value for each column name. The types of the columns and NOT NULL are left out. A statement that
-- the database refuses is none.
use pyreljob.Json.{Json}
use pyreljob.Models.{Time}
use pyreljob.Prelude.{
  ℕ, String, Bool, true, false, ◌&&◌, ◌||◌, Option, none, some, List, [], ◌∷◌, map, str_eq,
  if◌then◌else◌,
}

pub data Cell : Type 0 where
  null : Cell
  text : String → Cell
  number : ℕ → Cell
  json : Json → Cell
  instant : Time → Cell

pub data Default : Type 0 where
  absent : Default
  literal : Cell → Default
  current_timestamp : Default

pub record Column : Type 0 where
  pub name : String
  pub default : Default

abbrev pub Row : Type 0
Row = String → Cell

pub record Table : Type 0 where
  pub columns : List Column
  pub rows : List Row

pub data TableName : Type 0 where
  jobs runs tasks : TableName

pub record Index : Type 0 where
  pub name : String
  pub table : TableName
  pub columns : List String
  pub unique : Bool

pub record Schema : Type 0 where
  pub jobs : Option Table
  pub runs : Option Table
  pub tasks : Option Table
  pub indexes : List Index

-- The dialect, the time of the transaction, and the key that the first new run gets.
pub record Connection : Type 0 where
  pub is_postgres : Bool
  pub now : Time
  pub first_run_id : ℕ

abbrev pub get_table : TableName → Schema → Option Table
get_table TableName.jobs s = s.jobs
get_table TableName.runs s = s.runs
get_table TableName.tasks s = s.tasks

abbrev pub put_table : TableName → Table → Schema → Schema
put_table TableName.jobs t s = record s { jobs = some t }
put_table TableName.runs t s = record s { runs = some t }
put_table TableName.tasks t s = record s { tasks = some t }

abbrev pub same_table : TableName → TableName → Bool
same_table TableName.jobs TableName.jobs = true
same_table TableName.runs TableName.runs = true
same_table TableName.tasks TableName.tasks = true
same_table _ _ = false

-- A statement, or several of them in one transaction.
abbrev pub Statement : Type 0
Statement = Schema → Option Schema

abbrev pub skip : Statement
skip s = some s

abbrev pub then_run : Option Schema → Statement → Option Schema
then_run none n = none
then_run (some s) n = n s

infixr 10 ◌>>◌
abbrev pub ◌>>◌ : Statement → Statement → Statement
◌>>◌ m n s = then_run (m s) n

-- `if condition: …`
abbrev pub when : Bool → Statement → Statement
when true m = m
when false m = skip

abbrev pub on_table : TableName → (Table → Statement) → Statement
on_table t f s = elim (get_table t s) [ none ↦ none | some tb ↦ f tb s ]

abbrev pub column_names : Table → List String
column_names tb = map (λ c. c.name) tb.columns

unfoldable pub has_name : String → List String → Bool
has_name c [] = false
has_name c (d ∷ ds) = str_eq d c || has_name c ds

unfoldable pub has_all : List String → List String → Bool
unfolding has_name
has_all [] names = true
has_all (c ∷ cs) names = has_name c names && has_all cs names

-- `{col["name"] for col in inspect(conn).get_columns(…)}`; it raises if there is no such table.
abbrev pub with_columns : TableName → (List String → Statement) → Statement
with_columns t f = on_table t (λ tb. f (column_names tb))

-- The row with another value in one column.
abbrev pub set_cell : String → Cell → Row → Row
set_cell c v r d = if str_eq d c then v else r d

abbrev pub default_value : Connection → Default → Cell
default_value conn Default.absent = Cell.null
default_value conn (Default.literal v) = v
default_value conn Default.current_timestamp = Cell.instant conn.now

abbrev pub is_text : String → Cell → Bool
is_text s (Cell.text t) = str_eq t s
is_text s _ = false

abbrev pub is_null : Cell → Bool
is_null Cell.null = true
is_null _ = false

abbrev pub nullable : String → Column
nullable name = record { name = name; default = Default.absent }

abbrev pub with_default : String → Cell → Column
with_default name v = record { name = name; default = Default.literal v }

abbrev pub timestamped : String → Column
timestamped name = record { name = name; default = Default.current_timestamp }

abbrev pub index_on : String → TableName → List String → Index
index_on name t columns = record { name = name; table = t; columns = columns; unique = false }

abbrev pub unique_index_on : String → TableName → List String → Index
unique_index_on name t columns = record { name = name; table = t; columns = columns; unique = true }
