-- ===== src/Migrations.antt =====
-- pyreljob/migrations/runner.py: the runner of the versioned schema steps. A migration that raises is
-- none, and its transaction is rolled back.
pub mod Resume
pub mod Versions
pub mod Schema
pub mod Statements
pub mod Steps
pub mod Additions
pub mod Again
pub mod Repeated
pub mod Refused
pub mod Indexes
pub mod Columns
pub mod Legacy
use pyreljob.Prelude.{
  ℕ, String, Bool, true, false, Option, none, some, List, [], ◌∷◌, ◌++◌, ltb, leb, ◌==◌, length,
  if◌then◌else◌,
}
use pyreljob.Sql.{select, exists, order_by}

-- `S` is the database without the table schema_migrations.
pub record Migration (S : Type 0) : Type 0 where
  pub version : ℕ
  pub description : String
  pub fn : S → Option S

-- schema_migrations is NULL here as long as the table does not exist.
pub record Store (S : Type 0) : Type 0 where
  pub schema_migrations : Option (List (ℕ × String))
  pub schema : S

abbrev pub bigger : ℕ → ℕ → ℕ
bigger v w = if ltb v w then w else v

-- SELECT MAX(version)
abbrev pub max_version : List (ℕ × String) → Option ℕ
max_version [] = none
max_version ((v, d) ∷ rows) = elim (max_version rows) [ none ↦ some v | some w ↦ some (bigger v w) ]

abbrev pub or_zero : Option ℕ → ℕ
or_zero none = 0
or_zero (some v) = v

abbrev pub applied_rows : Option (List (ℕ × String)) → List (ℕ × String)
applied_rows none = []
applied_rows (some rows) = rows

module _ {S : Type 0} where
  abbrev pub version : Store S → Option ℕ
  version st = elim st.schema_migrations [ none ↦ none | some rows ↦ max_version rows ]

  abbrev pub current : Store S → ℕ
  current st = or_zero (version st)

  abbrev pub by_version : Migration S → Migration S → Bool
  by_version m n = ltb m.version n.version

  -- The list that the runner keeps: sorted(migrations, key=version).
  unfoldable pub migrations : List (Migration S) → List (Migration S)
  migrations given = order_by by_version given

  unfoldable pub pending : List (Migration S) → Store S → List (Migration S)
  unfolding migrations
  pending given st = select (λ m. ltb (current st) m.version) (migrations given)

  -- _apply: the version is the primary key of schema_migrations.
  unfoldable pub apply_migration : Migration S → Store S → Option (Store S)
  apply_migration m st =
      let rows = applied_rows st.schema_migrations in
      elim (m.fn st.schema) [
        | none ↦ none
        | some schema ↦
            if exists (λ r. r.0 == m.version) rows
            then none
            else some (record {
              schema_migrations = some (rows ++ (m.version, m.description) ∷ []);
              schema = schema;
            })
      ]

  abbrev pub is_enough : Option ℕ → List (Migration S) → Bool
  is_enough none applied = false
  is_enough (some steps) applied = leb steps (length applied)

  -- The loop of up; `none` beside the store if a migration raised.
  unfoldable pub apply_all :
      Option ℕ
      → List (Migration S)
      → List (Migration S)
      → Store S
      → Option (List (Migration S)) × Store S
  unfolding apply_migration
  apply_all steps applied [] st = (some applied, st)
  apply_all steps applied (m ∷ ms) st =
      if is_enough steps applied then (some applied, st) else (elim (apply_migration m st) [
        | none ↦ (none, st)
        | some st' ↦ apply_all steps (applied ++ m ∷ []) ms st'
      ])

  unfoldable pub up :
      List (Migration S) → Option ℕ → Store S → Option (List (Migration S)) × Store S
  unfolding pending apply_all
  up given steps st = apply_all steps [] (pending given st) st
