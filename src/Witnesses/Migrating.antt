-- ===== src/Witnesses/Migrating.antt =====
-- Migrating an empty database, whose schema is a number here.
use pyreljob.Migrations.{Migration, Store, pending, up, migrations, apply_all, apply_migration}
use pyreljob.Migrations.Resume.{up-IsOutcome, IsOutcome}
use pyreljob.Migrations.Versions.{Apart}
use pyreljob.Prelude.{ℕ, suc, ◌≡◌, refl, none, some, [], ◌∷◌, arith}
use pyreljob.Sql.{select, order_by, insert_by, exists}

abbrev first_step : Migration ℕ
first_step = record { version = 1; description = "jobs"; fn = λ n. some (suc n) }

abbrev second_step : Migration ℕ
second_step = record { version = 2; description = "runs"; fn = λ n. some (suc n) }

abbrev broken_step : Migration ℕ
broken_step = record { version = 3; description = "tasks"; fn = λ n. none }

abbrev fresh_store : Store ℕ
fresh_store = record { schema_migrations = none; schema = 0 }

abbrev migrated_store : Store ℕ
migrated_store = record { schema_migrations = some ((1, "jobs") ∷ (2, "runs") ∷ []); schema = 2 }

steps-Apart : Apart (broken_step ∷ second_step ∷ first_step ∷ [])
steps-Apart = (
  ((λ e. ground (arith, e)), ((λ e. ground (arith, e)), tt)),
  (((λ e. ground (arith, e)), tt), (tt, tt)),
)

up-IsOutcome_example :
    IsOutcome
      (broken_step ∷ second_step ∷ first_step ∷ [])
      none
      []
      fresh_store
      (pending (broken_step ∷ second_step ∷ first_step ∷ []) fresh_store)
      (up (broken_step ∷ second_step ∷ first_step ∷ []) none fresh_store)
up-IsOutcome_example =
    up-IsOutcome (broken_step ∷ second_step ∷ first_step ∷ []) none fresh_store steps-Apart

two_steps-Apart : Apart (second_step ∷ first_step ∷ [])
two_steps-Apart = (((λ e. ground (arith, e)), tt), (tt, tt))

migrated :
    up (second_step ∷ first_step ∷ []) none fresh_store
    ≡ (some (first_step ∷ second_step ∷ []), migrated_store)
unfolding up pending migrations apply_all apply_migration select order_by insert_by exists
migrated = refl
