-- ===== src/Migrations/Indexes.antt =====
-- CREATE TABLE and CREATE INDEX with IF NOT EXISTS, run a second time (pyreljob/migrations/versions.py).
use pyreljob.Sql.{exists}
use pyreljob.Migrations.Statements.{is_refused, create_table, create_index}
use pyreljob.Migrations.Schema.{Index, has_all}
use pyreljob.Migrations.Columns.{get_put, same_table_refl}
use pyreljob.Migrations.Schema.{Column, Table, TableName, Schema, get_table, on_table, column_names}
use mathlib.Core.Option.{some-injective}
use pyreljob.Prelude.{
  ◌≡◌, ◌∙◌, refl, sym, ap, Bool, true, not, ◌||◌, ◌⊎◌, some, List, [], ◌∷◌, ◌++◌, String, str_eq,
  str_eq_iff, inl, inr, Bool-cases, Option-cases, arith,
}

abbrev pub is_index : String → Schema → Bool
is_index name s = exists (λ other. str_eq other.name name) s.indexes

exists-append :
    (name : String) (ixs : List Index) (ix : Index)
    → exists (λ other. str_eq other.name name) (ixs ++ ix ∷ [])
      ≡ (exists (λ other. str_eq other.name name) ixs || str_eq ix.name name)
unfolding exists
exists-append name [] ix = ground arith
exists-append name (x ∷ ixs) ix = ground (arith, exists-append name ixs ix)

-- The index is there, or it is added.
create_index-cases :
    (ix : Index) (s s' : Schema)
    → create_index ix s ≡ some s'
    → (s' ≡ s) × (is_index ix.name s ≡ true) ⊎ (s' ≡ record s { indexes = s.indexes ++ ix ∷ [] })
unfolding create_index
create_index-cases ix s s' e = elim (Bool-cases (is_index ix.name s)) [
  | inl there ↦ inl (sym (some-injective s s' (rw (create_index, there) at e)), there)
  | inr absent ↦ elim (Option-cases (get_table ix.table s)) [
    | inl g ↦ absurd (ground (arith, rw (create_index, absent, on_table, g) at e))
    | inr (tb, g) ↦
        elim (Bool-cases (not (has_all ix.columns (column_names tb)) || is_refused ix tb)) [
          | inl refused ↦
              absurd (ground (arith, rw (create_index, absent, on_table, g, refused) at e))
          | inr fine ↦
              inr (sym (some-injective _ s' (rw (create_index, absent, on_table, g, fine) at e)))
        ]
  ]
]

get_table-indexes :
    (t : TableName) (s : Schema) (ixs : List Index)
    → get_table t (record s { indexes = ixs }) ≡ get_table t s
get_table-indexes TableName.jobs s ixs = refl
get_table-indexes TableName.runs s ixs = refl
get_table-indexes TableName.tasks s ixs = refl

pub is_index-create_index :
    (ix : Index) (s s' : Schema) → create_index ix s ≡ some s' → is_index ix.name s' ≡ true
is_index-create_index ix s s' e = elim (create_index-cases ix s s' e) [
  | inl (same, there) ↦ rw same there
  | inr made ↦
      rw (made, exists-append ix.name s.indexes ix)
        (ground (arith, (str_eq_iff ix.name ix.name).1 refl))
]

pub is_index-kept :
    (name : String) (ix : Index) (s s' : Schema)
    → is_index name s ≡ true
    → create_index ix s ≡ some s'
    → is_index name s' ≡ true
is_index-kept name ix s s' h e = elim (create_index-cases ix s s' e) [
  | inl (same, _) ↦ rw same h
  | inr made ↦ rw (made, exists-append name s.indexes ix, h) refl
]

pub get_table-create_index :
    (t : TableName) (ix : Index) (s s' : Schema)
    → create_index ix s ≡ some s'
    → get_table t s' ≡ get_table t s
get_table-create_index t ix s s' e = elim (create_index-cases ix s s' e) [
  | inl (same, _) ↦ ap (get_table t) same
  | inr made ↦ ap (get_table t) made ∙ get_table-indexes t s (s.indexes ++ ix ∷ [])
]

pub create_index-there :
    (ix : Index) (s : Schema) → is_index ix.name s ≡ true → create_index ix s ≡ some s
unfolding create_index
create_index-there ix s h = rw (create_index, h) refl

pub get_table-create_table :
    (t : TableName) (columns : List Column) (s s' : Schema)
    → create_table t columns s ≡ some s'
    → (tb : Table) × (get_table t s' ≡ some tb)
unfolding create_table
get_table-create_table t columns s s' e = elim (Option-cases (get_table t s)) [
  | inl g ↦ (
    record { columns = columns; rows = [] },
    ap (get_table t) (sym (some-injective _ s' (rw (create_table, g) at e)))
        ∙ (rw (get_put t t (record { columns = columns; rows = [] }) s, same_table_refl t) refl),
  )
  | inr (tb, g) ↦ (tb, ap (get_table t) (sym (some-injective s s' (rw (create_table, g) at e))) ∙ g)
]

pub create_table-there :
    (t : TableName) (columns : List Column) (s : Schema) (tb : Table)
    → get_table t s ≡ some tb
    → create_table t columns s ≡ some s
unfolding create_table
create_table-there t columns s tb g = rw (create_table, g) refl
