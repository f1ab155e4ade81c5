-- ===== src/Sql.antt =====
-- The SQL statements that the backend issues through SQLAlchemy, over a table as the list of its
-- rows: WHERE as a filter, UPDATE, DELETE, EXISTS, rowcount, ORDER BY as a stable insertion sort,
-- and the lookup by primary key of Session.get. A comparison with NULL is never true.
pub mod Rows
pub mod Count
pub mod Keyed
pub mod Order
pub mod Batch
pub mod Exists
use pyreljob.Prelude.{
  ℕ, zero, suc, ◌≡◌, refl, Bool, true, false, not, Option, none, some, List, [], ◌∷◌, leb, ltb,
  ◌==◌, if◌then◌else◌,
}

module _ {ℓ} {A : Type ℓ} where
  unfoldable pub select : (A → Bool) → List A → List A
  select p [] = []
  select p (x ∷ xs) = let rest = select p xs in if p x then x ∷ rest else rest

  unfoldable pub update : (A → Bool) → (A → A) → List A → List A
  update p f [] = []
  update p f (x ∷ xs) = (if p x then f x else x) ∷ update p f xs

  unfoldable pub delete : (A → Bool) → List A → List A
  unfolding select
  delete p = select (λ x. not (p x))

  -- The number of rows that an UPDATE with this WHERE clause touches.
  unfoldable pub rowcount : (A → Bool) → List A → ℕ
  rowcount p [] = 0
  rowcount p (x ∷ xs) = let rest = rowcount p xs in if p x then suc rest else rest

  unfoldable pub exists : (A → Bool) → List A → Bool
  exists p [] = false
  exists p (x ∷ xs) = let rest = exists p xs in if p x then true else rest

  -- `before a b`: the row `a` is to stand strictly before `b`.
  unfoldable pub insert_by : (A → A → Bool) → A → List A → List A
  insert_by before x [] = x ∷ []
  insert_by before x (y ∷ ys) =
      let rest = insert_by before x ys in if before y x then y ∷ rest else x ∷ y ∷ ys

  unfoldable pub order_by : (A → A → Bool) → List A → List A
  unfolding insert_by
  order_by before [] = []
  order_by before (x ∷ xs) = insert_by before x (order_by before xs)

  -- The row with the given primary key.
  unfoldable pub find : (A → ℕ) → ℕ → List A → Option A
  find key k [] = none
  find key k (x ∷ xs) = let rest = find key k xs in if key x == k then some x else rest
  -- `x IN (l)` over a column of numbers.

unfoldable pub is_in : ℕ → List ℕ → Bool
is_in k [] = false
is_in k (x ∷ xs) = let rest = is_in k xs in if x == k then true else rest

-- `column IS NULL`.
abbrev pub is_null {ℓ} : {A : Type ℓ} → Option A → Bool
is_null none = true
is_null (some a) = false

-- `column <= t` and `column < t` for a column that may be NULL.
abbrev pub null_le : Option ℕ → ℕ → Bool
null_le none t = false
null_le (some s) t = leb s t

abbrev pub null_lt : Option ℕ → ℕ → Bool
null_lt none t = false
null_lt (some s) t = ltb s t
