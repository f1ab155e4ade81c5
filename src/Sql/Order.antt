-- ===== src/Sql/Order.antt =====
-- ORDER BY: the rows of the result, and the first of them.
use mathlib.Core.Option.{some-injective}
use pyreljob.Prelude.{
  ◌≡◌, refl, subst, inl, inr, Bool, true, false, none, some, List, [], ◌∷◌, arith, Bool-cases,
  head?, All, All-map_mono,
}
use pyreljob.Sql.{insert_by, order_by}

-- `before` orders the rows strictly, with ties.
pub record IsOrder {ℓ} {A : Type ℓ} (before : A → A → Bool) : Type ℓ where
  pub asym : (x y : A) → before x y ≡ true → before y x ≡ false
  pub irrefl : (x : A) → before x x ≡ false
  pub trans : (x y z : A) → before x y ≡ false → before y z ≡ false → before x z ≡ false

module _ {ℓ} {A : Type ℓ} (before : A → A → Bool) where
  insert_by-ne_nil : (x : A) (ys : List A) → head? (insert_by before x ys) ≡ none → ⊥
  unfolding insert_by
  insert_by-ne_nil x [] e = ground (arith, e)
  insert_by-ne_nil x (y ∷ ys) e = ground (arith, e)

  pub nil_of_order_by : (xs : List A) → head? (order_by before xs) ≡ none → xs ≡ []
  unfolding order_by
  nil_of_order_by [] e = refl
  nil_of_order_by (x ∷ xs) e = absurd (insert_by-ne_nil x (order_by before xs) e)

  module _ {κ} (P : A → Type κ) where
    pub All-insert_by : (x : A) (ys : List A) → P x → All P ys → All P (insert_by before x ys)
    unfolding insert_by
    All-insert_by x [] h hs = (h, tt)
    All-insert_by x (y ∷ ys) h hs = elim (Bool-cases (before y x)) [
      | inl e ↦ rw e (hs.0, All-insert_by x ys h hs.1)
      | inr e ↦ rw e (h, hs)
    ]

    pub All-order_by : (xs : List A) → All P xs → All P (order_by before xs)
    unfolding order_by
    All-order_by [] hs = tt
    All-order_by (x ∷ xs) hs = All-insert_by x (order_by before xs) hs.0 (All-order_by xs hs.1)

  module _ (o : IsOrder before) where
    abbrev Least : A → List A → Type 0
    Least h = All (λ z. before z h ≡ false)

    -- Inserting keeps the head least, or makes the new row the least one.
    Least-insert :
        (x h : A) (xs s : List A)
        → ((y : A) → head? s ≡ some y → Least y xs)
        → (head? s ≡ none → xs ≡ [])
        → head? (insert_by before x s) ≡ some h
        → Least h (x ∷ xs)
    unfolding insert_by
    Least-insert x h xs [] all empty e =
        subst (λ k. Least k (x ∷ xs)) (some-injective x h e) (rw (empty refl) (o.irrefl x, tt))
    Least-insert x h xs (y ∷ s) all empty e = elim (Bool-cases (before y x)) [
      | inl lt ↦
          subst (λ k. Least k (x ∷ xs)) (some-injective y h (rw lt at e))
            (o.asym y x lt, all y refl)
      | inr ge ↦
          subst (λ k. Least k (x ∷ xs)) (some-injective x h (rw ge at e))
            (o.irrefl x, All-map_mono (λ z le. o.trans z y x le ge) xs (all y refl))
    ]

    -- The first row of the sorted ones has no row before it.
    pub order_by-Least : (xs : List A) (h : A) → head? (order_by before xs) ≡ some h → Least h xs
    unfolding order_by
    order_by-Least [] h e = tt
    order_by-Least (x ∷ xs) h e =
        Least-insert x h xs (order_by before xs) (order_by-Least xs) (nil_of_order_by xs) e
