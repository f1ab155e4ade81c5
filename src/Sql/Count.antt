-- ===== src/Sql/Count.antt =====
-- Counting the rows that match, and columns whose values are distinct.
use pyreljob.Prelude.{
  ℕ, ◌+◌, ◌≤◌, ◌≡◌, refl, Bool, false, none, List, [], ◌∷◌, ◌++◌, arith, ◌==◌, length,
}
use pyreljob.Sql.{select, update, rowcount, exists, find}

module _ {ℓ} {A : Type ℓ} (q : A → Bool) where
  pub rowcount-update :
      (p : A → Bool) (f : A → A)
      → ((x : A) → q (f x) ≡ q x)
      → (xs : List A) → rowcount q (update p f xs) ≡ rowcount q xs
  unfolding rowcount update
  rowcount-update p f same [] = refl
  rowcount-update p f same (x ∷ xs) = ground (arith, same x, rowcount-update p f same xs)

  pub rowcount-select-le : (p : A → Bool) (xs : List A) → rowcount q (select p xs) ≤ rowcount q xs
  unfolding rowcount select
  rowcount-select-le p [] = omega arith
  rowcount-select-le p (x ∷ xs) = ground (arith, rowcount-select-le p xs)

  pub rowcount-append : (xs ys : List A) → rowcount q (xs ++ ys) ≡ rowcount q xs + rowcount q ys
  unfolding rowcount
  rowcount-append [] ys = omega arith
  rowcount-append (x ∷ xs) ys = ground (arith, rowcount-append xs ys)

  pub rowcount-of_not_exists : (xs : List A) → exists q xs ≡ false → rowcount q xs ≡ 0
  unfolding rowcount exists
  rowcount-of_not_exists [] e = refl
  rowcount-of_not_exists (x ∷ xs) e = ground (arith, rowcount-of_not_exists xs)

  pub length-select : (xs : List A) → length (select q xs) ≡ rowcount q xs
  unfolding rowcount select
  length-select [] = refl
  length-select (x ∷ xs) = ground (arith, length-select xs)

-- No two rows have one key.
abbrev pub Distinct {ℓ} : {A : Type ℓ} → (A → ℕ) → List A → Type 0
Distinct key xs = (k : ℕ) → rowcount (λ x. key x == k) xs ≤ 1

module _ {ℓ} {A : Type ℓ} (key : A → ℕ) where
  pub rowcount-of_find-none :
      (k : ℕ) (xs : List A) → find key k xs ≡ none → rowcount (λ x. key x == k) xs ≡ 0
  unfolding rowcount find
  rowcount-of_find-none k [] e = refl
  rowcount-of_find-none k (x ∷ xs) e = ground (arith, rowcount-of_find-none k xs)

  pub Distinct-update :
      (p : A → Bool) (f : A → A)
      → ((x : A) → key (f x) ≡ key x)
      → (xs : List A) → Distinct key xs
      → Distinct key (update p f xs)
  Distinct-update p f same xs d k =
      omega (arith, d k, rowcount-update (λ x. key x == k) p f (λ x. ground (arith, same x)) xs)

  pub Distinct-select : (p : A → Bool) (xs : List A) → Distinct key xs → Distinct key (select p xs)
  Distinct-select p xs d k = omega (arith, d k, rowcount-select-le (λ x. key x == k) p xs)

  pub Distinct-append :
      (xs : List A) (x : A)
      → find key (key x) xs ≡ none
      → Distinct key xs
      → Distinct key (xs ++ x ∷ [])
  unfolding rowcount
  Distinct-append xs x e d k = ground (
    arith,
    d k,
    rowcount-append (λ y. key y == k) xs (x ∷ []),
    rowcount-of_find-none (key x) xs e,
  )
