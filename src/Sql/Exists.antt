-- ===== src/Sql/Exists.antt =====
-- EXISTS over the rows in another order.
use mathlib.Core.List.{reverse, reverse_aux}
use pyreljob.Prelude.{
  ℕ, ◌++◌, ◌≡◌, refl, Bool, true, ◌&&◌, ◌||◌, All, All-map_mono, List, [], ◌∷◌, arith, Bool-cases,
  inl, inr,
}
use pyreljob.Sql.{select, update, exists, insert_by, order_by, is_in}

module _ {ℓ} {A : Type ℓ} (p : A → Bool) where
  exists-reverse_aux : (xs ys : List A) → exists p (reverse_aux xs ys) ≡ exists p xs || exists p ys
  unfolding exists
  exists-reverse_aux [] ys = refl
  exists-reverse_aux (x ∷ xs) ys = ground (arith, exists-reverse_aux xs (x ∷ ys))

  pub exists-reverse : (xs : List A) → exists p (reverse xs) ≡ exists p xs
  unfolding exists
  exists-reverse xs = ground (arith, exists-reverse_aux xs [])

  exists-insert_by :
      (before : A → A → Bool) (x : A) (ys : List A)
      → exists p (insert_by before x ys) ≡ p x || exists p ys
  unfolding exists insert_by
  exists-insert_by before x [] = ground arith
  exists-insert_by before x (y ∷ ys) = ground (arith, exists-insert_by before x ys)

  pub exists-order_by :
      (before : A → A → Bool) (xs : List A) → exists p (order_by before xs) ≡ exists p xs
  unfolding exists order_by
  exists-order_by before [] = refl
  exists-order_by before (x ∷ xs) =
      ground (arith, exists-order_by before xs, exists-insert_by before x (order_by before xs))

  pub exists-select :
      (q : A → Bool) (xs : List A) → exists p (select q xs) ≡ exists (λ x. q x && p x) xs
  unfolding exists select
  exists-select q [] = refl
  exists-select q (x ∷ xs) = ground (arith, exists-select q xs)

  exists-cons_of : (x : A) (xs : List A) → exists p xs ≡ true → exists p (x ∷ xs) ≡ true
  unfolding exists
  exists-cons_of x xs h = ground (arith, h)

-- Each row that matches stands in the table with itself.
pub All-exists {ℓ} :
    {A : Type ℓ} (p : A → Bool) (q : A → A → Bool)
    → ((t : A) → p t ≡ true → q t t ≡ true)
    → (xs : List A) → All (λ t. p t ≡ true → exists (λ s. q s t) xs ≡ true) xs
unfolding exists
All-exists p q h [] = tt
All-exists p q h (x ∷ xs) = (
  λ k. ground (arith, h x k),
  All-map_mono (λ t f k. exists-cons_of (λ s. q s t) x xs (f k)) xs (All-exists p q h xs),
)

-- An UPDATE that keeps the test keeps what EXISTS says.
pub exists-update {ℓ} :
    {A : Type ℓ} (p q : A → Bool) (f : A → A)
    → ((x : A) → p (f x) ≡ p x)
    → (xs : List A) → exists p (update q f xs) ≡ exists p xs
unfolding exists update
exists-update p q f same [] = refl
exists-update p q f same (x ∷ xs) = ground (arith, same x, exists-update p q f same xs)

pub is_in-append : (k : ℕ) (xs ys : List ℕ) → is_in k (xs ++ ys) ≡ is_in k xs || is_in k ys
unfolding is_in
is_in-append k [] ys = refl
is_in-append k (x ∷ xs) ys = ground (arith, is_in-append k xs ys)

-- What is selected passed the test.
pub All-selected {ℓ κ} :
    {A : Type ℓ} (p : A → Bool) (P Q : A → Type κ)
    → ((x : A) → p x ≡ true → P x → Q x)
    → (xs : List A) → All P xs
    → All Q (select p xs)
unfolding select
All-selected p P Q h [] a = tt
All-selected p P Q h (x ∷ xs) a = elim (Bool-cases (p x)) [
  | inl e ↦ rw e (h x e a.0, All-selected p P Q h xs a.1)
  | inr e ↦ rw e (All-selected p P Q h xs a.1)
]
