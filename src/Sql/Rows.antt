-- ===== src/Sql/Rows.antt =====
-- Laws of the statements: what a lookup by key sees after an UPDATE, a DELETE or an INSERT.
use pyreljob.Prelude.{
  ℕ, ◌≡◌, refl, Bool, true, false, none, some, List, [], ◌∷◌, ◌++◌, arith, ◌==◌, if◌then◌else◌, All,
  Bool-cases, inl, inr, subst,
}
use mathlib.Core.Option
use mathlib.Core.Option.{some-injective}
use pyreljob.Sql.{select, update, find}

module _ {ℓ} {A : Type ℓ} (key : A → ℕ) (k : ℕ) where
  -- An UPDATE that keeps the keys changes the row that a lookup finds, if that row matches.
  pub find-update :
      (p : A → Bool) (f : A → A)
      → ((x : A) → key (f x) ≡ key x)
      → (xs : List A)
      → find key k (update p f xs) ≡ Option.map (λ x. if p x then f x else x) (find key k xs)
  unfolding find update
  find-update p f same [] = refl
  find-update p f same (x ∷ xs) = ground (arith, same x, find-update p f same xs)

  pub find-append :
      (xs ys : List A)
      → find key k (xs ++ ys) ≡ elim (find key k xs) [ none ↦ find key k ys | some x ↦ some x ]
  unfolding find
  find-append [] ys = refl
  find-append (x ∷ xs) ys = ground (arith, find-append xs ys)

  pub key-find : (xs : List A) (x : A) → find key k xs ≡ some x → key x ≡ k
  unfolding find
  key-find [] x e = absurd (ground arith)
  key-find (y ∷ xs) x e = ground (arith, key-find xs x)

module _ {ℓ κ} {A : Type ℓ} (P : A → Type κ) where
  All-if : (b : Bool) (x y : A) → (b ≡ true → P x) → P y → P (if b then x else y)
  All-if true x y hx hy = hx refl
  All-if false x y hx hy = hy

  pub All-update :
      (p : A → Bool) (f : A → A)
      → ((x : A) → p x ≡ true → P x → P (f x))
      → (xs : List A) → All P xs
      → All P (update p f xs)
  unfolding update
  All-update p f keep [] h = tt
  All-update p f keep (x ∷ xs) h =
      (All-if (p x) (f x) x (λ e. keep x e h.0) h.0, All-update p f keep xs h.1)

  All-cons_if : (b : Bool) (x : A) (xs : List A) → P x → All P xs → All P (if b then x ∷ xs else xs)
  All-cons_if true x xs hx hxs = (hx, hxs)
  All-cons_if false x xs hx hxs = hxs

  pub All-select : (p : A → Bool) (xs : List A) → All P xs → All P (select p xs)
  unfolding select
  All-select p [] h = tt
  All-select p (x ∷ xs) h = All-cons_if (p x) x (select p xs) h.0 (All-select p xs h.1)

  pub All-append : (xs ys : List A) → All P xs → All P ys → All P (xs ++ ys)
  All-append [] ys hx hy = hy
  All-append (x ∷ xs) ys hx hy = (hx.0, All-append xs ys hx.1 hy)

  pub All-find :
      (key : A → ℕ) (k : ℕ) (xs : List A) (x : A) → All P xs → find key k xs ≡ some x → P x
  unfolding find
  All-find key k [] x h e = absurd (ground arith)
  All-find key k (y ∷ xs) x h e = elim (Bool-cases (key y == k)) [
    | inl hit ↦ subst P (some-injective y x (rw hit at e)) h.0
    | inr miss ↦ All-find key k xs x h.1 (rw miss at e)
  ]
