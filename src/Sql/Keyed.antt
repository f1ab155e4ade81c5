-- ===== src/Sql/Keyed.antt =====
-- Membership in a table, and tables whose keys are distinct.
use mathlib.Core.List.Memᴰ
use mathlib.Core.List.{Memᴰ}
use pyreljob.Prelude.{
  ℕ, ◌≡◌, refl, sym, subst, inl, inr, Bool, true, false, ◌&&◌, Option, none, some, List, [], ◌∷◌,
  arith, ◌==◌, ==_iff, if◌then◌else◌, Bool-cases, All,
}
use pyreljob.Sql.{select, update, rowcount, exists, find}
use pyreljob.Sql.Count.{Distinct}

module _ {ℓ} {A : Type ℓ} where
  pub All-mem {κ} : (P : A → Type κ) (xs : List A) → All P xs → (x : A) → Memᴰ x xs → P x
  All-mem P [] h x m = absurd (Memᴰ.not-nil m)
  All-mem P (y ∷ xs) h x (Memᴰ.head e) = subst P (sym e) h.0
  All-mem P (y ∷ xs) h x (Memᴰ.tail m) = All-mem P xs h.1 x m

  pub All-of_mem {κ} : (P : A → Type κ) (xs : List A) → ((x : A) → Memᴰ x xs → P x) → All P xs
  All-of_mem P [] h = tt
  All-of_mem P (x ∷ xs) h = (h x (Memᴰ.head refl), All-of_mem P xs (λ y m. h y (Memᴰ.tail m)))

  Matches_tail :
      (p : A → Bool) (x : A) (xs ys : List A)
      → All (λ y. Memᴰ y xs × (p y ≡ true)) ys
      → All (λ y. Memᴰ y (x ∷ xs) × (p y ≡ true)) ys
  Matches_tail p x xs [] h = tt
  Matches_tail p x xs (y ∷ ys) h = ((Memᴰ.tail h.0.0, h.0.1), Matches_tail p x xs ys h.1)

  -- Of the rows that a WHERE clause selects, each is a row that matches.
  pub All-select_where :
      (p : A → Bool) (xs : List A) → All (λ x. Memᴰ x xs × (p x ≡ true)) (select p xs)
  unfolding select
  All-select_where p [] = tt
  All-select_where p (x ∷ xs) =
      let later = Matches_tail p x xs (select p xs) (All-select_where p xs) in
      elim (Bool-cases (p x)) [ inl e ↦ rw e ((Memᴰ.head refl, e), later) | inr e ↦ rw e later ]

  mem_if : (b : Bool) (y x : A) (ys : List A) → Memᴰ x ys → Memᴰ x (if b then y ∷ ys else ys)
  mem_if true y x ys m = Memᴰ.tail m
  mem_if false y x ys m = m

  pub mem-select :
      (p : A → Bool) (xs : List A) (x : A) → Memᴰ x xs → p x ≡ true → Memᴰ x (select p xs)
  unfolding select
  mem-select p [] x m e = absurd (Memᴰ.not-nil m)
  mem-select p (y ∷ xs) x (Memᴰ.head h) e = rw (← h, e) (Memᴰ.head refl)
  mem-select p (y ∷ xs) x (Memᴰ.tail m) e = mem_if (p y) y x (select p xs) (mem-select p xs x m e)

  -- Two WHERE clauses that agree on the rows update alike.
  pub update-ext :
      (p q : A → Bool) (f : A → A) (xs : List A)
      → All (λ x. p x ≡ q x) xs
      → update p f xs ≡ update q f xs
  unfolding update
  update-ext p q f [] h = refl
  update-ext p q f (x ∷ xs) h = ground (arith, update-ext p q f xs h.1)

module _ {ℓ} {A : Type ℓ} (key : A → ℕ) where
  Distinct-tail : (x : A) (xs : List A) → Distinct key (x ∷ xs) → Distinct key xs
  unfolding rowcount
  Distinct-tail x xs d k = ground (arith, d k)

  Distinct-head :
      (x : A) (xs : List A) → Distinct key (x ∷ xs) → rowcount (λ y. key y == key x) xs ≡ 0
  unfolding rowcount
  Distinct-head x xs d = ground (arith, d (key x))

  exists-of_none :
      (k : ℕ) (p : A → Bool) (xs : List A)
      → rowcount (λ y. key y == k) xs ≡ 0
      → exists (λ y. (key y == k) && p y) xs ≡ false
  unfolding exists rowcount
  exists-of_none k p [] e = refl
  exists-of_none k p (x ∷ xs) e = ground (arith, exists-of_none k p xs)

  ne-of_mem :
      (k : ℕ) (xs : List A) (x : A)
      → rowcount (λ y. key y == k) xs ≡ 0
      → Memᴰ x xs
      → (key x == k) ≡ false
  unfolding rowcount
  ne-of_mem k [] x e m = absurd (Memᴰ.not-nil m)
  ne-of_mem k (y ∷ xs) x e (Memᴰ.head h) = rw h (ground arith)
  ne-of_mem k (y ∷ xs) x e (Memᴰ.tail m) = ne-of_mem k xs x (ground arith) m

  pub find-of_mem :
      (xs : List A) (x : A) → Distinct key xs → Memᴰ x xs → find key (key x) xs ≡ some x
  unfolding find
  find-of_mem [] x d m = absurd (Memᴰ.not-nil m)
  find-of_mem (y ∷ xs) x d (Memᴰ.head h) = rw h (ground arith)
  find-of_mem (y ∷ xs) x d (Memᴰ.tail m) = ground (
    arith,
    ne-of_mem (key y) xs x (Distinct-head y xs d) m,
    find-of_mem xs x (Distinct-tail y xs d) m,
  )

  -- EXISTS with an equation on the key looks at the one row.
  pub exists-find :
      (k : ℕ) (p : A → Bool) (xs : List A)
      → Distinct key xs
      → exists (λ x. (key x == k) && p x) xs
        ≡ (elim (find key k xs) [ none ↦ false | some x ↦ p x ])
  unfolding exists find
  exists-find k p [] d = refl
  exists-find k p (x ∷ xs) d = elim (Bool-cases (key x == k)) [
    | inl hit ↦ rw hit (hit_case (p x) hit)
    | inr miss ↦ rw miss (exists-find k p xs (Distinct-tail x xs d))
  ]
    where
      hit_case :
          (b : Bool)
          → (key x == k) ≡ true
          → (if b then true else exists (λ y. (key y == k) && p y) xs) ≡ b
      hit_case true e = refl
      hit_case false e = exists-of_none k p xs (
          subst (λ m. rowcount (λ y. key y == m) xs ≡ 0) ((==_iff (key x) k).0 e)
            (Distinct-head x xs d))

pub rowcount-ext {ℓ} :
    {A : Type ℓ} (p q : A → Bool) (xs : List A)
    → All (λ x. p x ≡ q x) xs
    → rowcount p xs ≡ rowcount q xs
unfolding rowcount
rowcount-ext p q [] h = refl
rowcount-ext p q (x ∷ xs) h = ground (arith, rowcount-ext p q xs h.1)

-- What a lookup by key sees after rows are left out.
abbrev pub kept {ℓ} : {A : Type ℓ} → (A → Bool) → Option A → Option A
kept p none = none
kept p (some x) = if p x then some x else none

module _ {ℓ} {A : Type ℓ} (key : A → ℕ) where
  find-of_rowcount_zero :
      (k : ℕ) (p : A → Bool) (xs : List A)
      → rowcount (λ y. key y == k) xs ≡ 0
      → find key k (select p xs) ≡ none
  unfolding find select rowcount
  find-of_rowcount_zero k p [] e = refl
  find-of_rowcount_zero k p (x ∷ xs) e = ground (arith, find-of_rowcount_zero k p xs)

  pub find-select :
      (k : ℕ) (p : A → Bool) (xs : List A)
      → Distinct key xs
      → find key k (select p xs) ≡ kept p (find key k xs)
  unfolding find select
  find-select k p [] d = refl
  find-select k p (x ∷ xs) d = elim (Bool-cases (key x == k)) [
    | inl hit ↦
        let gone = find-of_rowcount_zero k p xs (
          subst (λ m. rowcount (λ y. key y == m) xs ≡ 0) ((==_iff (key x) k).0 hit)
            (Distinct-head key x xs d)) in
        ground (arith, hit, gone)
    | inr miss ↦ ground (arith, miss, find-select k p xs (Distinct-tail key x xs d))
  ]
