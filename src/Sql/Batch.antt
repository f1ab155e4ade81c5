-- ===== src/Sql/Batch.antt =====
-- One UPDATE of many rows against a batch of them first and the others later.
use mathlib.Core.List.Memᴰ
use mathlib.Core.List.{Memᴰ}
use pyreljob.Prelude.{
  ℕ, zero, suc, ◌+◌, ◌≤◌, ◌≡◌, refl, ap, Bool, true, false, List, [], ◌∷◌, map, arith, ◌==◌, ==_iff,
  if◌then◌else◌, Bool-cases, inl, inr, All, length, take,
}
use pyreljob.Sql.{select, update, rowcount, is_in, order_by, insert_by}
use pyreljob.Sql.Count.{Distinct}

-- A row that the batch `q` touches matches `p` before, and `p'` no more; for the rest `p` and `p'` agree.
pub record IsSplit {ℓ} {A : Type ℓ} (p q p' : A → Bool) (f : A → A) (x : A) : Type ℓ where
  pub hit_before : q x ≡ true → p x ≡ true
  pub hit_after : q x ≡ true → p' (f x) ≡ false
  pub miss : q x ≡ false → p x ≡ p' x

module _ {ℓ} {A : Type ℓ} (p q p' : A → Bool) (f : A → A) where
  pub update-split :
      (xs : List A) → All (IsSplit p q p' f) xs → update p f xs ≡ update p' f (update q f xs)
  unfolding update
  update-split [] h = refl
  update-split (x ∷ xs) h = elim (Bool-cases (q x)) [
    | inl e ↦ rw (e, h.0.hit_before e, h.0.hit_after e) (ap (◌∷◌ (f x)) (update-split xs h.1))
    | inr e ↦ rw (e, h.0.miss e) (ap (◌∷◌ (if p' x then f x else x)) (update-split xs h.1))
  ]

  pub rowcount-split :
      (xs : List A)
      → All (IsSplit p q p' f) xs
      → rowcount p xs ≡ rowcount q xs + rowcount p' (update q f xs)
  unfolding update rowcount
  rowcount-split [] h = omega arith
  rowcount-split (x ∷ xs) h = elim (Bool-cases (q x)) [
    | inl e ↦ rw (e, h.0.hit_before e, h.0.hit_after e) (omega (arith, rowcount-split xs h.1))
    | inr e ↦ rw (e, h.0.miss e) (ground (arith, rowcount-split xs h.1))
  ]

module _ {ℓ} {A : Type ℓ} (before : A → A → Bool) (q : A → Bool) where
  rowcount-insert_by :
      (x : A) (ys : List A) → rowcount q (insert_by before x ys) ≡ rowcount q (x ∷ ys)
  unfolding rowcount insert_by
  rowcount-insert_by x [] = refl
  rowcount-insert_by x (y ∷ ys) = ground (arith, rowcount-insert_by x ys)

  pub rowcount-order_by : (xs : List A) → rowcount q (order_by before xs) ≡ rowcount q xs
  unfolding rowcount order_by
  rowcount-order_by [] = refl
  rowcount-order_by (x ∷ xs) =
      ground (arith, rowcount-insert_by x (order_by before xs), rowcount-order_by xs)

module _ {ℓ} {A : Type ℓ} where
  pub length-rowcount : (xs : List A) → length xs ≡ rowcount (λ x. true) xs
  unfolding rowcount
  length-rowcount [] = refl
  length-rowcount (x ∷ xs) = ap suc (length-rowcount xs)

  pub rowcount-take-le :
      (q : A → Bool) (n : ℕ) (xs : List A) → rowcount q (take n xs) ≤ rowcount q xs
  unfolding rowcount
  rowcount-take-le q zero xs = omega arith
  rowcount-take-le q (suc n) [] = omega arith
  rowcount-take-le q (suc n) (x ∷ xs) = ground (arith, rowcount-take-le q n xs)

  pub All-take {κ} : (P : A → Type κ) (n : ℕ) (xs : List A) → All P xs → All P (take n xs)
  All-take P zero xs h = tt
  All-take P (suc n) [] h = tt
  All-take P (suc n) (x ∷ xs) h = (h.0, All-take P n xs h.1)

  pub length-take_short :
      (n : ℕ) (xs : List A)
      → (length xs ≤ n → length (take n xs) ≡ length xs) × (n ≤ length xs → length (take n xs) ≡ n)
  length-take_short zero xs = ((λ h. omega arith), (λ h. refl))
  length-take_short (suc n) [] = ((λ h. refl), (λ h. omega arith))
  length-take_short (suc n) (x ∷ xs) =
      let ih = length-take_short n xs in
      ((λ h. ap suc (ih.0 (omega arith))), (λ h. ap suc (ih.1 (omega arith))))

module _ {ℓ} {A : Type ℓ} (f : A → ℕ) where
  pub mem_of_is_in :
      (k : ℕ) (xs : List A) → is_in k (map f xs) ≡ true → (x : A) × Memᴰ x xs × (f x ≡ k)
  unfolding is_in
  mem_of_is_in k [] e = absurd (ground arith)
  mem_of_is_in k (x ∷ xs) e = elim (Bool-cases (f x == k)) [
    | inl hit ↦ (x, Memᴰ.head refl, (==_iff _ _).0 hit)
    | inr miss ↦ let (y, m, h) = mem_of_is_in k xs (rw miss at e) in (y, Memᴰ.tail m, h)
  ]

  pub is_in-of_mem : (xs : List A) (x : A) → Memᴰ x xs → is_in (f x) (map f xs) ≡ true
  unfolding is_in
  is_in-of_mem [] x m = absurd (Memᴰ.not-nil m)
  is_in-of_mem (y ∷ xs) x (Memᴰ.head e) = rw e (ground arith)
  is_in-of_mem (y ∷ xs) x (Memᴰ.tail m) = ground (arith, is_in-of_mem xs x m)

  rowcount-pos : (p : A → Bool) (xs : List A) (x : A) → Memᴰ x xs → p x ≡ true → 1 ≤ rowcount p xs
  unfolding rowcount
  rowcount-pos p [] x m e = absurd (Memᴰ.not-nil m)
  rowcount-pos p (y ∷ xs) x (Memᴰ.head h) e = rw (← h, e) (omega arith)
  rowcount-pos p (y ∷ xs) x (Memᴰ.tail m) e = ground (arith, rowcount-pos p xs x m e)

  rowcount-or :
      (k : ℕ) (g : A → Bool) (xs : List A)
      → ((x : A) → k ≡ f x → g x ≡ false)
      → rowcount (λ x. if k == f x then true else g x) xs
        ≡ rowcount (λ x. f x == k) xs + rowcount g xs
  unfolding rowcount
  rowcount-or k g [] h = omega arith
  rowcount-or k g (x ∷ xs) h = ground (arith, h x, rowcount-or k g xs h)

  not_is_in_tail : (b : A) (bs : List A) → Distinct f (b ∷ bs) → is_in (f b) (map f bs) ≡ false
  unfolding rowcount
  not_is_in_tail b bs d = elim (Bool-cases (is_in (f b) (map f bs))) [
    | inl e ↦
        let (y, m, h) = mem_of_is_in (f b) bs e in
        absurd (
          ground (arith, d (f b), rowcount-pos (λ x. f x == f b) bs y m ((==_iff (f y) (f b)).1 h)))
    | inr e ↦ e
  ]

  Distinct-rest : (b : A) (bs : List A) → Distinct f (b ∷ bs) → Distinct f bs
  unfolding rowcount
  Distinct-rest b bs d k = ground (arith, d k)

  rowcount-false : (xs : List A) → rowcount (λ x. false) xs ≡ 0
  unfolding rowcount
  rowcount-false [] = refl
  rowcount-false (x ∷ xs) = rowcount-false xs

  -- The rows of the table whose key is in the batch are as many as the batch.
  pub rowcount-batch :
      (xs bs : List A)
      → Distinct f xs
      → Distinct f bs
      → All (λ b. Memᴰ b xs) bs
      → rowcount (λ x. is_in (f x) (map f bs)) xs ≡ length bs
  unfolding is_in
  rowcount-batch xs [] d db h = rowcount-false xs
  rowcount-batch xs (b ∷ bs) d db h =
      let others =
        rowcount-or (f b) (λ x. is_in (f x) (map f bs)) xs
          (λ x e. rw (← e) (not_is_in_tail b bs db)) in
      let one = rowcount-pos (λ x. f x == f b) xs b h.0 (ground arith) in
      omega (arith, others, one, d (f b), rowcount-batch xs bs d (Distinct-rest b bs db) h.1)

-- A key that no row of the batch has is a key of the matching rows before the batch if it is after.
pub is_in-split {ℓ} :
    {A : Type ℓ} (p q p' : A → Bool) (f : A → A) (g : A → ℕ) (k : ℕ) (xs : List A)
    → All (λ x. IsSplit p q p' f x × (q x ≡ true → (g x == k) ≡ false)) xs
    → is_in k (map g (select p xs)) ≡ is_in k (map g (select p' (update q f xs)))
unfolding is_in select update
is_in-split p q p' f g k [] h = refl
is_in-split p q p' f g k (x ∷ xs) h = elim (Bool-cases (q x)) [
  | inl e ↦
      rw (e, h.0.0.hit_before e, h.0.0.hit_after e, h.0.1 e, is_in)
        (is_in-split p q p' f g k xs h.1)
  | inr e ↦ rw (e, h.0.0.miss e) (ground (arith, is_in-split p q p' f g k xs h.1))
]
