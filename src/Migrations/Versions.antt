-- ===== src/Migrations/Versions.antt =====
-- The migrations in the order of their versions, and the first that is later than a version.
use pyreljob.Migrations.{Migration, by_version}
use mathlib.Core.Option.{some-injective}
use pyreljob.Prelude.{
  ℕ, ◌≡◌, ◌≢◌, ◌<◌, refl, sym, ap, subst, ◌∙◌, List, [], ◌∷◌, ltb, drop, head?, inl, inr,
  Bool-cases, All, All-map_mono, arith,
}
use pyreljob.Sql.{select, order_by, insert_by}
use pyreljob.Sql.Order.{All-insert_by, All-order_by}

module _ {S : Type 0} where
  pub Ascending : List (Migration S) → Type 0
  Ascending [] = Unit
  Ascending (m ∷ ms) = All (λ n. m.version < n.version) ms × Ascending ms

  -- No two migrations have one version.
  abbrev pub Apart : List (Migration S) → Type 0
  Apart [] = Unit
  Apart (m ∷ ms) = All (λ n. m.version ≢ n.version) ms × Apart ms

  Ascending-insert_by :
      (m : Migration S) (ms : List (Migration S))
      → All (λ n. m.version ≢ n.version) ms
      → Ascending ms
      → Ascending (insert_by by_version m ms)
  unfolding insert_by Ascending
  Ascending-insert_by m [] h a = (tt, tt)
  Ascending-insert_by m (n ∷ ms) h a = elim (Bool-cases (by_version n m)) [
    | inl e ↦ rw e (
      All-insert_by by_version (λ k. n.version < k.version) m ms (ground (arith, e)) a.0,
      Ascending-insert_by m ms h.1 a.1,
    )
    | inr e ↦
        let less : m.version < n.version = ground (arith, e, h.0) in
        rw e ((less, All-map_mono (λ k p. omega (arith, less, p)) ms a.0), a)
  ]

  pub Ascending-order_by :
      (given : List (Migration S)) → Apart given → Ascending (order_by by_version given)
  unfolding order_by Ascending
  Ascending-order_by [] h = tt
  Ascending-order_by (m ∷ ms) h =
      Ascending-insert_by m (order_by by_version ms)
        (All-order_by by_version (λ n. m.version ≢ n.version) ms h.0) (Ascending-order_by ms h.1)

  select-later :
      (c : ℕ) (ms : List (Migration S))
      → All (λ n. c < n.version) ms
      → select (λ n. ltb c n.version) ms ≡ ms
  unfolding select
  select-later c [] h = refl
  select-later c (m ∷ ms) h = ground (arith, h.0, select-later c ms h.1)

  -- The first of the later versions, and what is later than that.
  pub select-next :
      (c : ℕ) (ms : List (Migration S)) (m : Migration S) (rest : List (Migration S))
      → Ascending ms
      → select (λ n. ltb c n.version) ms ≡ m ∷ rest
      → (c < m.version) × (select (λ n. ltb m.version n.version) ms ≡ rest)
  unfolding select Ascending
  select-next c [] m rest a e = absurd (ground arith)
  select-next c (n ∷ ms) m rest a e = elim (Bool-cases (ltb c n.version)) [
    | inl h ↦
        let cut : n ∷ select (λ k. ltb c k.version) ms ≡ m ∷ rest = rw h at e in
        let later : c < n.version = ground (arith, h) in
        let same : rest ≡ ms =
          sym (ap (drop 1) cut)
          ∙ select-later c ms (All-map_mono (λ k p. omega (arith, later, p)) ms a.0) in
        subst (λ k. (c < k.version) × (select (λ x. ltb k.version x.version) (n ∷ ms) ≡ rest))
          (some-injective n m (ap head? cut))
          (later, ground (arith, select-later n.version ms a.0) ∙ sym same)
    | inr h ↦
        let (later, left) = select-next c ms m rest a.1 (rw h at e) in
        (later, ground (arith, h, later, left))
  ]
