-- ===== src/Migrations/Resume.antt =====
-- What up leaves behind, whether it ends, is told to stop early, or fails.
use pyreljob.Migrations.Versions.{Apart, Ascending-order_by, select-next}
use pyreljob.Migrations.{
  Migration, Store, bigger, max_version, or_zero, applied_rows, current, by_version, migrations,
  pending, apply_migration, apply_all, is_enough, up,
}
use pyreljob.Prelude.{
  ℕ, String, ◌≡◌, ◌<◌, ◌⊎◌, refl, sym, ap, subst, ◌∙◌, true, false, Option, none, some, List, [],
  ◌∷◌, ◌++◌, map, ◌==◌, inl, inr, Bool-cases, Option-cases, arith,
}
use pyreljob.Sql.{exists, order_by}

max_version-append :
    (rows : List (ℕ × String)) (v : ℕ) (d : String)
    → max_version (rows ++ (v, d) ∷ []) ≡ some (bigger (or_zero (max_version rows)) v)
max_version-append [] v d = ground arith
max_version-append ((w, e) ∷ rows) v d = ground (arith, max_version-append rows v d)

exists_version-le :
    (rows : List (ℕ × String)) (v : ℕ)
    → or_zero (max_version rows) < v
    → exists (λ r. r.0 == v) rows ≡ false
unfolding exists
exists_version-le [] v h = refl
exists_version-le ((w, d) ∷ rows) v h = ground (arith, exists_version-le rows v)

append_nil {ℓ} : {A : Type ℓ} (xs : List A) → xs ++ [] ≡ xs
append_nil [] = refl
append_nil (x ∷ xs) = ap (◌∷◌ x) (append_nil xs)

append-append {ℓ} :
    {A : Type ℓ} (xs : List A) (y : A) (ys : List A) → (xs ++ y ∷ []) ++ ys ≡ xs ++ y ∷ ys
append-append [] y ys = refl
append-append (x ∷ xs) y ys = ap (◌∷◌ x) (append-append xs y ys)

module _ {S : Type 0} where
  current-rows :
      (st : Store S) → current st ≡ or_zero (max_version (applied_rows st.schema_migrations))
  current-rows st = go st.schema_migrations
    where
      go :
          (rows : Option (List (ℕ × String)))
          → or_zero (elim rows [ none ↦ none | some found ↦ max_version found ])
            ≡ or_zero (max_version (applied_rows rows))
      go none = refl
      go (some found) = refl

  apply_migration-eq :
      (m : Migration S) (st : Store S) (schema : S)
      → current st < m.version
      → m.fn st.schema ≡ some schema
      → (st' : Store S) × (apply_migration m st ≡ some st')
        × (st'.schema ≡ schema)
        × (applied_rows st'.schema_migrations
            ≡ applied_rows st.schema_migrations ++ (m.version, m.description) ∷ [])
        × (current st' ≡ m.version)
  unfolding apply_migration
  apply_migration-eq m st schema h e =
      let rows = applied_rows st.schema_migrations in
      let small : or_zero (max_version rows) < m.version = rw (← current-rows st) h in
      (
        record {
          schema_migrations = some (rows ++ (m.version, m.description) ∷ []);
          schema = schema;
        },
        rw (apply_migration, e, exists_version-le rows m.version small) refl,
        refl,
        refl,
        ground (arith, max_version-append rows m.version m.description, small),
      )

  apply_migration-failed :
      (m : Migration S) (st : Store S) → m.fn st.schema ≡ none → apply_migration m st ≡ none
  unfolding apply_migration
  apply_migration-failed m st e = rw (apply_migration, e) refl

  abbrev pub row_of : Migration S → ℕ × String
  row_of m = (m.version, m.description)

  -- What migrations make of a database, one after the other; `none` if one raises.
  abbrev pub effect_of : List (Migration S) → S → Option S
  effect_of [] s = some s
  effect_of (m ∷ ms) s = elim (m.fn s) [ none ↦ none | some s' ↦ effect_of ms s' ]

  -- The migrations that were pending are `done` and then `rest`: of the first the versions were recorded
  -- in order and the database is what they make of it, the others are still pending. Nothing is left,
  -- or there were as many steps as asked for, or the first of those that are left raised.
  pub record IsOutcome (given : List (Migration S)) (steps : Option ℕ) (before : List (Migration S))
      (st : Store S) (left : List (Migration S)) (r : Option (List (Migration S)) × Store S)
      : Type 0 where
    pub done : List (Migration S)
    pub rest : List (Migration S)
    pub split : left ≡ done ++ rest
    pub recorded :
        applied_rows r.1.schema_migrations ≡ applied_rows st.schema_migrations ++ map row_of done
    pub effect : effect_of done st.schema ≡ some r.1.schema
    pub still_pending : pending given r.1 ≡ rest
    pub ended :
        ((r.0 ≡ some (before ++ done)) × ((rest ≡ []) ⊎ (is_enough steps (before ++ done) ≡ true)))
        ⊎ ((r.0 ≡ none)
            × (m : Migration S) × (later : List (Migration S)) × (rest ≡ m ∷ later)
            × (m.fn r.1.schema ≡ none))

  apply_all-IsOutcome_step :
      (given : List (Migration S)) (steps : Option ℕ)
      → Apart given
      → (m : Migration S) (ms before : List (Migration S)) (st : Store S)
      → pending given st ≡ m ∷ ms
      → ((st' : Store S)
          → pending given st' ≡ ms
          → IsOutcome given steps
              (before ++ m ∷ [])
              st'
              ms
              (apply_all steps (before ++ m ∷ []) ms st'))
      → IsOutcome given steps before st (m ∷ ms) (elim (apply_migration m st) [
        | none ↦ (none, st)
        | some st' ↦ apply_all steps (before ++ m ∷ []) ms st'
      ])
  unfolding pending migrations
  apply_all-IsOutcome_step given steps apart m ms before st e ih =
      let (later, left) =
        select-next (current st) (order_by by_version given) m ms (Ascending-order_by given apart)
          e in
      elim (Option-cases (m.fn st.schema)) [
        | inl failed ↦ rw (apply_migration-failed m st failed) (record {
          done = [];
          rest = m ∷ ms;
          split = refl;
          recorded = sym (append_nil _);
          effect = refl;
          still_pending = e;
          ended = inr (refl, m, ms, refl, failed);
        })
        | inr (schema, fine) ↦
            let (st', applied, schema_eq, rows, now_at) =
              apply_migration-eq m st schema later fine in
            let o = ih st' (rw now_at left) in
            rw applied (record {
              done = m ∷ o.done;
              rest = o.rest;
              split = ap (◌∷◌ m) o.split;
              recorded = o.recorded ∙ ap (λ xs. xs ++ map row_of o.done) rows ∙ append-append _ _ _;
              effect = rw fine (ap (effect_of o.done) (sym schema_eq) ∙ o.effect);
              still_pending = o.still_pending;
              ended = rw (← append-append before m o.done) o.ended;
            })
      ]

  apply_all-IsOutcome :
      (given : List (Migration S)) (steps : Option ℕ)
      → Apart given
      → (left before : List (Migration S)) (st : Store S) → pending given st ≡ left
      → IsOutcome given steps before st left (apply_all steps before left st)
  unfolding apply_all
  apply_all-IsOutcome given steps apart [] before st e = record {
    done = [];
    rest = [];
    split = refl;
    recorded = sym (append_nil _);
    effect = refl;
    still_pending = e;
    ended = inl (ap some (sym (append_nil before)), inl refl);
  }
  apply_all-IsOutcome given steps apart (m ∷ ms) before st e =
      elim (Bool-cases (is_enough steps before)) [
        | inl enough ↦ rw enough (record {
          done = [];
          rest = m ∷ ms;
          split = refl;
          recorded = sym (append_nil _);
          effect = refl;
          still_pending = e;
          ended = inl (ap some (sym (append_nil before)), inr (rw (append_nil before) enough));
        })
        | inr more ↦ rw more (
            apply_all-IsOutcome_step given steps apart m ms before st e
              (λ st' e'. apply_all-IsOutcome given steps apart ms (before ++ m ∷ []) st' e'))
      ]

  -- With versions that differ, up applies pending migrations in the order of their versions, each once:
  -- the database is what those it applied make of it one after the other, they are recorded and no
  -- longer pending, the rest stay pending, and it stops before
  -- the end of the list only after as many steps as asked for, or at a migration that raises.
  pub up-IsOutcome :
      (given : List (Migration S)) (steps : Option ℕ) (st : Store S)
      → Apart given
      → IsOutcome given steps [] st (pending given st) (up given steps st)
  unfolding up
  up-IsOutcome given steps st apart =
      apply_all-IsOutcome given steps apart (pending given st) [] st refl

  up-nil :
      (given : List (Migration S)) (st : Store S)
      → pending given st ≡ []
      → up given none st ≡ (some [], st)
  unfolding up apply_all
  up-nil given st e = ap (λ ms. apply_all none [] ms st) e

  -- With versions that differ, after an up that applied everything that was pending, another one applies nothing and leaves the
  -- database as it is.
  pub up-again :
      (given : List (Migration S)) (st st' : Store S) (applied : List (Migration S))
      → Apart given
      → up given none st ≡ (some applied, st')
      → up given none st' ≡ (some [], st')
  up-again given st st' applied apart e =
      let o =
        subst (IsOutcome given none [] st (pending given st)) e
          (up-IsOutcome given none st apart) in
      elim o.ended [
        | inl (all, inl nothing) ↦ up-nil given st' (o.still_pending ∙ nothing)
        | inl (all, inr enough) ↦ absurd (ground (arith, enough))
        | inr (raised, _, _, _, _) ↦ absurd (ground (arith, raised))
      ]
