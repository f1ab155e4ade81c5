-- ===== src/Backend/Jobs/Idempotent.antt =====
-- Idempotency keys: repeated calls of enqueue.
use pyreljob.Backend.Jobs.{Enqueue, enqueue, enqueued_job, has_key, new_run}
use pyreljob.Backend.Validity.{IsValid}
use pyreljob.Effects.{Others, alone}
use pyreljob.Models.{Readings, Db, Inserted, JobModel, RunModel, JobRecord, Result, ok, null_eq}
use pyreljob.Prelude.{
  String, ◌≡◌, ◌⊎◌, refl, sym, ap, ◌∙◌, Bool, true, false, some, List, [], ◌∷◌, ◌++◌, arith,
  Bool-cases, inl, inr, str_eq_iff, length,
}
use pyreljob.Sql.{select, exists}
use pyreljob.Sql.Count.{length-select}

pub select-append {ℓ} :
    {A : Type ℓ} (p : A → Bool) (xs ys : List A) → select p (xs ++ ys) ≡ select p xs ++ select p ys
unfolding select
select-append p [] ys = refl
select-append p (x ∷ xs) ys = ground (arith, select-append p xs ys)

pub select-of_not_exists {ℓ} :
    {A : Type ℓ} (p : A → Bool) (xs : List A) → exists p xs ≡ false → select p xs ≡ []
unfolding select exists
select-of_not_exists p [] e = refl
select-of_not_exists p (x ∷ xs) e = ground (arith, select-of_not_exists p xs)

pub exists-of_select {ℓ} :
    {A : Type ℓ} (p : A → Bool) (xs : List A) → exists p xs ≡ true → select p xs ≡ [] → ⊥
unfolding select exists
exists-of_select p [] e h = cc
exists-of_select p (x ∷ xs) e h = ground (arith, exists-of_select p xs)

str_eq_refl : (s : String) → null_eq (some s) s ≡ true
str_eq_refl s = (str_eq_iff s s).1 refl

-- An enqueue with the given idempotency key.
abbrev pub with_key : String → Enqueue → Enqueue
with_key key q = record q { idempotency_key = some key }

module _ (others : Others) (row run_row : Inserted) (now : Readings) (key : String) (q : Enqueue)
    (db : Db) where
  abbrev pub attempt : Result JobRecord × Db
  attempt = enqueue others row run_row now (with_key key q) db

  abbrev new_job : JobModel
  new_job = enqueued_job (with_key key q) row (now 0)

  abbrev new_first_run : RunModel
  new_first_run = new_run run_row row.id q.scheduled_at (now 1)

  abbrev seen : Db
  seen = others 0 db

  abbrev before_insert : Db
  before_insert = others 1 seen

  abbrev pub inserted : Db
  inserted = record before_insert {
    jobs = before_insert.jobs ++ new_job ∷ [];
    runs = before_insert.runs ++ new_first_run ∷ [];
  }

  abbrev pub keyed : Db → List JobModel
  keyed d = select (has_key key) d.jobs

  enqueue-eq_found : (j : JobModel) → keyed seen ≡ j ∷ [] → attempt ≡ (ok j, seen)
  unfolding enqueue
  enqueue-eq_found j e = rw (e, enqueue) refl

  enqueue-eq_created :
      keyed seen ≡ []
      → exists (has_key key) before_insert.jobs ≡ false
      → attempt ≡ (ok new_job, inserted)
  unfolding enqueue
  enqueue-eq_created e free = ground arith

  enqueue-eq_winner :
      (j : JobModel)
      → keyed seen ≡ []
      → exists (has_key key) before_insert.jobs ≡ true
      → keyed (others 2 before_insert) ≡ j ∷ []
      → attempt ≡ (ok j, others 2 before_insert)
  unfolding enqueue
  enqueue-eq_winner j e taken found = ground arith

  keyed-inserted : exists (has_key key) before_insert.jobs ≡ false → keyed inserted ≡ new_job ∷ []
  unfolding select enqueued_job
  keyed-inserted free =
      select-append (has_key key) before_insert.jobs (new_job ∷ [])
      ∙ rw (select-of_not_exists (has_key key) before_insert.jobs free, str_eq_refl key) refl

  -- After a successful enqueue its job is the one row with the key.
  pub enqueue-selects : (j : JobRecord) (db' : Db) → attempt ≡ (ok j, db') → keyed db' ≡ j ∷ []
  unfolding enqueue
  enqueue-selects j db' h = go (keyed seen) refl
    where
      lost :
          (rows : List JobModel)
          → keyed (others 2 before_insert) ≡ rows
          → exists (has_key key) before_insert.jobs ≡ true
          → keyed seen ≡ []
          → keyed db' ≡ j ∷ []
      lost [] e taken e₀ = ground (arith, rw (e₀, enqueue) at h)
      lost (x ∷ []) e taken e₀ = cc (sym (enqueue-eq_winner x e₀ taken e) ∙ h, e)
      lost (x ∷ y ∷ xs) e taken e₀ = ground (arith, rw (e₀, enqueue) at h)

      go : (rows : List JobModel) → keyed seen ≡ rows → keyed db' ≡ j ∷ []
      go [] e = elim (Bool-cases (exists (has_key key) before_insert.jobs)) [
        | inl taken ↦ lost (keyed (others 2 before_insert)) refl taken e
        | inr free ↦ cc (sym (enqueue-eq_created e free) ∙ h, keyed-inserted free)
      ]
      go (x ∷ []) e = cc (sym (enqueue-eq_found x e) ∙ h, e)
      go (x ∷ y ∷ xs) e = ground (arith, rw (e, enqueue) at h)

  abbrev pub reread : Db
  reread = others 2 before_insert

  -- If the tables are valid where enqueue looks for the key, and nobody takes the key away again between
  -- the INSERT that it makes fail and the second look, enqueue returns a job, the one that holds the
  -- key, and raises nothing, also if it loses the race to insert the key. Of its own it writes nothing
  -- then or if it found the job at once, and otherwise the job and its first run.
  pub enqueue-total :
      IsValid seen
      → IsValid reread
      → (exists (has_key key) before_insert.jobs ≡ true → exists (has_key key) reread.jobs ≡ true)
      → (j : JobRecord) × (db' : Db) × (attempt ≡ (ok j, db'))
        × (keyed db' ≡ j ∷ [])
        × ((db' ≡ seen) ⊎ (db' ≡ reread) ⊎ (db' ≡ inserted))
  enqueue-total v w stays = go (keyed seen) refl
    where
      Outcome : Type 0
      Outcome =
          (j : JobRecord) × (db' : Db) × (attempt ≡ (ok j, db'))
          × (keyed db' ≡ j ∷ [])
          × ((db' ≡ seen) ⊎ (db' ≡ reread) ⊎ (db' ≡ inserted))

      lost :
          (rows : List JobModel)
          → keyed reread ≡ rows
          → exists (has_key key) before_insert.jobs ≡ true
          → keyed seen ≡ []
          → Outcome
      lost [] e taken e₀ = absurd (exists-of_select (has_key key) reread.jobs (stays taken) e)
      lost (x ∷ []) e taken e₀ = (x, reread, enqueue-eq_winner x e₀ taken e, e, inr (inl refl))
      lost (x ∷ y ∷ xs) e taken e₀ =
          absurd (omega (arith, w.keys key, length-select (has_key key) reread.jobs, ap length e))

      go : (rows : List JobModel) → keyed seen ≡ rows → Outcome
      go [] e = elim (Bool-cases (exists (has_key key) before_insert.jobs)) [
        | inl taken ↦ lost (keyed reread) refl taken e
        | inr free ↦
            (new_job, inserted, enqueue-eq_created e free, keyed-inserted free, inr (inr refl))
      ]
      go (x ∷ []) e = (x, seen, enqueue-eq_found x e, e, inl refl)
      go (x ∷ y ∷ xs) e =
          absurd (omega (arith, v.keys key, length-select (has_key key) seen.jobs, ap length e))

-- A repeated enqueue with the same idempotency key returns the job of the first and changes nothing,
-- whatever others committed during the first call and whatever else the second call asks for, if nobody
-- else writes during the second.
pub enqueue-idempotent :
    (others : Others) (row run_row row' run_row' : Inserted) (now now' : Readings) (key : String)
    (q q' : Enqueue) (db db' : Db) (j : JobRecord)
    → enqueue others row run_row now (with_key key q) db ≡ (ok j, db')
    → enqueue alone row' run_row' now' (with_key key q') db' ≡ (ok j, db')
enqueue-idempotent others row run_row row' run_row' now now' key q q' db db' j h =
    enqueue-eq_found alone row' run_row' now' key q' db' j
      (enqueue-selects others row run_row now key q db j db' h)
