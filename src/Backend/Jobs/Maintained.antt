-- ===== src/Backend/Jobs/Maintained.antt =====
-- schedule: re-registering a maintained job, and what two concurrent registrations do.
use pyreljob.Backend.Jobs.Idempotent.{select-append, enqueue-selects, with_key}
use pyreljob.Backend.Jobs.{
  Enqueue, enqueue, Schedule, schedule, scheduled_job, has_key, key_taken, key_matches,
  is_maintained,
}
use pyreljob.Effects.{Others, alone}
use pyreljob.Models.{Readings, Db, Inserted, JobModel, JobRecord, Error, ok, raised}
use pyreljob.Prelude.{
  String, Bool, ◌⊎◌, ◌≡◌, refl, sym, ap, ◌∙◌, true, false, Option, none, some, List, [], ◌∷◌, ◌++◌,
  arith, if◌then◌else◌, Bool-cases, inl, inr, str_eq_iff, ◌==◌,
}
use pyreljob.Sql.{select, exists}

-- A registration of the same job under the same key.
abbrev pub same_as : Schedule → Schedule → Schedule
same_as s t = record t { job = s.job; idempotency_key = s.idempotency_key }

abbrev pub maintained : Schedule → Db → List JobModel
maintained s db = select (is_maintained s.job s.idempotency_key) db.jobs

key_matches_refl :
    (s : Schedule) (row : Inserted) (now : Readings)
    → is_maintained s.job s.idempotency_key (scheduled_job s row (now 0)) ≡ true
unfolding scheduled_job
key_matches_refl s row now = ground (arith, str_eq_iff s.job s.job, keys s.idempotency_key)
  where
    keys :
        (k : Option String)
        → key_matches k (record (scheduled_job s row (now 0)) { idempotency_key = k }) ≡ true
    keys none = refl
    keys (some k) = (str_eq_iff k k).1 refl

module _ (row : Inserted) (now : Readings) (s : Schedule) (db : Db) where
  abbrev with_row : Db
  with_row = record db { jobs = db.jobs ++ scheduled_job s row (now 0) ∷ [] }

  maintained_with_append :
      maintained s with_row ≡ maintained s db ++ scheduled_job s row (now 0) ∷ []
  unfolding select
  maintained_with_append =
      select-append (is_maintained s.job s.idempotency_key) db.jobs
        (scheduled_job s row (now 0) ∷ [])
      ∙ rw (key_matches_refl s row now) refl

  maintained_with : maintained s db ≡ [] → maintained s with_row ≡ scheduled_job s row (now 0) ∷ []
  maintained_with e = maintained_with_append ∙ rw e refl

  schedule-eq_created :
      maintained s db ≡ []
      → key_taken s.idempotency_key db.jobs ≡ false
      → schedule alone row now s db ≡ (ok (scheduled_job s row (now 0)), with_row)
  unfolding schedule
  schedule-eq_created e free = ground arith

module _ (row : Inserted) (now : Readings) (s : Schedule) (db : Db) where
  schedule-eq_found :
      (j : JobModel) → maintained s db ≡ j ∷ [] → schedule alone row now s db ≡ (ok j, db)
  unfolding schedule
  schedule-eq_found j e = rw (e, schedule) refl

  schedule-selects :
      (j : JobRecord) (db' : Db)
      → schedule alone row now s db ≡ (ok j, db')
      → maintained s db' ≡ j ∷ []
  unfolding schedule select
  schedule-selects j db' h = go (maintained s db) refl
    where
      go : (rows : List JobModel) → maintained s db ≡ rows → maintained s db' ≡ j ∷ []
      go [] e = elim (Bool-cases (key_taken s.idempotency_key db.jobs)) [
        | inl taken ↦ ground (arith, e)
        | inr free ↦
            cc (sym (schedule-eq_created row now s db e free) ∙ h, maintained_with row now s db e)
      ]
      go (x ∷ []) e = cc (sym (schedule-eq_found x e) ∙ h, e)
      go (x ∷ y ∷ xs) e = ground (arith, rw (e, schedule) at h)

-- With nobody writing in between, registering a job again under the same key, or again under none,
-- returns the row of the first registration and changes nothing.
pub schedule-idempotent :
    (row row' : Inserted) (now now' : Readings) (s t : Schedule) (db db' : Db) (j : JobRecord)
    → schedule alone row now s db ≡ (ok j, db')
    → schedule alone row' now' (same_as s t) db' ≡ (ok j, db')
schedule-idempotent row row' now now' s t db db' j h =
    schedule-eq_found row' now' (same_as s t) db' j (schedule-selects row now s db j db' h)

schedule-eq_collision :
    (row : Inserted) (now : Readings) (s : Schedule) (key : String) (db : Db)
    → maintained (record s { idempotency_key = some key }) db ≡ []
    → exists (has_key key) db.jobs ≡ true
    → schedule alone row now (record s { idempotency_key = some key }) db
      ≡ (raised Error.integrity_error, db)
unfolding schedule
schedule-eq_collision row now s key db e taken = ground arith

select-select {ℓ} :
    {A : Type ℓ} (p q : A → Bool)
    → ((x : A) → p x ≡ true → q x ≡ true)
    → (xs : List A) → select p (select q xs) ≡ select p xs
unfolding select
select-select p q h [] = refl
select-select p q h (x ∷ xs) = elim (Bool-cases (q x)) [
  | inl e ↦ rw e (ground (arith, select-select p q h xs))
  | inr e ↦ rw e (ground (arith, e, h x, select-select p q h xs))
]

exists-of_selected {ℓ} :
    {A : Type ℓ} (p : A → Bool) (xs : List A) (y : A) (ys : List A)
    → select p xs ≡ y ∷ ys
    → exists p xs ≡ true
unfolding select exists
exists-of_selected p [] y ys e = absurd (ground (arith, e))
exists-of_selected p (x ∷ xs) y ys e = ground (arith, e, exists-of_selected p xs y ys)

-- The maintained jobs of a class under a key that one job holds.
maintained-of_keyed :
    (s : Schedule) (key : String) (db : Db) (j : JobModel)
    → select (has_key key) db.jobs ≡ j ∷ []
    → maintained (record s { idempotency_key = some key }) db
      ≡ select (is_maintained s.job (some key)) (j ∷ [])
maintained-of_keyed s key db j e =
    sym (
      select-select (is_maintained s.job (some key)) (has_key key) (λ x h. ground (arith, h))
        db.jobs)
    ∙ ap (select (is_maintained s.job (some key))) e

-- Where enqueue got a job under a key, whatever the others did meanwhile, registering a maintained job
-- under the same key, with nobody else writing, writes nothing: it returns that job if it is a maintained
-- job of the same class, and raises IntegrityError if it is not, since the unique index is on the key
-- alone.
pub schedule-enqueue :
    (others : Others) (row run_row row' : Inserted) (now now' : Readings) (key : String)
    (q : Enqueue) (s : Schedule) (db db' : Db) (j : JobRecord)
    → enqueue others row run_row now (with_key key q) db ≡ (ok j, db')
    → ((is_maintained s.job (some key) j ≡ true)
        × (schedule alone row' now' (record s { idempotency_key = some key }) db' ≡ (ok j, db')))
      ⊎ ((is_maintained s.job (some key) j ≡ false)
          × (schedule alone row' now' (record s { idempotency_key = some key }) db'
              ≡ (raised Error.integrity_error, db')))
unfolding select
schedule-enqueue others row run_row row' now now' key q s db db' j h =
    let one = enqueue-selects others row run_row now key q db j db' h in
    let held = maintained-of_keyed s key db' j one in
    elim (Bool-cases (is_maintained s.job (some key) j)) [
      | inl e ↦ inl (
        e,
        schedule-eq_found row' now' (record s { idempotency_key = some key }) db' j
            (held ∙ ground (arith, e)),
      )
      | inr e ↦ inr (
        e,
        schedule-eq_collision row' now' s key db' (held ∙ ground (arith, e))
            (exists-of_selected (has_key key) db'.jobs j [] one),
      )
    ]

abbrev pub without_key : Schedule → Schedule
without_key s = record s { idempotency_key = none }

-- Another client's registration commits between the lookup and the INSERT.
abbrev pub rival_schedules : Inserted → Readings → Schedule → Others
rival_schedules row now s k db = if k == 1 then (schedule alone row now s db).1 else db

schedule-eq_raced :
    (others : Others) (row : Inserted) (now : Readings) (s : Schedule) (db : Db)
    → maintained (without_key s) (others 0 db) ≡ []
    → (schedule others row now (without_key s) db).1
      ≡ with_row row now (without_key s) (others 1 (others 0 db))
unfolding schedule
schedule-eq_raced others row now s db e = ground arith

schedule-eq_many :
    (row : Inserted) (now : Readings) (s : Schedule) (db : Db) (j k : JobModel)
    → maintained s db ≡ j ∷ k ∷ []
    → (schedule alone row now s db).0 ≡ raised Error.multiple_results_found
unfolding schedule
schedule-eq_many row now s db j k e = rw (e, schedule) refl

-- Two clients that first register one job class under no key at the same time both insert a row, and
-- every later registration of the class raises MultipleResultsFound.
pub schedule_race-unrecoverable :
    (row row' row'' : Inserted) (now now' now'' : Readings) (s t u : Schedule) (db : Db)
    → maintained (without_key s) db ≡ []
    → (schedule alone row'' now''
        (same_as (without_key s) u)
        (schedule
          (rival_schedules row now (without_key s))
          row'
          now'
          (same_as (without_key s) t)
          db).1).0
      ≡ raised Error.multiple_results_found
schedule_race-unrecoverable row row' row'' now now' now'' s t u db e =
    let first = with_row row now (without_key s) db in
    let second = with_row row' now' (same_as (without_key s) t) first in
    let raced : (schedule (rival_schedules row now (without_key s)) row' now'
          (same_as (without_key s) t) db).1
        ≡ second =
      schedule-eq_raced (rival_schedules row now (without_key s)) row' now'
        (same_as (without_key s) t) db e
      ∙ ap (with_row row' now' (same_as (without_key s) t))
          (schedule-eq_raced alone row now s db e) in
    rw raced (
      schedule-eq_many row'' now'' (same_as (without_key s) u) second
        (scheduled_job (without_key s) row (now 0))
        (scheduled_job (same_as (without_key s) t) row' (now' 0))
        (maintained_with_append row' now' (same_as (without_key s) t) first
          ∙ ap
              (λ (xs : List JobModel).
                xs ++ scheduled_job (same_as (without_key s) t) row' (now' 0) ∷ [])
              (maintained_with row now (without_key s) db e)))
