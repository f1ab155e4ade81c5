-- ===== src/Backend/Tasks/Started.antt =====
-- start_task: the first execution of a position of a run, and each later one.
use pyreljob.Backend.Tasks.{is_task, update_task, start_task, started_task, restarted}
use pyreljob.Backend.Validity.{IsValid}
use pyreljob.Models.{Readings, Db, TaskModel, TaskStatus, ok}
use pyreljob.Prelude.{
  ℕ, String, ◌≡◌, refl, ap, ◌∙◌, Bool, true, not, List, [], ◌∷◌, ◌++◌, map, arith, ==_iff, inl, inr,
  length, ◌⊎◌, none, some,
}
use pyreljob.Sql.{select, update}
use pyreljob.Sql.Count.{length-select}

select-append_hit {ℓ} :
    {A : Type ℓ} (p : A → Bool) (xs : List A) (y : A)
    → p y ≡ true
    → select p (xs ++ y ∷ []) ≡ select p xs ++ y ∷ []
unfolding select
select-append_hit p [] y h = ground arith
select-append_hit p (x ∷ xs) y h = ground (arith, select-append_hit p xs y h)

select-not-append_hit {ℓ} :
    {A : Type ℓ} (p : A → Bool) (xs : List A) (y : A)
    → p y ≡ true
    → select (λ x. not (p x)) (xs ++ y ∷ []) ≡ select (λ x. not (p x)) xs
unfolding select
select-not-append_hit p [] y h = ground arith
select-not-append_hit p (x ∷ xs) y h = ground (arith, select-not-append_hit p xs y h)

is_task-started_task :
    (id run_id position : ℕ) (task_name : String) (attempts : ℕ) (now : Readings)
    → is_task run_id position (started_task id run_id position task_name attempts now) ≡ true
unfolding started_task
is_task-started_task id run_id position task_name attempts now =
    ground (arith, ==_iff run_id run_id, ==_iff position position)

-- An UPDATE that keeps the test makes of each matching row its new version.
select-update {ℓ} :
    {A : Type ℓ} (p : A → Bool) (f : A → A)
    → ((x : A) → p (f x) ≡ p x)
    → (xs : List A) → select p (update p f xs) ≡ map f (select p xs)
unfolding select update
select-update p f same [] = refl
select-update p f same (x ∷ xs) = ground (arith, same x, select-update p f same xs)

select-not-update {ℓ} :
    {A : Type ℓ} (p : A → Bool) (f : A → A)
    → ((x : A) → p (f x) ≡ p x)
    → (xs : List A) → select (λ x. not (p x)) (update p f xs) ≡ select (λ x. not (p x)) xs
unfolding select update
select-not-update p f same [] = refl
select-not-update p f same (x ∷ xs) = ground (arith, same x, select-not-update p f same xs)

-- A row that a start leaves: running, and with nothing of an earlier attempt.
pub record IsStarted (task_name : String) (attempts : ℕ) (now : Readings) (t : TaskModel)
    : Type 0 where
  pub status : t.status ≡ TaskStatus.running
  pub name : t.task_name ≡ task_name
  pub counted : t.attempts ≡ attempts
  pub result : t.result ≡ none
  pub error : t.error ≡ none
  pub retry_at : t.retry_at ≡ none
  pub finished_at : t.finished_at ≡ none
  pub started_at : (k : ℕ) × (t.started_at ≡ some (now k))

-- A row that was inserted, with the key `id`.
pub record IsNew (id : ℕ) (now : Readings) (t : TaskModel) : Type 0 where
  pub key : t.id ≡ id
  pub created_at : t.created_at ≡ now 0
  pub compensated_at : t.compensated_at ≡ none

-- What a restart keeps of the row.
pub record IsSame (old t : TaskModel) : Type 0 where
  pub key : t.id ≡ old.id
  pub created_at : t.created_at ≡ old.created_at
  pub compensated_at : t.compensated_at ≡ old.compensated_at

module _ (id run_id position : ℕ) (task_name : String) (attempts : ℕ) (now : Readings)
    (db : Db) where
  abbrev pub executions : Db → List TaskModel
  executions d = select (is_task run_id position) d.tasks

  abbrev pub other_tasks : Db → List TaskModel
  other_tasks d = select (λ t. not (is_task run_id position t)) d.tasks

  -- In valid tables start_task raises nothing, and the position has one row then, running, with the name
  -- and the number of attempts it was given, and with no result, error, time to retry at or end: a new
  -- one if it had none, and else its old one, with the old key. No other row of the table changes, nor
  -- any run or job.
  pub start_task-outcome :
      IsValid db
      → (db' : Db) × (start_task id run_id position task_name attempts now db ≡ ok db')
        × (t : TaskModel) × (executions db' ≡ t ∷ [])
        × IsStarted task_name attempts now t
        × (((executions db ≡ []) × IsNew id now t)
            ⊎ ((old : TaskModel) × (executions db ≡ old ∷ []) × IsSame old t))
        × (other_tasks db' ≡ other_tasks db)
        × (db'.runs ≡ db.runs)
        × (db'.jobs ≡ db.jobs)
  unfolding start_task started_task restarted select
  start_task-outcome v = go (executions db) refl
    where
      hit : is_task run_id position (started_task id run_id position task_name attempts now) ≡ true
      hit = is_task-started_task id run_id position task_name attempts now

      fresh :
          IsStarted task_name attempts now (started_task id run_id position task_name attempts now)
      fresh = record {
        status = refl;
        name = refl;
        counted = refl;
        result = refl;
        error = refl;
        retry_at = refl;
        finished_at = refl;
        started_at = (2, refl);
      }

      again :
          (t : TaskModel) → IsStarted task_name attempts now (restarted task_name attempts now t)
      again t = record {
        status = refl;
        name = refl;
        counted = refl;
        result = refl;
        error = refl;
        retry_at = refl;
        finished_at = refl;
        started_at = (1, refl);
      }

      go :
          (rows : List TaskModel)
          → executions db ≡ rows
          → (db' : Db) × (start_task id run_id position task_name attempts now db ≡ ok db')
            × (t : TaskModel) × (executions db' ≡ t ∷ [])
            × IsStarted task_name attempts now t
            × (((executions db ≡ []) × IsNew id now t)
                ⊎ ((old : TaskModel) × (executions db ≡ old ∷ []) × IsSame old t))
            × (other_tasks db' ≡ other_tasks db)
            × (db'.runs ≡ db.runs)
            × (db'.jobs ≡ db.jobs)
      go [] e = (
        record db {
          tasks = db.tasks ++ started_task id run_id position task_name attempts now ∷ [];
        },
        rw (e, start_task) refl,
        started_task id run_id position task_name attempts now,
        select-append_hit (is_task run_id position) db.tasks _ hit ∙ rw e refl,
        fresh,
        inl (e, record { key = refl; created_at = refl; compensated_at = refl }),
        select-not-append_hit (is_task run_id position) db.tasks _ hit,
        refl,
        refl,
      )
      go (t ∷ []) e = (
        update_task run_id position (restarted task_name attempts now) db,
        rw (e, start_task) refl,
        restarted task_name attempts now t,
        select-update (is_task run_id position) (restarted task_name attempts now) (λ u. refl)
              db.tasks
            ∙ rw e refl,
        again t,
        inr (t, e, record { key = refl; created_at = refl; compensated_at = refl }),
        select-not-update (is_task run_id position) (restarted task_name attempts now) (λ u. refl)
            db.tasks,
        refl,
        refl,
      )
      go (t ∷ u ∷ rows) e = absurd (
          omega (
            arith,
            v.positions run_id position,
            length-select (is_task run_id position) db.tasks,
            ap length e,
          ))
