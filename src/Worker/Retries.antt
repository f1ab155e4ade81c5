-- ===== src/Worker/Retries.antt =====
-- _finalize_failed: the whole-run retries of a job.
use pyreljob.Backend.Jobs.{new_run, increment_job_attempts}
use pyreljob.Backend.Runs.{fail_run, create_run}
use pyreljob.Models.{Time, Readings, Inserted, Db, JobModel, JobRecord, job_key}
use pyreljob.Prelude.{
  length-snoc, ℕ, suc, ◌+◌, ◌-◌, String, ◌≡◌, refl, ap, ◌∙◌, arith, Bool, true, false, Option, none,
  some, List, [], ◌∷◌, ◌==◌, leb, length, Bool-cases, inl, inr,
}
use pyreljob.Sql.{update, find}
use pyreljob.Sql.Rows.{find-update, key-find}
use pyreljob.Worker.Action.{Env, World, write, transact}
use pyreljob.Worker.Failure.{retry_whole_run, finalize_failed}

-- The whole-run retries that the job has left.
abbrev pub retries_of : ℕ → Option JobModel → ℕ
retries_of retries none = 0
retries_of retries (some j) = retries - j.attempts

abbrev pub retries_left : JobRecord → Db → ℕ
retries_left job db = retries_of job.retries (find job_key job.id db.jobs)

length-update :
    {A : Type 0} (p : A → Bool) (f : A → A) (xs : List A) → length (update p f xs) ≡ length xs
unfolding update
length-update p f [] = refl
length-update p f (x ∷ xs) = ap suc (length-update p f xs)

length-fail_run :
    (run_id : ℕ) (error : String) (now : Readings) (db : Db)
    → length (fail_run run_id error none 1 now db).runs ≡ length db.runs
unfolding fail_run
length-fail_run run_id error now db = length-update _ _ db.runs

pub jobs-fail_run :
    (run_id : ℕ) (error : String) (now : Readings) (db : Db)
    → (fail_run run_id error none 1 now db).jobs ≡ db.jobs
unfolding fail_run
jobs-fail_run run_id error now db = refl

find-increment :
    (job_id : ℕ) (now : Readings) (db : Db) (j : JobModel)
    → find job_key job_id db.jobs ≡ some j
    → find job_key job_id (increment_job_attempts job_id now db).1.jobs
      ≡ some (record j { attempts = j.attempts + 1; updated_at = some (now 0) })
unfolding increment_job_attempts
find-increment job_id now db j e =
    find-update job_key job_id (λ i. i.id == job_id) _ (λ i. refl) db.jobs
    ∙ rw (e, key-find job_key job_id db.jobs j e) (ground arith)

attempts-increment :
    (job_id : ℕ) (now : Readings) (db : Db) (j : JobModel)
    → find job_key job_id db.jobs ≡ some j
    → (increment_job_attempts job_id now db).0 ≡ j.attempts + 1
unfolding increment_job_attempts
attempts-increment job_id now db j e =
    ap (λ o. elim o [ none ↦ 0 | some i ↦ i.attempts ]) (find-increment job_id now db j e)

increment-runs :
    (job_id : ℕ) (now : Readings) (db : Db)
    → (increment_job_attempts job_id now db).1.runs ≡ db.runs
unfolding increment_job_attempts
increment-runs job_id now db = refl

-- The runs there are, and those that the job may still get.
abbrev pub budget : JobRecord → Db → ℕ
budget job db = length db.runs + retries_left job db

budget-created :
    (row : Inserted) (job : JobRecord) (at : Option Time) (now now' : Readings) (db : Db)
    (j : JobModel)
    → find job_key job.id db.jobs ≡ some j
    → leb (j.attempts + 1) job.retries ≡ true
    → budget job (create_run row job.id at now (increment_job_attempts job.id now' db).1).1
      ≡ budget job db
unfolding create_run
budget-created row job at now now' db j e fits = ground (
  arith,
  length-snoc (increment_job_attempts job.id now' db).1.runs (new_run row job.id at (now 0)),
  ap length (increment-runs job.id now' db),
  ap (retries_of job.retries) (find-increment job.id now' db j e),
  ap (retries_of job.retries) e,
  fits,
)

budget-spent :
    (job : JobRecord) (now : Readings) (db : Db) (j : JobModel)
    → find job_key job.id db.jobs ≡ some j
    → leb (j.attempts + 1) job.retries ≡ false
    → budget job (increment_job_attempts job.id now db).1 ≡ budget job db
budget-spent job now db j e spent = ground (
  arith,
  ap length (increment-runs job.id now db),
  ap (retries_of job.retries) (find-increment job.id now db j e),
  ap (retries_of job.retries) e,
  spent,
)

module _ (env : Env) (alone : (k : ℕ) (db : Db) → env.others k db ≡ db) (job : JobRecord) where
  retry_whole_run-budget :
      (w : World) (j : JobModel)
      → find job_key job.id w.db.jobs ≡ some j
      → budget job (retry_whole_run env job w).1.db ≡ budget job w.db
  unfolding retry_whole_run transact
  retry_whole_run-budget w j e =
      rw (alone w.step w.db, attempts-increment job.id (env.clock w.step) w.db j e)
        (elim (Bool-cases (leb (j.attempts + 1) job.retries)) [
          | inl fits ↦ rw fits (
              ap
                (λ db.
                  budget job
                    (create_run (env.inserted (suc w.step)) job.id
                      (some (env.now (suc w.step) + env.backoff (j.attempts + 1) (suc w.step)))
                      (env.clock (suc w.step)) db).1)
                (alone (suc w.step) _)
              ∙ budget-created (env.inserted (suc w.step)) job _ (env.clock (suc w.step))
                  (env.clock w.step) w.db j e fits)
          | inr spent ↦ rw spent (budget-spent job (env.clock w.step) w.db j e spent)
        ])

  fail_run-budget :
      (run_id : ℕ) (error : String) (w : World)
      → budget job (write env (λ k. fail_run run_id error none 1 (env.clock k)) w).1.db
        ≡ budget job w.db
  unfolding write transact
  fail_run-budget run_id error w =
      rw
        (
          alone w.step w.db,
          length-fail_run run_id error (env.clock w.step) w.db,
          jobs-fail_run run_id error (env.clock w.step) w.db,
        )
        refl

  -- Each run that a failure creates is paid for with one of the whole-run retries of the job: the runs
  -- together with the retries that are left stay as many, whatever the numbers, if nobody else writes
  -- meanwhile and the job is in the table.
  pub finalize_failed-budget :
      (run_id : ℕ) (error : String) (w : World) (j : JobModel)
      → find job_key job.id w.db.jobs ≡ some j
      → budget job (finalize_failed env job run_id error w).1.db ≡ budget job w.db
  unfolding finalize_failed write transact
  finalize_failed-budget run_id error w j e = elim (Bool-cases (job.retries == 0)) [
    | inl none_left ↦ rw none_left (fail_run-budget run_id error w)
    | inr some_left ↦ rw some_left (
        retry_whole_run-budget (write env (λ k. fail_run run_id error none 1 (env.clock k)) w).1 j (
          ap (find job_key job.id) (
            jobs-fail_run run_id error (env.clock w.step) (env.others w.step w.db)
            ∙ ap (λ db. db.jobs) (alone w.step w.db))
          ∙ e)
        ∙ fail_run-budget run_id error w)
  ]
