-- ===== src/Backend/Cleanup/Outcome.antt =====
-- What delete_job and prune_runs leave.
use pyreljob.Backend.Cleanup.{
  delete_job, delete_rows, delete_found, active_run_of, runs_of, task_in,
}
use pyreljob.Backend.Jobs.{get}
use pyreljob.Effects.{alone}
use pyreljob.Models.{Db, RunModel, TaskModel, Error, ok, raised, run_key, job_key}
use pyreljob.Prelude.{
  ℕ, ◌≡◌, ◌≢◌, ◌⊎◌, refl, sym, ap, ◌∙◌, Bool, true, false, not, none, List, [], ◌∷◌, map, arith,
  ◌==◌, if◌then◌else◌, inl, inr, Bool-cases, length,
}
use pyreljob.Sql.{find, select, delete, exists, rowcount, is_in}
use pyreljob.Sql.Count.{length-select}

pub rowcount-delete {ℓ} : {A : Type ℓ} (p : A → Bool) (xs : List A) → rowcount p (delete p xs) ≡ 0
unfolding rowcount delete
rowcount-delete p [] = refl
rowcount-delete p (x ∷ xs) = ground (arith, rowcount-delete p xs)

find-delete {ℓ} :
    {A : Type ℓ} (key : A → ℕ) (k j : ℕ) (xs : List A)
    → find key k (delete (λ x. key x == j) xs) ≡ (if k == j then none else find key k xs)
unfolding find delete
find-delete key k j [] = ground arith
find-delete key k j (x ∷ xs) = ground (arith, find-delete key k j xs)

-- The ids of the runs of a job.
abbrev pub run_ids : ℕ → Db → List ℕ
run_ids job_id db = map run_key (select (runs_of job_id) db.runs)

-- Rows that are not deleted are selected as before.
pub select-delete {ℓ} :
    {A : Type ℓ} (p q : A → Bool) (xs : List A)
    → ((x : A) → p x ≡ true → q x ≡ false)
    → select p (delete q xs) ≡ select p xs
unfolding select delete
select-delete p q [] h = refl
select-delete p q (x ∷ xs) h = elim (Bool-cases (p x)) [
  | inl e ↦ rw (h x e, e) (ap (◌∷◌ x) (select-delete p q xs h))
  | inr e ↦ rw e (ground (arith, e, select-delete p q xs h))
]

pub rowcount-task_in_nil : (ts : List TaskModel) → rowcount (task_in []) ts ≡ 0
unfolding rowcount is_in
rowcount-task_in_nil [] = refl
rowcount-task_in_nil (t ∷ ts) = rowcount-task_in_nil ts

nil_of_ids : (rs : List RunModel) → map run_key rs ≡ [] → length rs ≡ 0
nil_of_ids [] e = refl
nil_of_ids (r ∷ rs) e = cc

-- What stays and what goes when a job is deleted.
pub record IsDeleted (job_id : ℕ) (db db' : Db) : Type 0 where
  pub no_job : get job_id db' ≡ none
  pub no_runs : rowcount (runs_of job_id) db'.runs ≡ 0
  pub no_tasks : rowcount (task_in (run_ids job_id db)) db'.tasks ≡ 0
  pub other_jobs : (k : ℕ) → k ≢ job_id → get k db' ≡ get k db
  pub other_runs : (k : ℕ) → k ≢ job_id → select (runs_of k) db'.runs ≡ select (runs_of k) db.runs
  pub other_tasks :
      select (λ t. not (task_in (run_ids job_id db) t)) db'.tasks
      ≡ select (λ t. not (task_in (run_ids job_id db) t)) db.tasks

other_run :
    (k job_id : ℕ) → k ≢ job_id → (r : RunModel) → runs_of k r ≡ true → runs_of job_id r ≡ false
other_run k job_id ne r e = ground (arith, ne)

found-jobs : (job_id : ℕ) (ids : List ℕ) (db : Db) → (delete_found job_id ids db).jobs ≡ db.jobs
found-jobs job_id [] db = refl
found-jobs job_id (k ∷ ks) db = refl

module _ (job_id : ℕ) (db : Db) where
  no_runs_left :
      (ids : List ℕ)
      → run_ids job_id db ≡ ids
      → rowcount (runs_of job_id) (delete_found job_id ids db).runs ≡ 0
  no_runs_left [] e =
      sym (length-select (runs_of job_id) db.runs) ∙ nil_of_ids (select (runs_of job_id) db.runs) e
  no_runs_left (k ∷ ks) e = rowcount-delete (runs_of job_id) db.runs

  no_tasks_left : (ids : List ℕ) → rowcount (task_in ids) (delete_found job_id ids db).tasks ≡ 0
  no_tasks_left [] = rowcount-task_in_nil db.tasks
  no_tasks_left (k ∷ ks) = rowcount-delete (task_in (k ∷ ks)) db.tasks

  other_runs_left :
      (ids : List ℕ) (k : ℕ)
      → k ≢ job_id
      → select (runs_of k) (delete_found job_id ids db).runs ≡ select (runs_of k) db.runs
  other_runs_left [] k ne = refl
  other_runs_left (i ∷ is) k ne =
      select-delete (runs_of k) (runs_of job_id) db.runs (other_run k job_id ne)

  other_tasks_left :
      (ids : List ℕ)
      → select (λ t. not (task_in ids t)) (delete_found job_id ids db).tasks
        ≡ select (λ t. not (task_in ids t)) db.tasks
  other_tasks_left [] = refl
  other_tasks_left (i ∷ is) =
      select-delete (λ t. not (task_in (i ∷ is) t)) (task_in (i ∷ is)) db.tasks
        (λ t e. ground (arith, e))

  delete_rows-IsDeleted : IsDeleted job_id db (delete_rows job_id db)
  unfolding delete_rows get
  delete_rows-IsDeleted = record {
    no_job =
        rw (found-jobs job_id (run_ids job_id db) db)
          (find-delete job_key job_id job_id db.jobs ∙ ground arith);
    no_runs = no_runs_left (run_ids job_id db) refl;
    no_tasks = no_tasks_left (run_ids job_id db);
    other_jobs = λ k ne.
        rw (found-jobs job_id (run_ids job_id db) db)
          (find-delete job_key k job_id db.jobs ∙ ground (arith, ne));
    other_runs = other_runs_left (run_ids job_id db);
    other_tasks = other_tasks_left (run_ids job_id db);
  }

  -- With nobody else writing, delete_job raises ValueError and changes nothing if the job has a ready
  -- or running run; otherwise the job, its runs and their tasks are gone, and all else stays.
  pub delete_job-outcome :
      ((exists (active_run_of job_id) db.runs ≡ true)
        × (delete_job alone job_id db ≡ (raised Error.value_error, db)))
      ⊎ ((exists (active_run_of job_id) db.runs ≡ false)
          × (db' : Db) × (delete_job alone job_id db ≡ (ok tt, db'))
          × IsDeleted job_id db db')
  unfolding delete_job
  delete_job-outcome = elim (Bool-cases (exists (active_run_of job_id) db.runs)) [
    | inl active ↦ inl (active, ground arith)
    | inr idle ↦ inr (idle, delete_rows job_id db, ground arith, delete_rows-IsDeleted)
  ]
