-- ===== src/Backend/Validity.antt =====
-- What holds of the tables at all times, and how the kinds of statements keep it.
use pyreljob.Backend.Jobs.{has_key}
use pyreljob.Backend.Tasks.{is_task}
use pyreljob.Models.{
  Db, JobModel, RunModel, TaskModel, is_ready, is_running, is_done, is_failed, is_complete, job_key,
  run_key,
}
use pyreljob.Prelude.{
  ℕ, String, ◌≤◌, ◌≡◌, Bool, true, false, none, refl, Bool-cases, inl, inr, [], ◌∷◌, ◌++◌, arith,
  All, is_some,
}
use pyreljob.Sql.{select, update, rowcount, exists, find}
use pyreljob.Sql.Count.{
  Distinct, Distinct-update, Distinct-select, Distinct-append, rowcount-update, rowcount-select-le,
  rowcount-append, rowcount-of_not_exists,
}
use pyreljob.Sql.Rows.{All-update, All-select, All-append}

-- A lease is held exactly while the run is running, and then it names its worker and its start. A
-- finish time is set exactly on a run that is done. A failed run has an error, and a running or
-- succeeded one has none.
pub record RunIsValid (r : RunModel) : Type 0 where
  pub lease : is_some r.locked_at ≡ is_running r.status
  pub finish : is_some r.finished_at ≡ is_done r.status
  pub owned : is_running r.status ≡ true → is_some r.worker_id ≡ true
  pub begun : is_running r.status ≡ true → is_some r.started_at ≡ true
  pub unowned : is_ready r.status ≡ true → r.worker_id ≡ none
  pub explained : is_failed r.status ≡ true → is_some r.error ≡ true
  pub clean : is_running r.status ≡ true → r.error ≡ none
  pub clean_end : is_complete r.status ≡ true → r.error ≡ none

-- Primary keys, idempotency keys, and the positions of the tasks of a run are distinct.
pub record IsValid (db : Db) : Type 0 where
  pub runs_valid : All RunIsValid db.runs
  pub job_ids : Distinct job_key db.jobs
  pub run_ids : Distinct run_key db.runs
  pub keys : (k : String) → rowcount (has_key k) db.jobs ≤ 1
  pub positions : (r p : ℕ) → rowcount (is_task r p) db.tasks ≤ 1

module _ {db : Db} (v : IsValid db) where
  pub update_runs-IsValid :
      (p : RunModel → Bool) (f : RunModel → RunModel)
      → ((r : RunModel) → run_key (f r) ≡ run_key r)
      → ((r : RunModel) → p r ≡ true → RunIsValid r → RunIsValid (f r))
      → IsValid (record db { runs = update p f db.runs })
  update_runs-IsValid p f same keep = record {
    runs_valid = All-update RunIsValid p f keep db.runs v.runs_valid;
    job_ids = v.job_ids;
    run_ids = Distinct-update run_key p f same db.runs v.run_ids;
    keys = v.keys;
    positions = v.positions;
  }

  pub update_jobs-IsValid :
      (p : JobModel → Bool) (f : JobModel → JobModel)
      → ((j : JobModel) → job_key (f j) ≡ job_key j)
      → ((j : JobModel) (k : String) → has_key k (f j) ≡ has_key k j)
      → IsValid (record db { jobs = update p f db.jobs })
  update_jobs-IsValid p f same same_key = record {
    runs_valid = v.runs_valid;
    job_ids = Distinct-update job_key p f same db.jobs v.job_ids;
    run_ids = v.run_ids;
    keys =
        λ k. omega (arith, v.keys k, rowcount-update (has_key k) p f (λ j. same_key j k) db.jobs);
    positions = v.positions;
  }

  pub update_tasks-IsValid :
      (p : TaskModel → Bool) (f : TaskModel → TaskModel)
      → ((t : TaskModel) (run_id position : ℕ)
          → is_task run_id position (f t) ≡ is_task run_id position t)
      → IsValid (record db { tasks = update p f db.tasks })
  update_tasks-IsValid p f same = record {
    runs_valid = v.runs_valid;
    job_ids = v.job_ids;
    run_ids = v.run_ids;
    keys = v.keys;
    positions = λ r n.
        omega
          (arith, v.positions r n, rowcount-update (is_task r n) p f (λ t. same t r n) db.tasks);
  }

  pub select_jobs-IsValid : (p : JobModel → Bool) → IsValid (record db { jobs = select p db.jobs })
  select_jobs-IsValid p = record {
    runs_valid = v.runs_valid;
    job_ids = Distinct-select job_key p db.jobs v.job_ids;
    run_ids = v.run_ids;
    keys = λ k. omega (arith, v.keys k, rowcount-select-le (has_key k) p db.jobs);
    positions = v.positions;
  }

  pub select_runs-IsValid :
      (q : RunModel → Bool) (s : TaskModel → Bool)
      → IsValid (record db { runs = select q db.runs; tasks = select s db.tasks })
  select_runs-IsValid q s = record {
    runs_valid = All-select RunIsValid q db.runs v.runs_valid;
    job_ids = v.job_ids;
    run_ids = Distinct-select run_key q db.runs v.run_ids;
    keys = v.keys;
    positions = λ r n. omega (arith, v.positions r n, rowcount-select-le (is_task r n) s db.tasks);
  }

  pub append_run-IsValid :
      (r : RunModel)
      → find run_key r.id db.runs ≡ none
      → RunIsValid r
      → IsValid (record db { runs = db.runs ++ r ∷ [] })
  append_run-IsValid r fresh rv = record {
    runs_valid = All-append RunIsValid db.runs (r ∷ []) v.runs_valid (rv, tt);
    job_ids = v.job_ids;
    run_ids = Distinct-append run_key db.runs r fresh v.run_ids;
    keys = v.keys;
    positions = v.positions;
  }

  pub append_job-IsValid :
      (j : JobModel)
      → find job_key j.id db.jobs ≡ none
      → ((k : String) → has_key k j ≡ true → exists (has_key k) db.jobs ≡ false)
      → IsValid (record db { jobs = db.jobs ++ j ∷ [] })
  unfolding rowcount
  append_job-IsValid j fresh free = record {
    runs_valid = v.runs_valid;
    job_ids = Distinct-append job_key db.jobs j fresh v.job_ids;
    run_ids = v.run_ids;
    keys = λ k. ground (
      arith,
      v.keys k,
      free k,
      rowcount-append (has_key k) db.jobs (j ∷ []),
      rowcount-of_not_exists (has_key k) db.jobs,
    );
    positions = v.positions;
  }

  pub append_task-IsValid :
      (t : TaskModel)
      → rowcount (is_task t.run_id t.position) db.tasks ≡ 0
      → IsValid (record db { tasks = db.tasks ++ t ∷ [] })
  unfolding rowcount
  append_task-IsValid t free = record {
    runs_valid = v.runs_valid;
    job_ids = v.job_ids;
    run_ids = v.run_ids;
    keys = v.keys;
    positions = λ r n. elim (Bool-cases (is_task r n t)) [
      | inl hit ↦ ground (
        arith,
        hit,
        free,
        rowcount-append (is_task r n) db.tasks (t ∷ []),
        same r n (ground (arith, hit)),
      )
      | inr miss ↦
          ground (arith, miss, v.positions r n, rowcount-append (is_task r n) db.tasks (t ∷ []))
    ];
  }
    where
      same :
          (r n : ℕ)
          → (t.run_id ≡ r) × (t.position ≡ n)
          → rowcount (is_task t.run_id t.position) db.tasks ≡ rowcount (is_task r n) db.tasks
      same r n e = rw (e.0, e.1) refl
