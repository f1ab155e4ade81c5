-- ===== src/Backend/Cleanup.antt =====
-- pyreljob/backends/sqlalchemy.py: delete_job and prune_runs.
pub mod Outcome
pub mod Pruned
use pyreljob.Effects.{Call, Others, pure, raise, ◌>>=◌, ◌>>◌, reading, writing}
use pyreljob.Models.{
  Time, Db, JobModel, RunModel, TaskModel, Error, Result, ok, raised, is_done, in_flight, run_key,
}
use pyreljob.Prelude.{
  ℕ, Bool, true, false, ◌&&◌, Option, none, some, List, [], ◌∷◌, ◌==◌, if◌then◌else◌, map, length,
}
use pyreljob.Sql.{select, delete, exists, is_in, null_lt}

abbrev pub runs_of : ℕ → RunModel → Bool
runs_of job_id r = r.job_id == job_id

abbrev pub active_run_of : ℕ → RunModel → Bool
active_run_of job_id r = (r.job_id == job_id) && in_flight r.status

-- The tasks of a run in the list: run_id IN (…).
abbrev pub task_in : List ℕ → TaskModel → Bool
task_in run_ids t = is_in t.run_id run_ids

abbrev pub delete_found : ℕ → List ℕ → Db → Db
delete_found job_id [] db = db
delete_found job_id (k ∷ ks) db = record db {
  tasks = delete (task_in (k ∷ ks)) db.tasks;
  runs = delete (runs_of job_id) db.runs;
}

-- The second transaction of delete_job.
unfoldable pub delete_rows : ℕ → Db → Db
delete_rows job_id db =
    let cleared = delete_found job_id (map run_key (select (runs_of job_id) db.runs)) db in
    record cleared { jobs = delete (λ j. j.id == job_id) cleared.jobs }

unfoldable pub delete_job : Others → ℕ → Call (Unit {0})
unfolding delete_rows
delete_job others job_id = do
  active ← reading others 0 (λ db. ok (exists (active_run_of job_id) db.runs))
  if active
      then raise Error.value_error
      else writing others 1 (λ db. ok (tt, delete_rows job_id db))

-- A finished run older than the bound.
abbrev pub prunable : Time → RunModel → Bool
prunable older_than r = is_done r.status && null_lt r.finished_at older_than

unfoldable pub delete_runs : List ℕ → Db → Db
delete_runs run_ids db = record db {
  tasks = delete (task_in run_ids) db.tasks;
  runs = delete (λ r. is_in r.id run_ids) db.runs;
}

abbrev pub prune_found : Others → List ℕ → Call ℕ
unfolding delete_runs
prune_found others [] = pure 0
prune_found others (k ∷ ks) = writing others 1 (λ db. ok (length (k ∷ ks), delete_runs (k ∷ ks) db))

unfoldable pub prune_runs : Others → Time → Call ℕ
unfolding delete_runs
prune_runs others older_than = do
  run_ids ← reading others 0 (λ db. ok (map run_key (select (prunable older_than) db.runs)))
  prune_found others run_ids
