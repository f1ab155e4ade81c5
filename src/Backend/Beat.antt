-- ===== src/Backend/Beat.antt =====
-- pyreljob/backends/sqlalchemy.py: what the beat calls to fire and to arm maintained jobs.
pub mod Once
use pyreljob.Models.{
  Time, Readings, Db, JobModel, JobRecord, RunModel, is_active, is_scheduled, in_flight,
}
use pyreljob.Prelude.{ℕ, Bool, true, false, not, ◌&&◌, Option, none, some, List, ◌==◌, ltb}
use pyreljob.Sql.{select, update, exists, order_by, null_le}

-- EXISTS (SELECT … FROM runs WHERE runs.job_id = jobs.id AND runs.status IN (ready, running))
abbrev pub run_in_flight : List RunModel → JobModel → Bool
run_in_flight runs j = exists (λ r. (r.job_id == j.id) && in_flight r.status) runs

abbrev pub by_id : JobModel → JobModel → Bool
by_id j k = ltb j.id k.id

unfoldable pub list_scheduled : Db → List JobRecord
list_scheduled db =
    order_by by_id (select (λ j. is_scheduled j.source && is_active j.status) db.jobs)

abbrev pub is_due_now : Time → List RunModel → JobModel → Bool
is_due_now now runs j =
    is_active j.status && null_le j.next_run_at now && not (run_in_flight runs j)

-- The WHERE clause of claim_scheduled.
abbrev pub is_due : ℕ → Time → List RunModel → JobModel → Bool
is_due job_id now runs j = (j.id == job_id) && is_due_now now runs j

-- True if this caller won, and should fire the job.
unfoldable pub claim_scheduled : ℕ → Option Time → Readings → Db → Bool × Db
claim_scheduled job_id next_run_at now db = (
  exists (is_due job_id (now 0) db.runs) db.jobs,
  record db {
    jobs =
        update (is_due job_id (now 0) db.runs)
          (λ j. record j { next_run_at = next_run_at; updated_at = some (now 1) }) db.jobs;
  },
)

unfoldable pub set_next_run_at : ℕ → Option Time → Readings → Db → Db
set_next_run_at job_id next_run_at now db = record db {
  jobs =
      update (λ j. j.id == job_id)
        (λ j. record j { next_run_at = next_run_at; updated_at = some (now 0) }) db.jobs;
}
