-- ===== src/Backend/History.antt =====
-- The transactions that write, as values, so that the interleaved work of many clients is a list of
-- them. Each takes effect at once. A transaction that raises is rolled back.
pub mod Invariant
pub mod Finished
pub mod Moves
pub mod Lifecycle
use pyreljob.Backend.Beat.{claim_scheduled, set_next_run_at}
use pyreljob.Backend.Claim.{claim_run}
use pyreljob.Backend.Cleanup.{delete_rows, delete_runs}
use pyreljob.Backend.Jobs.{
  Enqueue, Schedule, enqueued_job, scheduled_job, new_run, insert_with_run, insert_alone,
  cancel_job, increment_job_attempts, reset_job_attempts,
}
use pyreljob.Backend.Reconcile.{sweep_batch, rearm_orphaned_jobs}
use pyreljob.Backend.Runs.{
  renew_lease, complete_run, fail_run, cancel_run, set_run_ctx, set_run_progress, create_run,
}
use pyreljob.Backend.Tasks.{start_task, succeed_task, fail_task, cancel_task, compensate_task}
use pyreljob.Json.{Json}
use pyreljob.Models.{
  Time, Readings, Db, Inserted, JobRecord, RunModel, Result, ok, raised, job_key, run_key,
}
use pyreljob.Prelude.{ℕ, String, ◌≡◌, Option, none, List, [], ◌∷◌, Float}
use pyreljob.Sql.{find}

pub data Write : Type 0 where
  enqueues : (row run_row : Inserted) → Readings → Enqueue → Write
  schedules : (row : Inserted) → Readings → Schedule → Write
  cancels_job increments resets : (job_id : ℕ) → Readings → Write
  deletes_job : (job_id : ℕ) → Write
  deletes_runs : (run_ids : List ℕ) → Write
  fires arms : (job_id : ℕ) → (next_run_at : Option Time) → Readings → Write
  sweeps : (now : Time) → (stale : List RunModel) → Write
  rearms : (now cutoff : Time) → Write
  claims : (run_id : ℕ) → (worker_id : String) → (now lease_expiry : Time) → Write
  renews : (run_id : ℕ) → (worker_id : String) → Readings → Write
  completes : (run_id : ℕ) → (result : Option Json) → Readings → Write
  fails :
      (run_id : ℕ) → (error : String) → (retry_at : Option Time) → (attempts : ℕ) → Readings → Write
  cancels_run : (run_id : ℕ) → Readings → Write
  sets_ctx : (run_id : ℕ) → (ctx : Option Json) → Readings → Write
  sets_progress : (run_id : ℕ) → (progress : Option Float) → Readings → Write
  creates_run : (row : Inserted) → (job_id : ℕ) → (scheduled_at : Option Time) → Readings → Write
  starts_task : (id run_id position : ℕ) → (task_name : String) → (attempts : ℕ) → Readings → Write
  succeeds_task : (run_id position : ℕ) → (result : Option Json) → Readings → Write
  fails_task :
      (run_id position : ℕ)
      → (error : String) → (attempts : ℕ) → (retry_at : Option Time) → Readings
      → Write
  cancels_task compensates_task : (run_id position : ℕ) → Readings → Write

abbrev pub after : Db → Result (JobRecord × Db) → Db
after db (ok (j, db')) = db'
after db (raised e) = db

abbrev pub after_task : Db → Result Db → Db
after_task db (ok db') = db'
after_task db (raised e) = db

unfoldable pub apply : Write → Db → Db
apply (enqueues row run_row now q) db = after db (
    insert_with_run (enqueued_job q row (now 0)) (new_run run_row row.id q.scheduled_at (now 1)) db)
apply (schedules row now s) db = after db (insert_alone (scheduled_job s row (now 0)) db)
apply (cancels_job job_id now) db = cancel_job job_id now db
apply (increments job_id now) db = (increment_job_attempts job_id now db).1
apply (resets job_id now) db = reset_job_attempts job_id now db
apply (deletes_job job_id) db = delete_rows job_id db
apply (deletes_runs run_ids) db = delete_runs run_ids db
apply (fires job_id next_run_at now) db = (claim_scheduled job_id next_run_at now db).1
apply (arms job_id next_run_at now) db = set_next_run_at job_id next_run_at now db
apply (sweeps now stale) db = sweep_batch now stale db
apply (rearms now cutoff) db = (rearm_orphaned_jobs now cutoff db).1
apply (claims run_id worker_id now lease_expiry) db =
    (claim_run run_id worker_id now lease_expiry none db).db
apply (renews run_id worker_id now) db = (renew_lease run_id worker_id now db).1
apply (completes run_id result now) db = complete_run run_id result now db
apply (fails run_id error retry_at attempts now) db = fail_run run_id error retry_at attempts now db
apply (cancels_run run_id now) db = cancel_run run_id now db
apply (sets_ctx run_id ctx now) db = set_run_ctx run_id ctx now db
apply (sets_progress run_id progress now) db = set_run_progress run_id progress now db
apply (creates_run row job_id scheduled_at now) db = (create_run row job_id scheduled_at now db).1
apply (starts_task id run_id position task_name attempts now) db =
    after_task db (start_task id run_id position task_name attempts now db)
apply (succeeds_task run_id position result now) db = succeed_task run_id position result now db
apply (fails_task run_id position error attempts retry_at now) db =
    fail_task run_id position error attempts retry_at now db
apply (cancels_task run_id position now) db = cancel_task run_id position now db
apply (compensates_task run_id position now) db = compensate_task run_id position now db

-- The database gives a new row a primary key that no row of the table has.
abbrev pub HasFreshKeys : Write → Db → Type 0
HasFreshKeys (enqueues row run_row now q) db =
    (find job_key row.id db.jobs ≡ none) × (find run_key run_row.id db.runs ≡ none)
HasFreshKeys (schedules row now s) db = find job_key row.id db.jobs ≡ none
HasFreshKeys (creates_run row job_id scheduled_at now) db = find run_key row.id db.runs ≡ none
HasFreshKeys _ db = Unit

unfoldable pub run : List Write → Db → Db
run [] db = db
run (w ∷ ws) db = run ws (apply w db)

unfoldable pub AllFresh : List Write → Db → Type 0
unfolding apply
AllFresh [] db = Unit
AllFresh (w ∷ ws) db = HasFreshKeys w db × AllFresh ws (apply w db)
