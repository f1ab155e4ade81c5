-- ===== src/Backend/History/Invariant.antt =====
-- The validity of the tables along a history.
use pyreljob.Backend.Beat.{claim_scheduled, set_next_run_at}
use pyreljob.Backend.Claim.{claim_run, leased, run_ready_clause}
use pyreljob.Backend.Cleanup.{delete_rows, delete_runs, delete_found, runs_of}
use pyreljob.Backend.History.{
  Write, enqueues, schedules, cancels_job, increments, resets, deletes_job, deletes_runs, fires,
  arms, sweeps, rearms, claims, renews, completes, fails, cancels_run, sets_ctx, sets_progress,
  creates_run, starts_task, succeeds_task, fails_task, cancels_task, compensates_task, after,
  after_task, apply, HasFreshKeys, run, AllFresh,
}
use pyreljob.Backend.Jobs.{
  enqueued_job, scheduled_job, new_run, insert_with_run, insert_alone, cancel_job,
  increment_job_attempts, reset_job_attempts, has_key, key_taken,
}
use pyreljob.Backend.Reconcile.{sweep_batch, rearm_orphaned_jobs}
use pyreljob.Backend.Runs.{
  renew_lease, complete_run, fail_run, cancel_run, set_run_ctx, set_run_progress, create_run,
}
use pyreljob.Backend.Tasks.{
  start_task, succeed_task, fail_task, cancel_task, compensate_task, is_task,
}
use pyreljob.Backend.Validity.{
  RunIsValid, IsValid, update_runs-IsValid, update_jobs-IsValid, update_tasks-IsValid,
  select_jobs-IsValid, select_runs-IsValid, append_run-IsValid, append_job-IsValid,
  append_task-IsValid,
}
use pyreljob.Models.{
  Time, Readings, Db, Inserted, JobModel, RunModel, job_key, run_key, null_eq, TaskModel,
}
use pyreljob.Prelude.{
  ℕ, String, ◌≡◌, refl, true, false, Option, none, some, List, [], ◌∷◌, ◌++◌, arith, Bool-cases,
  inl, inr, ap, map, length, str_eq_iff, ◌==◌, ◌&&◌,
}
use pyreljob.Sql.{find, delete, exists, select, update}
use pyreljob.Sql.Count.{length-select}

new_run-IsValid :
    (row : Inserted) (job_id : ℕ) (at : Option Time) (t : Time)
    → RunIsValid (new_run row job_id at t)
unfolding new_run
new_run-IsValid row job_id at t = ground arith

free_key :
    (key : Option String) (jobs : List JobModel)
    → key_taken key jobs ≡ false
    → (k : String) → null_eq key k ≡ true
    → exists (has_key k) jobs ≡ false
free_key none jobs e k h = absurd (ground arith)
free_key (some key) jobs e k h = rw (← (str_eq_iff key k).0 h) e

module _ {db : Db} (v : IsValid db) where
  with_job-IsValid :
      (j : JobModel)
      → find job_key j.id db.jobs ≡ none
      → key_taken j.idempotency_key db.jobs ≡ false
      → IsValid (record db { jobs = db.jobs ++ j ∷ [] })
  with_job-IsValid j fresh free =
      append_job-IsValid v j fresh (free_key j.idempotency_key db.jobs free)

  insert_with_run-IsValid :
      (j : JobModel) (r : RunModel)
      → find job_key j.id db.jobs ≡ none
      → find run_key r.id db.runs ≡ none
      → RunIsValid r
      → IsValid (after db (insert_with_run j r db))
  unfolding insert_with_run
  insert_with_run-IsValid j r fresh fresh_run rv =
      elim (Bool-cases (key_taken j.idempotency_key db.jobs)) [
        | inl taken ↦ rw (taken, insert_with_run) v
        | inr free ↦
            rw (free, insert_with_run)
              (append_run-IsValid (with_job-IsValid j fresh free) r fresh_run rv)
      ]

  insert_alone-IsValid :
      (j : JobModel) → find job_key j.id db.jobs ≡ none → IsValid (after db (insert_alone j db))
  unfolding insert_alone
  insert_alone-IsValid j fresh = elim (Bool-cases (key_taken j.idempotency_key db.jobs)) [
    | inl taken ↦ rw (taken, insert_alone) v
    | inr free ↦ rw (free, insert_alone) (with_job-IsValid j fresh free)
  ]

  cancel_job-IsValid : (job_id : ℕ) (now : Readings) → IsValid (cancel_job job_id now db)
  unfolding cancel_job
  cancel_job-IsValid job_id now =
      update_jobs-IsValid (update_runs-IsValid v _ _ (λ r. refl) (λ r e w. ground arith)) _ _
        (λ j. refl) (λ j k. refl)

  leased_run-IsValid :
      (run_id : ℕ) (worker_id : String) (now lease_expiry : Time)
      → IsValid (record db {
        runs =
            update
              (λ r. (r.id == run_id) && run_ready_clause now lease_expiry r)
              (leased worker_id now)
              db.runs;
      })
  unfolding leased
  leased_run-IsValid run_id worker_id now lease_expiry =
      update_runs-IsValid v _ _ (λ r. refl) (λ r e w. ground arith)

  pub claim_run-IsValid :
      (run_id : ℕ) (worker_id : String) (now lease_expiry : Time) (last : Option Time)
      → IsValid (claim_run run_id worker_id now lease_expiry last db).db
  unfolding claim_run
  claim_run-IsValid run_id worker_id now lease_expiry last =
      ground (arith, leased_run-IsValid run_id worker_id now lease_expiry)

  sweep_batch-IsValid : (now : Time) (stale : List RunModel) → IsValid (sweep_batch now stale db)
  unfolding sweep_batch
  sweep_batch-IsValid now stale =
      update_jobs-IsValid (update_runs-IsValid v _ _ (λ r. refl) (λ r e w. ground arith)) _ _
        (λ j. refl) (λ j k. refl)

  delete_found-IsValid : (job_id : ℕ) (run_ids : List ℕ) → IsValid (delete_found job_id run_ids db)
  unfolding delete
  delete_found-IsValid job_id [] = v
  delete_found-IsValid job_id (k ∷ ks) = select_runs-IsValid v _ _

  fail_run-IsValid :
      (run_id : ℕ) (error : String) (retry_at : Option Time) (attempts : ℕ) (now : Readings)
      → IsValid (fail_run run_id error retry_at attempts now db)
  unfolding fail_run
  fail_run-IsValid run_id error none attempts now =
      update_runs-IsValid v _ _ (λ r. refl) (λ r e w. ground arith)
  fail_run-IsValid run_id error (some t) attempts now =
      update_runs-IsValid v _ _ (λ r. refl) (λ r e w. ground arith)

  start_task-IsValid :
      (id run_id position : ℕ) (task_name : String) (attempts : ℕ) (now : Readings)
      → IsValid (after_task db (start_task id run_id position task_name attempts now db))
  unfolding start_task
  start_task-IsValid id run_id position task_name attempts now = go _ refl
    where
      go :
          (rows : List TaskModel)
          → select (is_task run_id position) db.tasks ≡ rows
          → IsValid (after_task db (start_task id run_id position task_name attempts now db))
      go [] e =
          rw (e, start_task)
            (append_task-IsValid v _
              (omega (arith, length-select (is_task run_id position) db.tasks, ap length e)))
      go (t ∷ []) e = rw (e, start_task) (update_tasks-IsValid v _ _ (λ t r p. refl))
      go (t ∷ u ∷ ts) e = rw (e, start_task) v

delete_rows-IsValid : {db : Db} (v : IsValid db) (job_id : ℕ) → IsValid (delete_rows job_id db)
unfolding delete_rows delete
delete_rows-IsValid {db} v job_id =
    select_jobs-IsValid
      (delete_found-IsValid v job_id (map run_key (select (runs_of job_id) db.runs))) _

-- Every transaction of the backend keeps the tables valid, whatever it is applied to: the keys are
-- distinct, each run has a lease, an owner, a finish time and an error exactly as its status asks.
pub apply-IsValid : (w : Write) (db : Db) → HasFreshKeys w db → IsValid db → IsValid (apply w db)
unfolding apply enqueued_job scheduled_job new_run increment_job_attempts reset_job_attempts
    delete_runs delete claim_scheduled set_next_run_at rearm_orphaned_jobs renew_lease complete_run
    cancel_run set_run_ctx set_run_progress create_run succeed_task fail_task cancel_task
    compensate_task
apply-IsValid (enqueues row run_row now q) db h v =
    insert_with_run-IsValid v _ _ h.0 h.1 (new_run-IsValid run_row row.id q.scheduled_at (now 1))
apply-IsValid (schedules row now s) db h v = insert_alone-IsValid v _ h
apply-IsValid (cancels_job job_id now) db h v = cancel_job-IsValid v job_id now
apply-IsValid (increments job_id now) db h v = update_jobs-IsValid v _ _ (λ j. refl) (λ j k. refl)
apply-IsValid (resets job_id now) db h v = update_jobs-IsValid v _ _ (λ j. refl) (λ j k. refl)
apply-IsValid (deletes_job job_id) db h v = delete_rows-IsValid v job_id
apply-IsValid (deletes_runs run_ids) db h v = select_runs-IsValid v _ _
apply-IsValid (fires job_id at now) db h v = update_jobs-IsValid v _ _ (λ j. refl) (λ j k. refl)
apply-IsValid (arms job_id at now) db h v = update_jobs-IsValid v _ _ (λ j. refl) (λ j k. refl)
apply-IsValid (sweeps now stale) db h v = sweep_batch-IsValid v now stale
apply-IsValid (rearms now cutoff) db h v = update_jobs-IsValid v _ _ (λ j. refl) (λ j k. refl)
apply-IsValid (claims run_id w now expiry) db h v = claim_run-IsValid v run_id w now expiry none
apply-IsValid (renews run_id w now) db h v =
    update_runs-IsValid v _ _ (λ r. refl) (λ r e u. ground arith)
apply-IsValid (completes run_id result now) db h v =
    update_runs-IsValid v _ _ (λ r. refl) (λ r e u. ground arith)
apply-IsValid (fails run_id error at n now) db h v = fail_run-IsValid v run_id error at n now
apply-IsValid (cancels_run run_id now) db h v =
    update_runs-IsValid v _ _ (λ r. refl) (λ r e u. ground arith)
apply-IsValid (sets_ctx run_id ctx now) db h v =
    update_runs-IsValid v _ _ (λ r. refl) (λ r e u. ground arith)
apply-IsValid (sets_progress run_id p now) db h v =
    update_runs-IsValid v _ _ (λ r. refl) (λ r e u. ground arith)
apply-IsValid (creates_run row job_id at now) db h v =
    append_run-IsValid v _ h (new_run-IsValid row job_id at (now 0))
apply-IsValid (starts_task id r p name n now) db h v = start_task-IsValid v id r p name n now
apply-IsValid (succeeds_task r p result now) db h v = update_tasks-IsValid v _ _ (λ t k m. refl)
apply-IsValid (fails_task r p e n at now) db h v = update_tasks-IsValid v _ _ (λ t k m. refl)
apply-IsValid (cancels_task r p now) db h v = update_tasks-IsValid v _ _ (λ t k m. refl)
apply-IsValid (compensates_task r p now) db h v = update_tasks-IsValid v _ _ (λ t k m. refl)

-- Valid tables stay valid through every history of writing transactions, of however many clients, in
-- which the database gives each new row a fresh primary key.
pub run-IsValid : (ws : List Write) (db : Db) → AllFresh ws db → IsValid db → IsValid (run ws db)
unfolding run apply AllFresh
run-IsValid [] db h v = v
run-IsValid (w ∷ ws) db h v = run-IsValid ws (apply w db) h.1 (apply-IsValid w db h.0 v)
