-- ===== src/Backend/History/Finished.antt =====
-- A run that is done, and the transactions after that.
use pyreljob.Backend.Beat.{claim_scheduled, set_next_run_at}
use pyreljob.Backend.Claim.{claim_run, leased, run_ready_clause}
use pyreljob.Backend.Cleanup.{delete_rows, delete_runs, delete_found, runs_of}
use pyreljob.Backend.History.{
  Write, enqueues, schedules, cancels_job, increments, resets, deletes_job, deletes_runs, fires,
  arms, sweeps, rearms, claims, renews, completes, fails, cancels_run, sets_ctx, sets_progress,
  creates_run, starts_task, succeeds_task, fails_task, cancels_task, compensates_task, after,
  after_task, apply,
}
use pyreljob.Backend.Jobs.{
  insert_with_run, insert_alone, cancel_job, increment_job_attempts, reset_job_attempts,
}
use pyreljob.Backend.Reconcile.{sweep_batch, rearm_orphaned_jobs}
use pyreljob.Backend.Runs.{
  renew_lease, complete_run, fail_run, cancel_run, set_run_ctx, set_run_progress, create_run,
}
use pyreljob.Backend.Tasks.{start_task, succeed_task, fail_task, cancel_task, compensate_task}
use pyreljob.Backend.Validity.{IsValid}
use pyreljob.Models.{Time, Readings, Db, RunModel, RunStatus, run_key, is_done}
use pyreljob.Prelude.{
  ℕ, String, ◌≡◌, ◌⊎◌, refl, Bool, true, false, Option, none, some, List, [], ◌∷◌, ◌++◌, map, arith,
  ◌==◌, if◌then◌else◌, inl, ◌&&◌,
}
use pyreljob.Sql.{find, select, update, delete}
use pyreljob.Sql.Keyed.{find-select}
use pyreljob.Sql.Rows.{find-update, find-append}

-- The run as it is later: with the same outcome, or cancelled afterwards.
pub record IsLater (r s : RunModel) : Type 0 where
  pub done : is_done s.status ≡ true
  pub status : (s.status ≡ r.status) ⊎ (s.status ≡ RunStatus.cancelled)
  pub result : s.result ≡ r.result
  pub error : s.error ≡ r.error

-- What a lookup finds of it: the run as it is later, or nothing.
abbrev pub StaysDone : RunModel → Option RunModel → Type 0
StaysDone r none = Unit
StaysDone r (some s) = IsLater r s

module _ (k : ℕ) (runs : List RunModel) {r : RunModel} (e : find run_key k runs ≡ some r)
    (done : is_done r.status ≡ true) where
  same-StaysDone : StaysDone r (find run_key k runs)
  same-StaysDone = rw e (record { done = done; status = inl refl; result = refl; error = refl })

  update-StaysDone :
      (p : RunModel → Bool) (f : RunModel → RunModel)
      → ((s : RunModel) → run_key (f s) ≡ run_key s)
      → IsLater r (if p r then f r else r)
      → StaysDone r (find run_key k (update p f runs))
  update-StaysDone p f same h = rw (find-update run_key k p f same runs, e) h

  append-StaysDone : (s : RunModel) → StaysDone r (find run_key k (runs ++ s ∷ []))
  append-StaysDone s =
      rw (find-append run_key k runs (s ∷ []), e)
        (record { done = done; status = inl refl; result = refl; error = refl })

module _ (k : ℕ) {db : Db} {r : RunModel} (v : IsValid db) (e : find run_key k db.runs ≡ some r)
    (done : is_done r.status ≡ true) where
  select-StaysDone : (p : RunModel → Bool) → StaysDone r (find run_key k (select p db.runs))
  select-StaysDone p = rw (find-select run_key k p db.runs v.run_ids, e) (go (p r))
    where
      go : (b : Bool) → StaysDone r (if b then some r else none)
      go true = record { done = done; status = inl refl; result = refl; error = refl }
      go false = tt

  insert_with_run-StaysDone :
      (j : _) (s : RunModel) → StaysDone r (find run_key k (after db (insert_with_run j s db)).runs)
  unfolding insert_with_run
  insert_with_run-StaysDone j s =
      ground (arith, same-StaysDone k db.runs e done, append-StaysDone k db.runs e done s)

  insert_alone-StaysDone :
      (j : _) → StaysDone r (find run_key k (after db (insert_alone j db)).runs)
  unfolding insert_alone
  insert_alone-StaysDone j = ground (arith, same-StaysDone k db.runs e done)

  fail_run-StaysDone :
      (run_id : ℕ) (error : String) (retry_at : Option Time) (n : ℕ) (now : _)
      → StaysDone r (find run_key k (fail_run run_id error retry_at n now db).runs)
  unfolding fail_run
  fail_run-StaysDone run_id error none n now =
      update-StaysDone k db.runs e done _ _ (λ s. refl) (ground arith)
  fail_run-StaysDone run_id error (some t) n now =
      update-StaysDone k db.runs e done _ _ (λ s. refl) (ground arith)

  leased-StaysDone :
      (run_id : ℕ) (worker_id : String) (now lease_expiry : Time)
      → StaysDone r (
          find run_key k (
            update
              (λ s. (s.id == run_id) && run_ready_clause now lease_expiry s)
              (leased worker_id now)
              db.runs))
  unfolding leased
  leased-StaysDone run_id worker_id now lease_expiry =
      update-StaysDone k db.runs e done _ _ (λ s. refl) (ground arith)

  claim_run-StaysDone :
      (run_id : ℕ) (worker_id : String) (now lease_expiry : Time)
      → StaysDone r (find run_key k (claim_run run_id worker_id now lease_expiry none db).db.runs)
  unfolding claim_run
  claim_run-StaysDone run_id worker_id now lease_expiry =
      ground
        (arith, same-StaysDone k db.runs e done, leased-StaysDone run_id worker_id now lease_expiry)

  delete_found-StaysDone :
      (job_id : ℕ) (run_ids : List ℕ)
      → StaysDone r (find run_key k (delete_found job_id run_ids db).runs)
  unfolding delete
  delete_found-StaysDone job_id [] = same-StaysDone k db.runs e done
  delete_found-StaysDone job_id (i ∷ is) = select-StaysDone _

pub start_task-runs :
    (id run_id position : ℕ) (task_name : String) (attempts : ℕ) (now : Readings) (db : Db)
    → (after_task db (start_task id run_id position task_name attempts now db)).runs ≡ db.runs
unfolding start_task
start_task-runs id run_id position task_name attempts now db = ground arith

-- In valid tables, a run that is done is never resumed: after any one transaction of the backend it is still done, with
-- the same status, result and error, unless it was cancelled, which keeps its result and error, or
-- deleted.
pub apply-StaysDone :
    (w : Write) (k : ℕ) (db : Db) (r : RunModel)
    → IsValid db
    → find run_key k db.runs ≡ some r
    → is_done r.status ≡ true
    → StaysDone r (find run_key k (apply w db).runs)
unfolding apply cancel_job increment_job_attempts reset_job_attempts delete_rows delete_runs delete
    claim_scheduled set_next_run_at sweep_batch rearm_orphaned_jobs renew_lease complete_run
    cancel_run set_run_ctx set_run_progress create_run succeed_task fail_task cancel_task
    compensate_task
apply-StaysDone (enqueues row run_row now q) k db r v e d = insert_with_run-StaysDone k v e d _ _
apply-StaysDone (schedules row now s) k db r v e d = insert_alone-StaysDone k v e d _
apply-StaysDone (cancels_job job_id now) k db r v e d =
    update-StaysDone k db.runs e d _ _ (λ s. refl) (ground arith)
apply-StaysDone (increments job_id now) k db r v e d = same-StaysDone k db.runs e d
apply-StaysDone (resets job_id now) k db r v e d = same-StaysDone k db.runs e d
apply-StaysDone (deletes_job job_id) k db r v e d =
    delete_found-StaysDone k v e d job_id (map run_key (select (runs_of job_id) db.runs))
apply-StaysDone (deletes_runs run_ids) k db r v e d = select-StaysDone k v e d _
apply-StaysDone (fires job_id at now) k db r v e d = same-StaysDone k db.runs e d
apply-StaysDone (arms job_id at now) k db r v e d = same-StaysDone k db.runs e d
apply-StaysDone (sweeps now stale) k db r v e d =
    update-StaysDone k db.runs e d _ _ (λ s. refl) (ground arith)
apply-StaysDone (rearms now cutoff) k db r v e d = same-StaysDone k db.runs e d
apply-StaysDone (claims run_id w now expiry) k db r v e d =
    claim_run-StaysDone k v e d run_id w now expiry
apply-StaysDone (renews run_id w now) k db r v e d =
    update-StaysDone k db.runs e d _ _ (λ s. refl) (ground arith)
apply-StaysDone (completes run_id result now) k db r v e d =
    update-StaysDone k db.runs e d _ _ (λ s. refl) (ground arith)
apply-StaysDone (fails run_id error at n now) k db r v e d =
    fail_run-StaysDone k v e d run_id error at n now
apply-StaysDone (cancels_run run_id now) k db r v e d =
    update-StaysDone k db.runs e d _ _ (λ s. refl) (ground arith)
apply-StaysDone (sets_ctx run_id ctx now) k db r v e d =
    update-StaysDone k db.runs e d _ _ (λ s. refl) (ground arith)
apply-StaysDone (sets_progress run_id p now) k db r v e d =
    update-StaysDone k db.runs e d _ _ (λ s. refl) (ground arith)
apply-StaysDone (creates_run row job_id at now) k db r v e d = append-StaysDone k db.runs e d _
apply-StaysDone (starts_task id m p name n now) k db r v e d =
    rw (start_task-runs id m p name n now db) (same-StaysDone k db.runs e d)
apply-StaysDone (succeeds_task m p result now) k db r v e d = same-StaysDone k db.runs e d
apply-StaysDone (fails_task m p x n at now) k db r v e d = same-StaysDone k db.runs e d
apply-StaysDone (cancels_task m p now) k db r v e d = same-StaysDone k db.runs e d
apply-StaysDone (compensates_task m p now) k db r v e d = same-StaysDone k db.runs e d
