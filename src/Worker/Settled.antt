-- ===== src/Worker/Settled.antt =====
-- A run that is not running, and the writes of the worker.
pub mod Execution
pub mod Always
use mathlib.Core.Option
use pyreljob.Backend.History.{Write, apply, after_task}
use pyreljob.Backend.History.Finished.{start_task-runs}
use pyreljob.Backend.Jobs.{new_run, get, increment_job_attempts, reset_job_attempts}
use pyreljob.Backend.Beat.{set_next_run_at}
use pyreljob.Backend.Runs.{
  is_run, is_running_run, complete_run, fail_run, cancel_run, set_run_ctx, set_run_progress,
  create_run,
}
use pyreljob.Backend.Tasks.{
  tasks, start_task, succeed_task, fail_task, cancel_task, compensate_task,
}
use pyreljob.Json.{Json}
use pyreljob.Models.{
  Time, Readings, Inserted, Db, RunModel, RunRecord, RunStatus, Error, Result, ok, raised,
  is_running, run_key,
}
use pyreljob.Prelude.{
  ℕ, suc, String, ◌≡◌, refl, sym, ap, subst, ◌∙◌, Bool, true, false, not, ◌&&◌, Option, none, some,
  List, [], ◌∷◌, ◌++◌, ◌==◌, arith, if◌then◌else◌, Bool-cases, Option-cases, inl, inr,
}
use pyreljob.Sql.{find, update}
use pyreljob.Sql.Rows.{find-update, find-append, key-find}
use pyreljob.Worker.Action.{Env, World}
use pyreljob.Worker.Rules.{IsWorkerWrite, Tolerates, Keeps, stepped}

-- The run with this id is not running, or is not there.
abbrev pub not_running : Option RunModel → Bool
not_running none = true
not_running (some r) = not (is_running r.status)

abbrev pub IsSettled : ℕ → Db → Type 0
IsSettled run_id db = not_running (find run_key run_id db.runs) ≡ true

-- An UPDATE that makes no row running keeps it so.
update-IsSettled :
    (run_id : ℕ) (p : RunModel → Bool) (f : RunModel → RunModel) (db : Db)
    → ((r : RunModel) → run_key (f r) ≡ run_key r)
    → ((r : RunModel) → not (is_running r.status) ≡ true → not (is_running (f r).status) ≡ true)
    → IsSettled run_id db
    → IsSettled run_id (record db { runs = update p f db.runs })
update-IsSettled run_id p f db same calm h =
    ap not_running (find-update run_key run_id p f same db.runs)
    ∙ go (find run_key run_id db.runs) h
  where
    go :
        (o : Option RunModel)
        → not_running o ≡ true
        → not_running (Option.map (λ r. if p r then f r else r) o) ≡ true
    go none e = refl
    go (some r) e = elim (Bool-cases (p r)) [ inl hit ↦ rw hit (calm r e) | inr miss ↦ rw miss e ]

-- One that stops the row, if it is running, makes it so.
update-settles :
    (run_id : ℕ) (p : RunModel → Bool) (f : RunModel → RunModel) (db : Db)
    → ((r : RunModel) → run_key (f r) ≡ run_key r)
    → ((r : RunModel) → run_key r ≡ run_id → is_running r.status ≡ true → p r ≡ true)
    → ((r : RunModel) → not (is_running (f r).status) ≡ true)
    → IsSettled run_id (record db { runs = update p f db.runs })
update-settles run_id p f db same hits calm =
    ap not_running (find-update run_key run_id p f same db.runs)
    ∙ go (find run_key run_id db.runs) refl
  where
    go :
        (o : Option RunModel)
        → find run_key run_id db.runs ≡ o
        → not_running (Option.map (λ r. if p r then f r else r) o) ≡ true
    go none e = refl
    go (some r) e = elim (Bool-cases (p r)) [
      | inl hit ↦ rw hit (calm r)
      | inr miss ↦ elim (Bool-cases (is_running r.status)) [
        | inl busy ↦ cc (miss, hits r (key-find run_key run_id db.runs r e) busy)
        | inr idle ↦ rw (miss, idle) refl
      ]
    ]

pub complete_run-settles :
    (run_id : ℕ) (result : Option Json) (now : Readings) (db : Db)
    → IsSettled run_id (complete_run run_id result now db)
unfolding complete_run
complete_run-settles run_id result now db =
    update-settles run_id _ _ db (λ r. refl) (λ r e busy. ground (arith, e, busy)) (λ r. refl)

pub fail_run-settles :
    (run_id : ℕ) (error : String) (retry_at : Option Time) (attempts : ℕ) (now : Readings) (db : Db)
    → IsSettled run_id (fail_run run_id error retry_at attempts now db)
unfolding fail_run
fail_run-settles run_id error none attempts now db =
    update-settles run_id _ _ db (λ r. refl) (λ r e busy. ground (arith, e, busy)) (λ r. refl)
fail_run-settles run_id error (some retry_at) attempts now db =
    update-settles run_id _ _ db (λ r. refl) (λ r e busy. ground (arith, e, busy)) (λ r. refl)

pub cancel_run-settles :
    (run_id : ℕ) (now : Readings) (db : Db) → IsSettled run_id (cancel_run run_id now db)
unfolding cancel_run
cancel_run-settles run_id now db =
    update-settles run_id _ _ db (λ r. refl) (λ r e busy. ground (arith, e)) (λ r. refl)

fail_run-IsSettled :
    (k run_id : ℕ) (error : String) (retry_at : Option Time) (attempts : ℕ) (now : Readings)
    (db : Db)
    → IsSettled k db
    → IsSettled k (fail_run run_id error retry_at attempts now db)
unfolding fail_run
fail_run-IsSettled k run_id error none attempts now db h =
    update-IsSettled k _ _ db (λ r. refl) (λ r e. refl) h
fail_run-IsSettled k run_id error (some retry_at) attempts now db h =
    update-IsSettled k _ _ db (λ r. refl) (λ r e. refl) h

append-IsSettled :
    (k : ℕ) (row : Inserted) (job_id : ℕ) (at : Option Time) (now : Readings) (db : Db)
    → IsSettled k db
    → IsSettled k (create_run row job_id at now db).1
unfolding create_run new_run find
append-IsSettled k row job_id at now db h =
    ap not_running (find-append run_key k db.runs (new_run row job_id at (now 0) ∷ []))
    ∙ go (find run_key k db.runs) h
  where
    go :
        (o : Option RunModel)
        → not_running o ≡ true
        → not_running (elim o [
          | none ↦ find run_key k (new_run row job_id at (now 0) ∷ [])
          | some r ↦ some r
        ])
          ≡ true
    go none e = ground arith
    go (some r) e = e

same_runs-IsSettled : (k : ℕ) (db db' : Db) → db'.runs ≡ db.runs → IsSettled k db → IsSettled k db'
same_runs-IsSettled k db db' e h = rw e h

-- No write of the worker makes a run running.
pub apply-IsSettled :
    (k : ℕ) (c : Write) (db : Db) → IsWorkerWrite c → IsSettled k db → IsSettled k (apply c db)
unfolding apply increment_job_attempts reset_job_attempts set_next_run_at complete_run cancel_run
    set_run_ctx set_run_progress succeed_task fail_task cancel_task compensate_task
apply-IsSettled k (Write.increments job_id now) db u h = h
apply-IsSettled k (Write.resets job_id now) db u h = h
apply-IsSettled k (Write.arms job_id at now) db u h = h
apply-IsSettled k (Write.completes run_id result now) db u h =
    update-IsSettled k _ _ db (λ r. refl) (λ r e. refl) h
apply-IsSettled k (Write.fails run_id error at n now) db u h =
    fail_run-IsSettled k run_id error at n now db h
apply-IsSettled k (Write.cancels_run run_id now) db u h =
    update-IsSettled k _ _ db (λ r. refl) (λ r e. refl) h
apply-IsSettled k (Write.sets_ctx run_id ctx now) db u h =
    update-IsSettled k _ _ db (λ r. refl) (λ r e. e) h
apply-IsSettled k (Write.sets_progress run_id p now) db u h =
    update-IsSettled k _ _ db (λ r. refl) (λ r e. e) h
apply-IsSettled k (Write.creates_run row job_id at now) db u h =
    append-IsSettled k row job_id at now db h
apply-IsSettled k (Write.starts_task id run_id position task_name attempts now) db u h =
    same_runs-IsSettled k db
      (after_task db (start_task id run_id position task_name attempts now db))
      (start_task-runs id run_id position task_name attempts now db) h
apply-IsSettled k (Write.succeeds_task run_id position result now) db u h = h
apply-IsSettled k (Write.fails_task run_id position error n at now) db u h = h
apply-IsSettled k (Write.cancels_task run_id position now) db u h = h
apply-IsSettled k (Write.compensates_task run_id position now) db u h = h
apply-IsSettled k (Write.enqueues row run_row now q) db u h = elim u [ ]
apply-IsSettled k (Write.schedules row now s) db u h = elim u [ ]
apply-IsSettled k (Write.cancels_job job_id now) db u h = elim u [ ]
apply-IsSettled k (Write.deletes_job job_id) db u h = elim u [ ]
apply-IsSettled k (Write.deletes_runs run_ids) db u h = elim u [ ]
apply-IsSettled k (Write.fires job_id at now) db u h = elim u [ ]
apply-IsSettled k (Write.sweeps now stale) db u h = elim u [ ]
apply-IsSettled k (Write.rearms now cutoff) db u h = elim u [ ]
apply-IsSettled k (Write.claims run_id worker_id now expiry) db u h = elim u [ ]
apply-IsSettled k (Write.renews run_id worker_id now) db u h = elim u [ ]
