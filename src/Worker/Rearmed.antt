-- ===== src/Worker/Rearmed.antt =====
-- What the worker's writes do to a maintained job and to its run (pyreljob/worker.py).
pub mod Execution
pub mod Scheduled
pub mod Attempted
pub mod Always
use mathlib.Core.Option
use pyreljob.Backend.Beat.{set_next_run_at}
use pyreljob.Backend.History.{Write, apply, after_task}
use pyreljob.Backend.History.Finished.{start_task-runs}
use pyreljob.Backend.Jobs.{new_run, increment_job_attempts, reset_job_attempts}
use pyreljob.Backend.Runs.{
  complete_run, fail_run, cancel_run, set_run_ctx, set_run_progress, create_run,
}
use pyreljob.Backend.Tasks.{start_task, succeed_task, fail_task, cancel_task, compensate_task}
use pyreljob.Json.{Json}
use pyreljob.Models.{
  Time, Readings, Inserted, Db, JobModel, RunModel, RunStatus, is_complete, is_failed, is_scheduled,
  run_key, job_key,
}
use pyreljob.Prelude.{
  Float, ℕ, String, ◌≡◌, refl, sym, ap, subst, ◌∙◌, Bool, true, false, not, ◌&&◌, ◌⊎◌, Option, none,
  some, List, [], ◌∷◌, ◌++◌, ◌==◌, arith, if◌then◌else◌, Bool-cases, inl, inr,
}
use pyreljob.Sql.{find, update}
use pyreljob.Sql.Rows.{find-update, find-append, key-find}
use pyreljob.Worker.Rules.{IsWorkerWrite}

abbrev pub is_there : Option RunModel → Bool
is_there none = false
is_there (some r) = true

abbrev pub is_maintained : Option JobModel → Bool
is_maintained none = false
is_maintained (some j) = is_scheduled j.source

-- Neither succeeded nor failed.
abbrev pub is_unfinished : Option RunModel → Bool
is_unfinished none = true
is_unfinished (some r) = not (is_complete r.status) && not (is_failed r.status)

abbrev pub has_time : Option Time → Bool
has_time none = false
has_time (some t) = true

abbrev pub is_armed : Option JobModel → Bool
is_armed none = false
is_armed (some j) = has_time j.next_run_at

abbrev pub IsPresent : ℕ → ℕ → Db → Type 0
IsPresent run_id job_id db =
    (is_there (find run_key run_id db.runs) ≡ true)
    × (is_maintained (find job_key job_id db.jobs) ≡ true)

abbrev pub IsUnfinished : ℕ → Db → Type 0
IsUnfinished run_id db = is_unfinished (find run_key run_id db.runs) ≡ true

abbrev pub IsArmed : ℕ → Db → Type 0
IsArmed job_id db = is_armed (find job_key job_id db.jobs) ≡ true

module _ {A : Type 0} (key : A → ℕ) (k : ℕ) (q : Option A → Bool) where
  update-keeps :
      (p : A → Bool) (f : A → A) (xs : List A)
      → ((x : A) → key (f x) ≡ key x)
      → ((x : A) → q (some x) ≡ true → q (some (f x)) ≡ true)
      → q (find key k xs) ≡ true
      → q (find key k (update p f xs)) ≡ true
  update-keeps p f xs same calm h = ap q (find-update key k p f same xs) ∙ go (find key k xs) h
    where
      go : (o : Option A) → q o ≡ true → q (Option.map (λ x. if p x then f x else x) o) ≡ true
      go none e = e
      go (some x) e = elim (Bool-cases (p x)) [ inl hit ↦ rw hit (calm x e) | inr miss ↦ rw miss e ]

  append-keeps :
      (xs ys : List A)
      → q none ≡ false
      → q (find key k xs) ≡ true
      → q (find key k (xs ++ ys)) ≡ true
  append-keeps xs ys empty h = ap q (find-append key k xs ys) ∙ go (find key k xs) h
    where
      go :
          (o : Option A) → q o ≡ true → q (elim o [ none ↦ find key k ys | some x ↦ some x ]) ≡ true
      go none e = absurd (ground (arith, empty, e))
      go (some x) e = e

fail_run-IsPresent :
    (k j run_id : ℕ) (error : String) (at : Option Time) (n : ℕ) (now : Readings) (db : Db)
    → IsPresent k j db
    → IsPresent k j (fail_run run_id error at n now db)
unfolding fail_run
fail_run-IsPresent k j run_id error none n now db h =
    (update-keeps run_key k is_there _ _ db.runs (λ r. refl) (λ r e. refl) h.0, h.1)
fail_run-IsPresent k j run_id error (some at) n now db h =
    (update-keeps run_key k is_there _ _ db.runs (λ r. refl) (λ r e. refl) h.0, h.1)

start_task-jobs :
    (id run_id position : ℕ) (task_name : String) (attempts : ℕ) (now : Readings) (db : Db)
    → (after_task db (start_task id run_id position task_name attempts now db)).jobs ≡ db.jobs
unfolding start_task
start_task-jobs id run_id position task_name attempts now db = ground arith

-- No write of the worker removes the run or the job, or makes the job an on-demand one.
pub apply-IsPresent :
    (k j : ℕ) (c : Write) (db : Db)
    → IsWorkerWrite c
    → IsPresent k j db
    → IsPresent k j (apply c db)
unfolding apply increment_job_attempts reset_job_attempts set_next_run_at complete_run cancel_run
    set_run_ctx set_run_progress succeed_task fail_task cancel_task compensate_task create_run
    new_run
apply-IsPresent k j (Write.increments job_id now) db u h =
    (h.0, update-keeps job_key j is_maintained _ _ db.jobs (λ r. refl) (λ r e. e) h.1)
apply-IsPresent k j (Write.resets job_id now) db u h =
    (h.0, update-keeps job_key j is_maintained _ _ db.jobs (λ r. refl) (λ r e. e) h.1)
apply-IsPresent k j (Write.arms job_id at now) db u h =
    (h.0, update-keeps job_key j is_maintained _ _ db.jobs (λ r. refl) (λ r e. e) h.1)
apply-IsPresent k j (Write.completes run_id result now) db u h =
    (update-keeps run_key k is_there _ _ db.runs (λ r. refl) (λ r e. refl) h.0, h.1)
apply-IsPresent k j (Write.fails run_id error at n now) db u h =
    fail_run-IsPresent k j run_id error at n now db h
apply-IsPresent k j (Write.cancels_run run_id now) db u h =
    (update-keeps run_key k is_there _ _ db.runs (λ r. refl) (λ r e. refl) h.0, h.1)
apply-IsPresent k j (Write.sets_ctx run_id ctx now) db u h =
    (update-keeps run_key k is_there _ _ db.runs (λ r. refl) (λ r e. refl) h.0, h.1)
apply-IsPresent k j (Write.sets_progress run_id p now) db u h =
    (update-keeps run_key k is_there _ _ db.runs (λ r. refl) (λ r e. refl) h.0, h.1)
apply-IsPresent k j (Write.creates_run row job_id at now) db u h =
    (append-keeps run_key k is_there db.runs _ refl h.0, h.1)
apply-IsPresent k j (Write.starts_task id run_id position task_name attempts now) db u h =
    rw
      (
        start_task-runs id run_id position task_name attempts now db,
        start_task-jobs id run_id position task_name attempts now db,
      )
      h
apply-IsPresent k j (Write.succeeds_task run_id position result now) db u h = h
apply-IsPresent k j (Write.fails_task run_id position error n at now) db u h = h
apply-IsPresent k j (Write.cancels_task run_id position now) db u h = h
apply-IsPresent k j (Write.compensates_task run_id position now) db u h = h
apply-IsPresent k j (Write.enqueues row run_row now q) db u h = elim u [ ]
apply-IsPresent k j (Write.schedules row now s) db u h = elim u [ ]
apply-IsPresent k j (Write.cancels_job job_id now) db u h = elim u [ ]
apply-IsPresent k j (Write.deletes_job job_id) db u h = elim u [ ]
apply-IsPresent k j (Write.deletes_runs run_ids) db u h = elim u [ ]
apply-IsPresent k j (Write.fires job_id at now) db u h = elim u [ ]
apply-IsPresent k j (Write.sweeps now stale) db u h = elim u [ ]
apply-IsPresent k j (Write.rearms now cutoff) db u h = elim u [ ]
apply-IsPresent k j (Write.claims run_id worker_id now expiry) db u h = elim u [ ]
apply-IsPresent k j (Write.renews run_id worker_id now) db u h = elim u [ ]

pub set_next_run_at-IsArmed :
    (j : ℕ) (at : Time) (now : Readings) (db : Db)
    → is_maintained (find job_key j db.jobs) ≡ true
    → IsArmed j (set_next_run_at j (some at) now db)
unfolding set_next_run_at
set_next_run_at-IsArmed j at now db h =
    ap is_armed (find-update job_key j (λ i. i.id == j) _ (λ i. refl) db.jobs)
    ∙ go (find job_key j db.jobs) refl h
  where
    go :
        (o : Option JobModel)
        → find job_key j db.jobs ≡ o
        → is_maintained o ≡ true
        → is_armed (
            Option.map
              (λ i.
                if i.id == j
                then record i { next_run_at = some at; updated_at = some (now 0) }
                else i)
              o)
          ≡ true
    go none e m = absurd (ground (arith, m))
    go (some i) e m = ground (arith, key-find job_key j db.jobs i e)

-- The writes that do not finish a run.
abbrev pub IsProgress : Write → Type 0
IsProgress (Write.fails _ _ (some _) _ _) = Unit
IsProgress (Write.cancels_run _ _) = Unit
IsProgress (Write.sets_ctx _ _ _) = Unit
IsProgress (Write.sets_progress _ _ _) = Unit
IsProgress (Write.starts_task _ _ _ _ _ _) = Unit
IsProgress (Write.succeeds_task _ _ _ _) = Unit
IsProgress (Write.fails_task _ _ _ _ _ _) = Unit
IsProgress (Write.cancels_task _ _ _) = Unit
IsProgress _ = ⊥

pub apply-IsUnfinished :
    (k : ℕ) (c : Write) (db : Db) → IsProgress c → IsUnfinished k db → IsUnfinished k (apply c db)
unfolding apply fail_run cancel_run set_run_ctx set_run_progress succeed_task fail_task cancel_task
apply-IsUnfinished k (Write.fails run_id error (some at) n now) db u h =
    update-keeps run_key k is_unfinished _ _ db.runs (λ r. refl) (λ r e. refl) h
apply-IsUnfinished k (Write.fails run_id error none n now) db u h = elim u [ ]
apply-IsUnfinished k (Write.cancels_run run_id now) db u h =
    update-keeps run_key k is_unfinished _ _ db.runs (λ r. refl) (λ r e. refl) h
apply-IsUnfinished k (Write.sets_ctx run_id ctx now) db u h =
    update-keeps run_key k is_unfinished _ _ db.runs (λ r. refl) (λ r e. e) h
apply-IsUnfinished k (Write.sets_progress run_id p now) db u h =
    update-keeps run_key k is_unfinished _ _ db.runs (λ r. refl) (λ r e. e) h
apply-IsUnfinished k (Write.starts_task id run_id position task_name attempts now) db u h =
    rw (start_task-runs id run_id position task_name attempts now db) h
apply-IsUnfinished k (Write.succeeds_task run_id position result now) db u h = h
apply-IsUnfinished k (Write.fails_task run_id position error n at now) db u h = h
apply-IsUnfinished k (Write.cancels_task run_id position now) db u h = h
apply-IsUnfinished k (Write.increments job_id now) db u h = elim u [ ]
apply-IsUnfinished k (Write.resets job_id now) db u h = elim u [ ]
apply-IsUnfinished k (Write.arms job_id at now) db u h = elim u [ ]
apply-IsUnfinished k (Write.completes run_id result now) db u h = elim u [ ]
apply-IsUnfinished k (Write.creates_run row job_id at now) db u h = elim u [ ]
apply-IsUnfinished k (Write.compensates_task run_id position now) db u h = elim u [ ]
apply-IsUnfinished k (Write.enqueues row run_row now q) db u h = elim u [ ]
apply-IsUnfinished k (Write.schedules row now s) db u h = elim u [ ]
apply-IsUnfinished k (Write.cancels_job job_id now) db u h = elim u [ ]
apply-IsUnfinished k (Write.deletes_job job_id) db u h = elim u [ ]
apply-IsUnfinished k (Write.deletes_runs run_ids) db u h = elim u [ ]
apply-IsUnfinished k (Write.fires job_id at now) db u h = elim u [ ]
apply-IsUnfinished k (Write.sweeps now stale) db u h = elim u [ ]
apply-IsUnfinished k (Write.rearms now cutoff) db u h = elim u [ ]
apply-IsUnfinished k (Write.claims run_id worker_id now expiry) db u h = elim u [ ]
apply-IsUnfinished k (Write.renews run_id worker_id now) db u h = elim u [ ]
