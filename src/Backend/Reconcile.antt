-- ===== src/Backend/Reconcile.antt =====
-- pyreljob/backends/sqlalchemy.py: reconcile_abandoned and _rearm_orphaned_jobs.
pub mod Batch
pub mod Total
use pyreljob.Backend.Beat.{run_in_flight}
use pyreljob.Effects.{Others}
use pyreljob.Models.{
  Time, Readings, seconds, Db, JobModel, RunModel, RunStatus, is_active, is_ready, is_scheduled,
}
use pyreljob.Prelude.{
  ℕ, zero, suc, ◌+◌, ◌-◌, String, Bool, true, false, not, ◌&&◌, ◌||◌, Option, none, some, List, [],
  ◌∷◌, ◌==◌, ltb, if◌then◌else◌, map, take, length,
}
use pyreljob.Sql.{select, update, rowcount, order_by, is_in, is_null, null_le, null_lt}

-- base.py
pub record Reconciled : Type 0 where
  pub runs : ℕ
  pub jobs : ℕ

abbrev pub reconcile_batch : ℕ
reconcile_batch = 500

abbrev pub abandoned_error : String
abandoned_error = "abandoned: no worker executed this run"

abbrev pub before_progress : Option Time → RunModel → Bool
before_progress none r = true
before_progress (some t) r = ltb r.created_at t

abbrev pub is_stale : Time → Option Time → RunModel → Bool
is_stale cutoff progress_cutoff r =
    is_ready r.status
    && ltb r.created_at cutoff
    && (is_null r.scheduled_at || null_le r.scheduled_at cutoff)
    && before_progress progress_cutoff r

abbrev pub by_run_id : RunModel → RunModel → Bool
by_run_id r s = ltb r.id s.id

unfoldable pub abandoned : Time → RunModel → RunModel
abandoned now r = record r {
  status = RunStatus.failed;
  error = some abandoned_error;
  finished_at = some now;
  updated_at = some now;
}

unfoldable pub rearmed : Time → JobModel → JobModel
rearmed now j = record j { next_run_at = some now; updated_at = some now }

abbrev pub is_disarmed : JobModel → Bool
is_disarmed j = is_scheduled j.source && is_active j.status && is_null j.next_run_at

abbrev pub failed_run : List RunModel → RunModel → Bool
failed_run stale r = is_in r.id (map (λ s. s.id) stale) && is_ready r.status

abbrev pub revived_job : List RunModel → JobModel → Bool
revived_job stale j = is_in j.id (map (λ s. s.job_id) stale) && is_disarmed j

-- The two updates of one batch.
unfoldable pub sweep_batch : Time → List RunModel → Db → Db
unfolding abandoned rearmed
sweep_batch now stale db = record db {
  runs = update (failed_run stale) (abandoned now) db.runs;
  jobs = update (revived_job stale) (rearmed now) db.jobs;
}

-- The SELECT of one batch, of at most `batch` rows.
unfoldable pub stale_runs : ℕ → Time → Option Time → Db → List RunModel
stale_runs batch cutoff progress_cutoff db =
    take batch (order_by by_run_id (select (is_stale cutoff progress_cutoff) db.runs))

pub record Sweep : Type 0 where
  pub round : ℕ
  pub total : Reconciled
  pub db : Db

-- `while True`, a transaction a round; `none` if the fuel runs out.
unfoldable pub sweep : ℕ → Others → ℕ → Time → Time → Option Time → Sweep → Option Sweep
unfolding sweep_batch stale_runs
sweep zero others batch now cutoff progress_cutoff s = none
sweep (suc fuel) others batch now cutoff progress_cutoff s =
    let db = others s.round s.db in
    let stale = stale_runs batch cutoff progress_cutoff db in
    let runs = rowcount (failed_run stale) db.runs in
    let jobs = rowcount (revived_job stale) db.jobs in
    let next : Sweep = record {
      round = suc s.round;
      total = record { runs = s.total.runs + runs; jobs = s.total.jobs + jobs };
      db = sweep_batch now stale db;
    } in
    let again = sweep fuel others batch now cutoff progress_cutoff next in
    let empty : Option Sweep = some (record s { round = suc s.round; db = db }) in
    if length stale == 0
    then empty
    else if ltb (length stale) batch || not (not (runs == 0) || not (jobs == 0))
    then some next
    else again

abbrev pub is_orphaned : Time → List RunModel → JobModel → Bool
is_orphaned cutoff runs j =
    is_disarmed j && null_lt j.updated_at cutoff && not (run_in_flight runs j)

unfoldable pub rearm_orphaned_jobs : Time → Time → Db → ℕ × Db
unfolding rearmed
rearm_orphaned_jobs now cutoff db = (
  rowcount (is_orphaned cutoff db.runs) db.jobs,
  record db { jobs = update (is_orphaned cutoff db.runs) (rearmed now) db.jobs },
)

abbrev pub finish_sweep : Others → Time → Time → Sweep → Reconciled × Db
unfolding rearm_orphaned_jobs
finish_sweep others now cutoff s =
    let (jobs, db) = rearm_orphaned_jobs now cutoff (others s.round s.db) in
    (record { runs = s.total.runs; jobs = s.total.jobs + jobs }, db)

abbrev pub sweep_done : Others → Time → Time → Option Sweep → Option (Reconciled × Db)
unfolding rearm_orphaned_jobs
sweep_done others now cutoff none = none
sweep_done others now cutoff (some s) = some (finish_sweep others now cutoff s)

-- `last_claim_at` is the attribute of the backend object.
unfoldable pub reconcile_abandoned :
    ℕ → Others → ℕ → Option Time → Readings → Db → Option (Reconciled × Db)
unfolding sweep rearm_orphaned_jobs
reconcile_abandoned fuel others grace_seconds last_claim_at now db =
    let cutoff : Time = now 0 - seconds grace_seconds in
    sweep_done others (now 0) cutoff (
      sweep fuel others reconcile_batch (now 0) cutoff last_claim_at
        (record { round = 0; total = record { runs = 0; jobs = 0 }; db = db }))
