-- ===== src/Worker/Unresolved.antt =====
-- A run whose job has no class with the worker.
use pyreljob.Backend.Jobs.{get}
use pyreljob.Models.{JobRecord, RunRecord, ok, is_active}
use pyreljob.Prelude.{suc, ◌≡◌, refl, true, none, some}
use pyreljob.Worker.Action.{Env, World, read, write, transact}
use pyreljob.Worker.Retries.{jobs-fail_run}
use pyreljob.Worker.Execute.{resolve, run_class, run_job, run, execute}

-- An execution whose job's name resolves to no class returns without touching a job: a maintained job
-- that is disarmed stays so.
pub execute-unresolved :
    (env : Env) (r : RunRecord) (job : JobRecord) (w : World)
    → get r.job_id (env.others w.step w.db) ≡ some job
    → is_active job.status ≡ true
    → resolve env job.job ≡ none
    → ((execute env r w).0 ≡ ok tt)
      × ((execute env r w).1.db.jobs ≡ (env.others (suc w.step) (env.others w.step w.db)).jobs)
unfolding execute run run_job run_class read write transact
execute-unresolved env r job w found active unresolved =
    rw (found, active, unresolved) (refl, jobs-fail_run r.id _ (env.clock (suc w.step)) _)
