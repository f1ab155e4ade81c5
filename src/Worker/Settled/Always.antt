-- ===== src/Worker/Settled/Always.antt =====
-- _execute and _run, and the status of the run afterwards.
use pyreljob.Backend.Jobs.{get}
use pyreljob.Backend.Tasks.{tasks}
use pyreljob.Models.{Db, JobRecord, RunRecord, Result, ok, raised, is_active, is_scheduled}
use pyreljob.Prelude.{ℕ, ◌≡◌, refl, not, Option, none, some, Bool-cases, inl, inr}
use pyreljob.Task.{JobClass}
use pyreljob.Worker.Action.{Env, World, lift, write, transact, read, recover}
use pyreljob.Worker.Execute.{
  resolve, on_unhandled, run_class, run_job, run, execute, build_ctx, start_active, stop_active,
}
use Prim.Native.String.{◌++◌}
use pyreljob.Worker.Failure.{rearm_now, reschedule_on_error}
use pyreljob.Worker.Frame.{reschedule_on_error-Keeps}
use pyreljob.Worker.Rules.{Ends, Ends-Keeps, Ends-any, Ends-if, Ends-bind, Ends-finally}
use pyreljob.Worker.Settled.{IsSettled}
use pyreljob.Worker.Settled.Execution.{
  Anything, Settled, Settled-Tolerates, fail_run-ends, cancel_run-ends, resume-ends,
}

module _ (env : Env) (r : RunRecord)
    (quiet : (k : ℕ) (db : Db) → IsSettled r.id db → IsSettled r.id (env.others k db)) where
  run_class-ends :
      (job : JobRecord) (cls : Option JobClass)
      → Ends Anything (run_class env r job cls) (λ u. Settled env r.id quiet)
  unfolding run_class
  run_class-ends job none =
      fail_run-ends env r.id quiet ("No class registered for " ++ env.repr job.job) none 1
  run_class-ends job (some cls) =
      Ends-bind _ _ (Ends-any (lift (build_ctx env.read_int r job))) (λ ctx.
        Ends-bind _ _ (Ends-any (read env (tasks r.id))) (λ records.
          Ends-finally _ (stop_active r.id) (λ u w h. h)
            (Ends-bind _ _ (Ends-any (start_active r.id r.job_id))
              (λ u. resume-ends env r.id quiet cls job records ctx))))

  run_job-ends :
      (job : Option JobRecord) → Ends Anything (run_job env r job) (λ u. Settled env r.id quiet)
  unfolding run_job
  run_job-ends none = fail_run-ends env r.id quiet "job no longer exists" none 1
  run_job-ends (some job) =
      Ends-if (not (is_active job.status)) _ _ (cancel_run-ends env r.id quiet)
        (run_class-ends job (resolve env job.job))

  run-ends : Ends Anything (run env r) (λ u. Settled env r.id quiet)
  unfolding run
  run-ends = Ends-bind _ _ (Ends-any (read env (get r.job_id))) run_job-ends

  rearm_now-returns : (job : Option JobRecord) (w : World) → (rearm_now env job w).0 ≡ ok tt
  unfolding write transact
  rearm_now-returns none w = refl
  rearm_now-returns (some job) w = elim (Bool-cases (is_scheduled job.source)) [
    | inl e ↦ rw e refl
    | inr e ↦ rw e refl
  ]

  on_unhandled-ends : Ends Anything (on_unhandled env r) (λ u. Settled env r.id quiet)
  unfolding on_unhandled
  on_unhandled-ends = Ends-bind _ _ (fail_run-ends env r.id quiet "unhandled error" none 1) (λ u.
      Ends-Keeps _ (
        reschedule_on_error-Keeps env (Settled env r.id quiet) (Settled-Tolerates env r.id quiet)
          r))

  on_unhandled-returns : (w : World) → (on_unhandled env r w).0 ≡ ok tt
  unfolding on_unhandled reschedule_on_error read write transact
  on_unhandled-returns w = rearm_now-returns _ _

  -- Whatever an execution meets (the job gone or cancelled, no class for it, a stored context that
  -- cannot be read, a task that returns, fails, is cancelled, is out of attempts, an exception from
  -- user code), it returns, and its run is no longer running; if no other client makes the run
  -- running while it is not.
  pub execute-settles :
      (w : World) → ((execute env r w).0 ≡ ok tt) × IsSettled r.id (execute env r w).1.db
  unfolding execute
  execute-settles w = go (run env r w).0 (run env r w).1 (run-ends.at w tt tt)
    where
      go :
          (x : Result (Unit {0})) (w' : World)
          → (x ≡ ok tt → IsSettled r.id w'.db)
          → ((recover x (on_unhandled env r) w').0 ≡ ok tt)
            × IsSettled r.id (recover x (on_unhandled env r) w').1.db
      go (ok u) w' settled = (refl, settled refl)
      go (raised x) w' settled =
          (on_unhandled-returns w', on_unhandled-ends.at w' tt tt (on_unhandled-returns w'))
