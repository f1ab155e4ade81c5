-- ===== src/Worker/Settled/Execution.antt =====
-- The ways in which the tasks of an execution end, and the status of the run after each.
use pyreljob.Backend.Runs.{fail_run, cancel_run, complete_run}
use pyreljob.Backend.Tasks.{start_task, fail_task, cancel_task}
use pyreljob.Json.{Json}
use pyreljob.Models.{Time, Db, JobRecord, TaskRecord}
use pyreljob.Prelude.{ℕ, suc, ◌+◌, String, Option, none, some, List, [], ◌∷◌, ◌==◌, leb}
use pyreljob.Task.{TaskContext, TaskClass, JobClass, Outcome}
use pyreljob.Worker.Action.{Env, World, Action, current_step, note_run, write, write_or_raise}
use pyreljob.Worker.Attempt.{
  Verdict, save_ctx, report, task_budget, run_task, stop_task, give_up, retry_later, record_result,
  conclude, attempts_of,
}
use pyreljob.Worker.Execute.{after_attempt, run_tasks, finish, finish_failed, resume, record_at}
use pyreljob.Worker.Failure.{compensate, finalize_failed, reschedule}
use pyreljob.Worker.Frame.{retry_whole_run-Keeps, reschedule-Keeps, reset-Keeps}
use pyreljob.Worker.Rules.{
  Tolerates, Keeps-pure, Keeps-if, Ends, Ends-Keeps, Ends-pure, Ends-any, Ends-if, Ends-bind,
}
use pyreljob.Worker.Settled.{
  IsSettled, apply-IsSettled, complete_run-settles, fail_run-settles, cancel_run-settles,
}

abbrev pub Anything : World → Type 0
Anything w = Unit

-- The other clients do not claim the run while it is not running.
module _ (env : Env) (run_id : ℕ)
    (quiet : (k : ℕ) (db : Db) → IsSettled run_id db → IsSettled run_id (env.others k db)) where
  abbrev pub Settled : World → Type 0
  Settled w = IsSettled run_id w.db

  pub Settled-Tolerates : Tolerates env Settled
  Settled-Tolerates = record {
    reads = λ w h. quiet w.step w.db h;
    writes = λ c w u h. apply-IsSettled run_id c (env.others w.step w.db) u (quiet w.step w.db h);
  }

  pub fail_run-ends :
      (error : String) (retry_at : Option Time) (attempts : ℕ)
      → Ends Anything
          (write env (λ k. fail_run run_id error retry_at attempts (env.clock k)))
          (λ u. Settled)
  unfolding write
  fail_run-ends error retry_at attempts = record {
    at = λ w h a e.
        fail_run-settles run_id error retry_at attempts (env.clock w.step) (env.others w.step w.db);
  }

  pub cancel_run-ends :
      Ends Anything (write env (λ k. cancel_run run_id (env.clock k))) (λ u. Settled)
  unfolding write
  cancel_run-ends = record {
    at = λ w h a e. cancel_run-settles run_id (env.clock w.step) (env.others w.step w.db);
  }

  complete_run-ends :
      (result : Option Json)
      → Ends Anything (write env (λ k. complete_run run_id result (env.clock k))) (λ u. Settled)
  unfolding write
  complete_run-ends result = record {
    at = λ w h a e. complete_run-settles run_id result (env.clock w.step) (env.others w.step w.db);
  }

  finalize_failed-ends :
      (job : JobRecord) (error : String)
      → Ends Anything (finalize_failed env job run_id error) (λ u. Settled)
  unfolding finalize_failed
  finalize_failed-ends job error = Ends-bind _ _ (fail_run-ends error none 1) (λ u. Ends-Keeps _ (
      Keeps-if (job.retries == 0) _ _ (Keeps-pure tt)
        (retry_whole_run-Keeps env Settled Settled-Tolerates job)))

  reschedule-ends :
      (cls : JobClass) (job : JobRecord) (ctx : TaskContext)
      → Ends Settled (reschedule env cls job run_id ctx) (λ u. Settled)
  reschedule-ends cls job ctx =
      Ends-Keeps _ (reschedule-Keeps env Settled Settled-Tolerates cls job run_id ctx)

  stop_task-ends : (position : ℕ) → Ends Anything (stop_task env run_id position) (λ u. Settled)
  unfolding stop_task
  stop_task-ends position =
      Ends-bind _ _ (Ends-any (write env (λ k. cancel_task run_id position (env.clock k))))
        (λ u. cancel_run-ends)

  give_up-ends :
      (cls : JobClass) (job : JobRecord) (ctx : TaskContext) (position attempts : ℕ)
      (error : String)
      → Ends Anything (give_up env run_id cls job ctx position attempts error) (λ ctx'. Settled)
  unfolding give_up
  give_up-ends cls job ctx position attempts error =
      Ends-bind _ _ (Ends-any (save_ctx env run_id ctx)) (λ u.
        Ends-bind _ _
          (Ends-any (write env (λ k. fail_task run_id position error attempts none (env.clock k))))
          (λ v. Ends-bind _ _ (Ends-any (compensate env run_id cls ctx)) (λ ctx'.
            Ends-bind _ _ (finalize_failed-ends job error) (λ x. Ends-pure ctx' (λ w h. h)))))

  retry_later-ends :
      (ctx : TaskContext) (position attempts : ℕ) (error : String)
      → Ends Anything (retry_later env run_id ctx position attempts error) (λ u. Settled)
  unfolding retry_later
  retry_later-ends ctx position attempts error = Ends-bind _ _ (Ends-any current_step) (λ step.
      Ends-bind _ _ (Ends-any (save_ctx env run_id ctx)) (λ u.
        Ends-bind _ _
          (Ends-any (
            write env (λ k.
              fail_task run_id position error attempts
                (some (env.now step + env.backoff attempts step)) (env.clock k))))
          (λ v. fail_run-ends error (some (env.now step + env.backoff attempts step)) attempts)))

  -- Only a task that succeeded leaves the run as it is.
  abbrev SettledUnless : Verdict × TaskContext → World → Type 0
  SettledUnless (Verdict.succeeded, ctx) w = Unit
  SettledUnless (_, ctx) w = Settled w

  conclude-ends :
      (cls : JobClass) (job : JobRecord) (position : ℕ) (task : TaskClass) (attempts : ℕ)
      (ctx : TaskContext) (o : Outcome)
      → Ends Anything (conclude env run_id cls job position task attempts ctx o) SettledUnless
  unfolding conclude
  conclude-ends cls job position task attempts ctx Outcome.cancelled =
      Ends-bind _ _ (stop_task-ends position) (λ u. Ends-pure (Verdict.stopped, ctx) (λ w h. h))
  conclude-ends cls job position task attempts ctx (Outcome.failed error) =
      Ends-if (leb (task_budget task job) attempts) _ _
        (Ends-bind _ _ (give_up-ends cls job ctx position attempts error)
          (λ ctx'. Ends-pure (Verdict.gave_up, ctx') (λ w h. h)))
        (Ends-bind _ _ (retry_later-ends ctx position attempts error)
          (λ u. Ends-pure (Verdict.retrying, ctx) (λ w h. h)))
  conclude-ends cls job position task attempts ctx (Outcome.returned result) =
      Ends-bind _ _ (Ends-any (record_result env run_id task ctx position result))
        (λ ctx'. Ends-pure (Verdict.succeeded, ctx') (λ w h. tt))

  run_task-ends :
      (cls : JobClass) (job : JobRecord) (ctx : TaskContext) (position : ℕ) (task : TaskClass)
      (existing : Option TaskRecord)
      → Ends Anything (run_task env run_id cls job ctx position task existing) SettledUnless
  unfolding run_task
  run_task-ends cls job ctx position task existing =
      Ends-bind _ _
        (Ends-any (
          write_or_raise env (λ k.
            start_task (env.inserted k).id run_id position task.task_name (attempts_of existing + 1)
              (env.clock k))))
        (λ u. Ends-bind _ _ (Ends-any current_step) (λ step.
          Ends-bind _ _ (Ends-any (note_run position)) (λ v.
            Ends-bind _ _ (Ends-any (report env run_id ctx (task.run step ctx).reports)) (λ x.
              conclude-ends cls job position task (attempts_of existing + 1) (task.run step ctx).ctx
                (task.run step ctx).outcome))))

  finish-ends :
      (cls : JobClass) (job : JobRecord) (ctx : TaskContext)
      → Ends Anything (finish env run_id cls job ctx) (λ u. Settled)
  unfolding finish
  finish-ends cls job ctx = Ends-bind _ _ (complete_run-ends (some ctx.results)) (λ u.
      Ends-bind _ _ (Ends-Keeps _ (reset-Keeps env Settled Settled-Tolerates job.id))
        (λ v. reschedule-ends cls job ctx))

  after_attempt-ends :
      (cls : JobClass) (job : JobRecord) (rest : TaskContext → Action (Unit {0}))
      → ((ctx : TaskContext) → Ends Anything (rest ctx) (λ u. Settled))
      → (v : Verdict) (ctx : TaskContext)
      → Ends
          (SettledUnless (v, ctx))
          (after_attempt env run_id cls job rest (v, ctx))
          (λ u. Settled)
  unfolding after_attempt
  after_attempt-ends cls job rest er Verdict.succeeded ctx = er ctx
  after_attempt-ends cls job rest er Verdict.stopped ctx = Ends-pure tt (λ w h. h)
  after_attempt-ends cls job rest er Verdict.retrying ctx = Ends-pure tt (λ w h. h)
  after_attempt-ends cls job rest er Verdict.gave_up ctx = reschedule-ends cls job ctx

  run_tasks-ends :
      (cls : JobClass) (job : JobRecord) (records : List TaskRecord) (position : ℕ)
      (rest : List TaskClass) (ctx : TaskContext)
      → Ends Anything (run_tasks env run_id cls job records position rest ctx) (λ u. Settled)
  unfolding run_tasks
  run_tasks-ends cls job records position [] ctx = finish-ends cls job ctx
  run_tasks-ends cls job records position (task ∷ rest) ctx =
      Ends-bind _ _ (run_task-ends cls job ctx position task (record_at position records))
        (λ (v : Verdict × TaskContext).
          after_attempt-ends cls job _
            (λ ctx'. run_tasks-ends cls job records (suc position) rest ctx') v.0 v.1)

  finish_failed-ends :
      (cls : JobClass) (job : JobRecord) (ctx : TaskContext) (error : String)
      → Ends Anything (finish_failed env run_id cls job ctx error) (λ u. Settled)
  unfolding finish_failed
  finish_failed-ends cls job ctx error = Ends-bind _ _ (Ends-any (save_ctx env run_id ctx)) (λ u.
      Ends-bind _ _ (Ends-any (compensate env run_id cls ctx)) (λ ctx'.
        Ends-bind _ _ (finalize_failed-ends job error) (λ v. reschedule-ends cls job ctx')))

  pub resume-ends :
      (cls : JobClass) (job : JobRecord) (records : List TaskRecord) (ctx : TaskContext)
      → Ends Anything (resume env run_id cls job records ctx) (λ u. Settled)
  unfolding resume
  resume-ends cls job records ctx =
      Ends-if _ _ _ (finish_failed-ends cls job ctx _) (run_tasks-ends cls job records _ _ ctx)
