-- ===== src/Worker/Frame.antt =====
-- Whatever holds after every step of a worker that held before it, holds after each part of an
-- execution: here what the worker does when a run is over.
pub mod Attempt
pub mod Resumed
use mathlib.Core.List.{reverse}
use pyreljob.Backend.Beat.{set_next_run_at}
use pyreljob.Backend.History.{Write, apply}
use pyreljob.Backend.Jobs.{get, increment_job_attempts, reset_job_attempts}
use pyreljob.Backend.Runs.{
  fail_run, get_run, create_run, cancel_run, complete_run, set_run_ctx, set_run_progress,
}
use pyreljob.Backend.Tasks.{
  tasks, start_task, succeed_task, fail_task, cancel_task, compensate_task,
}
use pyreljob.Json.{Json}
use pyreljob.Json.Values.{set_item}
use pyreljob.Models.{
  Time, JobRecord, RunRecord, TaskRecord, Result, ok, raised, is_scheduled, is_succeeded,
}
use pyreljob.Prelude.{
  ℕ, ◌+◌, String, ◌≡◌, refl, Bool, true, false, not, Option, none, some, List, [], ◌∷◌, ◌==◌, leb,
  Float, if◌then◌else◌,
}
use pyreljob.Task.{
  TaskContext, TaskClass, JobClass, Outcome, as_dict, set_progress, task_for_record,
}
use pyreljob.Worker.Action.{
  Env, World, Action, pure, lift, continue, ◌>>=◌, ◌>>◌, current_step, note_undo, read, write,
  transact, write_or_raise,
}
use pyreljob.Worker.Attempt.{
  Verdict, task_budget, report, store_progress, save_ctx, stop_task, give_up, retry_later,
  record_result, conclude,
}
use pyreljob.Worker.Failure.{
  compensate_one, compensate_all, compensate, retry_whole_run, finalize_failed, rearm, reschedule,
  rearm_now, reschedule_on_error, args_of,
}
use pyreljob.Worker.Execute.{finish, finish_failed}
use pyreljob.Worker.Rules.{
  Tolerates, Keeps, Keeps-pure, Keeps-lift, Keeps-if, Keeps-bind, Keeps-step, Keeps-read,
  Keeps-transact, Keeps-write, Keeps-write_or_raise,
}

module _ (env : Env) (P : World → Type 0) (t : Tolerates env P) where
  pub fail_run-Keeps :
      (run_id : ℕ) (error : String) (retry_at : Option Time) (attempts : ℕ)
      → Keeps P (write env (λ k. fail_run run_id error retry_at attempts (env.clock k)))
  unfolding apply
  fail_run-Keeps run_id error retry_at attempts =
      Keeps-write t _ (λ k. Write.fails run_id error retry_at attempts (env.clock k)) (λ k. tt)
        (λ k db. refl)

  arm-Keeps :
      (job_id : ℕ) (next_run_at : Option Time)
      → Keeps P (write env (λ k. set_next_run_at job_id next_run_at (env.clock k)))
  unfolding apply
  arm-Keeps job_id next_run_at =
      Keeps-write t _ (λ k. Write.arms job_id next_run_at (env.clock k)) (λ k. tt) (λ k db. refl)

  pub save_ctx-Keeps : (run_id : ℕ) (ctx : TaskContext) → Keeps P (save_ctx env run_id ctx)
  unfolding apply as_dict write
  save_ctx-Keeps run_id ctx =
      Keeps-write t _ (λ k. Write.sets_ctx run_id (some (Json.obj (as_dict ctx))) (env.clock k))
        (λ k. tt) (λ k db. refl)

  pub fail_task-Keeps :
      (run_id position : ℕ) (error : String) (attempts : ℕ) (retry_at : Option Time)
      → Keeps P (write env (λ k. fail_task run_id position error attempts retry_at (env.clock k)))
  unfolding apply
  fail_task-Keeps run_id position error attempts retry_at =
      Keeps-write t _ (λ k. Write.fails_task run_id position error attempts retry_at (env.clock k))
        (λ k. tt) (λ k db. refl)

  increment-Keeps :
      (job_id : ℕ) → Keeps P (transact env (λ k. increment_job_attempts job_id (env.clock k)))
  unfolding apply
  increment-Keeps job_id =
      Keeps-transact t (λ k. increment_job_attempts job_id (env.clock k))
        (λ k. Write.increments job_id (env.clock k)) (λ k. tt) (λ k db. refl)

  create_run-Keeps :
      (job_id : ℕ) (at : Option Time)
      → Keeps P (transact env (λ k. create_run (env.inserted k) job_id at (env.clock k)))
  unfolding apply
  create_run-Keeps job_id at =
      Keeps-transact t (λ k. create_run (env.inserted k) job_id at (env.clock k))
        (λ k. Write.creates_run (env.inserted k) job_id at (env.clock k)) (λ k. tt) (λ k db. refl)

  pub retry_whole_run-Keeps : (job : JobRecord) → Keeps P (retry_whole_run env job)
  unfolding retry_whole_run
  retry_whole_run-Keeps job = Keeps-bind _ _ (increment-Keeps job.id) (λ attempts.
      Keeps-if (leb attempts job.retries) _ _
        (Keeps-bind _ _ Keeps-step (λ step.
          Keeps-bind _ _ (create_run-Keeps job.id (some (env.now step + env.backoff attempts step)))
            (λ r. Keeps-pure tt)))
        (Keeps-pure tt))

  pub finalize_failed-Keeps :
      (job : JobRecord) (run_id : ℕ) (error : String)
      → Keeps P (finalize_failed env job run_id error)
  unfolding finalize_failed
  finalize_failed-Keeps job run_id error =
      Keeps-bind _ _ (fail_run-Keeps run_id error none 1)
        (λ u. Keeps-if (job.retries == 0) _ _ (Keeps-pure tt) (retry_whole_run-Keeps job))

  rearm-Keeps :
      (cls : JobClass) (job : JobRecord) (ctx : TaskContext) (r : Option RunRecord)
      → Keeps P (rearm env cls job ctx r)
  unfolding write
  rearm-Keeps cls job ctx none = Keeps-pure tt
  rearm-Keeps cls job ctx (some r) =
      Keeps-bind _ _ Keeps-step
        (λ step. Keeps-bind _ _ (Keeps-lift _) (λ next_run_at. arm-Keeps job.id next_run_at))

  pub reschedule-Keeps :
      (cls : JobClass) (job : JobRecord) (run_id : ℕ) (ctx : TaskContext)
      → Keeps P (reschedule env cls job run_id ctx)
  unfolding reschedule
  reschedule-Keeps cls job run_id ctx =
      Keeps-if (not (is_scheduled job.source)) _ _ (Keeps-pure tt)
        (Keeps-bind _ _ (Keeps-read t (get_run run_id)) (rearm-Keeps cls job ctx))

  rearm_now-Keeps : (job : Option JobRecord) → Keeps P (rearm_now env job)
  unfolding write
  rearm_now-Keeps none = Keeps-pure tt
  rearm_now-Keeps (some job) =
      Keeps-if (not (is_scheduled job.source)) _ _ (Keeps-pure tt)
        (Keeps-bind _ _ Keeps-step (λ step. arm-Keeps job.id (some (env.now step))))

  pub reschedule_on_error-Keeps : (r : RunRecord) → Keeps P (reschedule_on_error env r)
  unfolding reschedule_on_error
  reschedule_on_error-Keeps r = Keeps-bind _ _ (Keeps-read t (get r.job_id)) rearm_now-Keeps

  pub reset-Keeps :
      (job_id : ℕ) → Keeps P (write env (λ k. reset_job_attempts job_id (env.clock k)))
  unfolding apply
  reset-Keeps job_id =
      Keeps-write t _ (λ k. Write.resets job_id (env.clock k)) (λ k. tt) (λ k db. refl)

  complete_run-Keeps :
      (run_id : ℕ) (result : Option Json)
      → Keeps P (write env (λ k. complete_run run_id result (env.clock k)))
  unfolding apply
  complete_run-Keeps run_id result =
      Keeps-write t _ (λ k. Write.completes run_id result (env.clock k)) (λ k. tt) (λ k db. refl)

  pub cancel_run-Keeps : (run_id : ℕ) → Keeps P (write env (λ k. cancel_run run_id (env.clock k)))
  unfolding apply
  cancel_run-Keeps run_id =
      Keeps-write t _ (λ k. Write.cancels_run run_id (env.clock k)) (λ k. tt) (λ k db. refl)

  pub finish-Keeps :
      (run_id : ℕ) (cls : JobClass) (job : JobRecord) (ctx : TaskContext)
      → Keeps P (finish env run_id cls job ctx)
  unfolding finish
  finish-Keeps run_id cls job ctx =
      Keeps-bind _ _ (complete_run-Keeps run_id (some ctx.results))
        (λ u. Keeps-bind _ _ (reset-Keeps job.id) (λ v. reschedule-Keeps cls job run_id ctx))
