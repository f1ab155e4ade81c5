-- ===== src/Worker/Failure.antt =====
-- pyreljob/worker.py: what the worker does when a run is over: compensation, another try of the whole
-- run, and the next run of a maintained job.
use mathlib.Core.List.{reverse}
use pyreljob.Backend.Beat.{set_next_run_at}
use pyreljob.Backend.Jobs.{get, increment_job_attempts}
use pyreljob.Backend.Runs.{fail_run, get_run, create_run}
use pyreljob.Backend.Tasks.{tasks, compensate_task}
use pyreljob.Json.{Json}
use pyreljob.Json.Values.{empty_obj, or_default}
use pyreljob.Models.{JobRecord, RunRecord, TaskRecord, is_scheduled, is_succeeded}
use pyreljob.Prelude.{
  ℕ, ◌+◌, String, not, Option, none, some, List, [], ◌∷◌, ◌==◌, leb, if◌then◌else◌,
}
use pyreljob.Task.{TaskContext, JobClass, task_for_record}
use pyreljob.Worker.Action.{
  Env, Action, pure, lift, ◌>>=◌, ◌>>◌, current_step, note_undo, read, write, transact,
}

-- `job.args or {}`
abbrev pub args_of : Option Json → Json
args_of none = empty_obj
args_of (some args) = or_default args empty_obj

module _ (env : Env) where
  -- The body of the loop of _compensate. An exception of undo is logged and ignored.
  unfoldable pub compensate_one : ℕ → JobClass → TaskRecord → TaskContext → Action TaskContext
  unfolding write task_for_record
  compensate_one run_id cls r ctx =
      if is_succeeded r.status
      then (do
        task ← lift (task_for_record r cls)
        step ← current_step
        note_undo r.position
        write env (λ k. compensate_task run_id r.position (env.clock k))
        pure (task.undo step ctx).1)
      else pure ctx

  unfoldable pub compensate_all : ℕ → JobClass → List TaskRecord → TaskContext → Action TaskContext
  unfolding compensate_one
  compensate_all run_id cls [] ctx = pure ctx
  compensate_all run_id cls (r ∷ rs) ctx =
      compensate_one run_id cls r ctx >>= λ ctx'. compensate_all run_id cls rs ctx'

  -- _compensate; user code may change the context.
  unfoldable pub compensate : ℕ → JobClass → TaskContext → Action TaskContext
  unfolding compensate_all read
  compensate run_id cls ctx = do
    records ← read env (tasks run_id)
    compensate_all run_id cls (reverse records) ctx

  -- The second half of _finalize_failed: another run of the whole job, if it has a retry left.
  unfoldable pub retry_whole_run : JobRecord → Action (Unit {0})
  unfolding transact
  retry_whole_run job = do
    attempts ← transact env (λ k. increment_job_attempts job.id (env.clock k))
    if leb attempts job.retries
        then (do
          step ← current_step
          run ← transact env (λ k.
              create_run (env.inserted k) job.id (some (env.now step + env.backoff attempts step))
                (env.clock k))
          pure tt)
        else pure tt

  unfoldable pub finalize_failed : JobRecord → ℕ → String → Action (Unit {0})
  unfolding write retry_whole_run
  finalize_failed job run_id error = do
    write env (λ k. fail_run run_id error none 1 (env.clock k))
    if job.retries == 0 then pure tt else retry_whole_run job

  abbrev pub rearm : JobClass → JobRecord → TaskContext → Option RunRecord → Action (Unit {0})
  unfolding write
  rearm cls job ctx none = pure tt
  rearm cls job ctx (some run) = do
    step ← current_step
    next_run_at ← lift (cls.next_runtime step (args_of job.args) run ctx)
    write env (λ k. set_next_run_at job.id next_run_at (env.clock k))

  unfoldable pub reschedule : JobClass → JobRecord → ℕ → TaskContext → Action (Unit {0})
  unfolding read write
  reschedule cls job run_id ctx =
      if not (is_scheduled job.source)
      then pure tt
      else (read env (get_run run_id) >>= rearm cls job ctx)

  abbrev pub rearm_now : Option JobRecord → Action (Unit {0})
  unfolding write
  rearm_now none = pure tt
  rearm_now (some job) = if not (is_scheduled job.source) then pure tt else (do
    step ← current_step
    write env (λ k. set_next_run_at job.id (some (env.now step)) (env.clock k)))

  unfoldable pub reschedule_on_error : RunRecord → Action (Unit {0})
  unfolding read write
  reschedule_on_error run = read env (get run.job_id) >>= rearm_now
