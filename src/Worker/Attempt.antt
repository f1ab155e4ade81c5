-- ===== src/Worker/Attempt.antt =====
-- pyreljob/worker.py: one attempt of one task, _run_task.
use pyreljob.Backend.Runs.{fail_run, cancel_run, set_run_ctx, set_run_progress}
use pyreljob.Backend.Tasks.{start_task, succeed_task, fail_task, cancel_task}
use pyreljob.Json.{Json}
use pyreljob.Json.Values.{set_item}
use pyreljob.Models.{Time, JobRecord, TaskRecord, Result, ok, raised}
use pyreljob.Prelude.{
  ℕ, ◌+◌, String, Option, none, some, List, [], ◌∷◌, ◌==◌, leb, if◌then◌else◌, Float,
}
use pyreljob.Task.{TaskContext, TaskClass, JobClass, Outcome, as_dict, set_progress}
use pyreljob.Worker.Action.{
  Env, Action, pure, lift, ◌>>=◌, ◌>>◌, current_step, note_run, write, write_or_raise,
}
use pyreljob.Worker.Failure.{compensate, finalize_failed}

-- What _run_task returns.
pub data Verdict : Type 0 where
  succeeded retrying gave_up stopped : Verdict

-- `task_cls.max_attempts or job.max_attempts`
unfoldable pub task_budget : TaskClass → JobRecord → ℕ
task_budget task job = elim task.max_attempts [
  | none ↦ job.max_attempts
  | some n ↦ if n == 0 then job.max_attempts else n
]

abbrev pub attempts_of : Option TaskRecord → ℕ
attempts_of none = 0
attempts_of (some r) = r.attempts

module _ (env : Env) where
  abbrev pub store_progress : ℕ → Float → Result TaskContext → Action (Unit {0})
  unfolding write
  store_progress run_id progress (raised e) = pure tt
  store_progress run_id progress (ok ctx) =
      write env (λ k. set_run_progress run_id (some progress) (env.clock k))

  -- ctx.set_progress, as often as the task calls it; it raises into the task if the value is out of
  -- range, and stores nothing then.
  unfoldable pub report : ℕ → TaskContext → List Float → Action (Unit {0})
  unfolding write set_progress
  report run_id ctx [] = pure tt
  report run_id ctx (p ∷ ps) = store_progress run_id p (set_progress p ctx) >> report run_id ctx ps

  abbrev pub save_ctx : ℕ → TaskContext → Action (Unit {0})
  unfolding write as_dict
  save_ctx run_id ctx =
      write env (λ k. set_run_ctx run_id (some (Json.obj (as_dict ctx))) (env.clock k))

  -- `except JobCancelledError`
  unfoldable pub stop_task : ℕ → ℕ → Action (Unit {0})
  unfolding write
  stop_task run_id position = do
    write env (λ k. cancel_task run_id position (env.clock k))
    write env (λ k. cancel_run run_id (env.clock k))

  -- `except Exception`, with no attempt left.
  unfoldable pub give_up :
      ℕ → JobClass → JobRecord → TaskContext → ℕ → ℕ → String → Action TaskContext
  unfolding write as_dict compensate finalize_failed
  give_up run_id cls job ctx position attempts error = do
    save_ctx run_id ctx
    write env (λ k. fail_task run_id position error attempts none (env.clock k))
    ctx' ← compensate env run_id cls ctx
    finalize_failed env job run_id error
    pure ctx'

  -- `except Exception`, with an attempt left.
  unfoldable pub retry_later : ℕ → TaskContext → ℕ → ℕ → String → Action (Unit {0})
  unfolding write as_dict
  retry_later run_id ctx position attempts error = do
    step ← current_step
    let retry_at : Option Time = some (env.now step + env.backoff attempts step)
    save_ctx run_id ctx
    write env (λ k. fail_task run_id position error attempts retry_at (env.clock k))
    write env (λ k. fail_run run_id error retry_at attempts (env.clock k))

  unfoldable pub record_result : ℕ → TaskClass → TaskContext → ℕ → Json → Action TaskContext
  unfolding write as_dict
  record_result run_id task ctx position result = do
    results ← lift (set_item task.name result ctx.results)
    let ctx' : TaskContext = record ctx { results = results }
    write env (λ k. succeed_task run_id position (some result) (env.clock k))
    save_ctx run_id ctx'
    pure ctx'

  -- What follows the task's coroutine.
  unfoldable pub conclude :
      ℕ
      → JobClass
      → JobRecord
      → ℕ
      → TaskClass
      → ℕ
      → TaskContext
      → Outcome
      → Action (Verdict × TaskContext)
  unfolding task_budget stop_task give_up retry_later record_result
  conclude run_id cls job position task attempts ctx Outcome.cancelled = do
    stop_task run_id position
    pure (Verdict.stopped, ctx)
  conclude run_id cls job position task attempts ctx (Outcome.failed error) =
      if leb (task_budget task job) attempts
      then (do
        ctx' ← give_up run_id cls job ctx position attempts error
        pure (Verdict.gave_up, ctx'))
      else (do retry_later run_id ctx position attempts error; pure (Verdict.retrying, ctx))
  conclude run_id cls job position task attempts ctx (Outcome.returned result) = do
    ctx' ← record_result run_id task ctx position result
    pure (Verdict.succeeded, ctx')

  -- _run_task, for the task class at the position.
  unfoldable pub run_task :
      ℕ
      → JobClass
      → JobRecord
      → TaskContext
      → ℕ
      → TaskClass
      → Option TaskRecord
      → Action (Verdict × TaskContext)
  unfolding write_or_raise report conclude
  run_task run_id cls job ctx position task existing = do
    let attempts = attempts_of existing + 1
    write_or_raise env
        (λ k. start_task (env.inserted k).id run_id position task.task_name attempts (env.clock k))
    step ← current_step
    note_run position
    let done = task.run step ctx
    report run_id ctx done.reports
    conclude run_id cls job position task attempts done.ctx done.outcome
