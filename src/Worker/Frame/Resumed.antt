-- ===== src/Worker/Frame/Resumed.antt =====
-- The same for the whole of what an execution does once its run is in the table of active runs.
use pyreljob.Models.{JobRecord, TaskRecord}
use pyreljob.Prelude.{ℕ, suc, ◌+◌, Option, List, [], ◌∷◌, drop, get_elem?}
use pyreljob.Task.{TaskContext, TaskClass, JobClass}
use pyreljob.Worker.Action.{Env, World, Action, note_run, note_undo}
use pyreljob.Worker.Attempt.{Verdict, attempts_of, run_task}
use pyreljob.Worker.Execute.{
  record_at, first_open, is_exhausted, error_of, after_attempt, run_tasks, resume,
}
use pyreljob.Worker.Frame.{finish-Keeps, reschedule-Keeps}
use pyreljob.Worker.Frame.Attempt.{
  start_task-Keeps, report-Keeps, conclude-Keeps, finish_failed-Keeps,
}
use pyreljob.Worker.Rules.{Tolerates, Keeps, Keeps-pure, Keeps-if, Keeps-bind, Keeps-step}

module _ (env : Env) (P : World → Type 0) (t : Tolerates env P)
    (u : (position : ℕ) → Keeps P (note_undo position))
    (n : (position : ℕ) → Keeps P (note_run position)) where
  run_task-Keeps :
      (run_id : ℕ) (cls : JobClass) (job : JobRecord) (ctx : TaskContext) (position : ℕ)
      (task : TaskClass) (existing : Option TaskRecord)
      → Keeps P (run_task env run_id cls job ctx position task existing)
  unfolding run_task
  run_task-Keeps run_id cls job ctx position task existing =
      Keeps-bind _ _
        (start_task-Keeps env P t run_id position task.task_name (attempts_of existing + 1))
        (λ v. Keeps-bind _ _ Keeps-step (λ step. Keeps-bind _ _ (n position) (λ x.
          Keeps-bind _ _ (report-Keeps env P t run_id ctx (task.run step ctx).reports) (λ y.
            conclude-Keeps env P t u run_id cls job position task (attempts_of existing + 1)
              (task.run step ctx).ctx (task.run step ctx).outcome))))

  after_attempt-Keeps :
      (run_id : ℕ) (cls : JobClass) (job : JobRecord) (rest : TaskContext → Action (Unit {0}))
      → ((ctx : TaskContext) → Keeps P (rest ctx))
      → (v : Verdict) (ctx : TaskContext) → Keeps P (after_attempt env run_id cls job rest (v, ctx))
  unfolding after_attempt
  after_attempt-Keeps run_id cls job rest k Verdict.succeeded ctx = k ctx
  after_attempt-Keeps run_id cls job rest k Verdict.stopped ctx = Keeps-pure tt
  after_attempt-Keeps run_id cls job rest k Verdict.retrying ctx = Keeps-pure tt
  after_attempt-Keeps run_id cls job rest k Verdict.gave_up ctx =
      reschedule-Keeps env P t cls job run_id ctx

  run_tasks-Keeps :
      (run_id : ℕ) (cls : JobClass) (job : JobRecord) (records : List TaskRecord) (position : ℕ)
      (rest : List TaskClass) (ctx : TaskContext)
      → Keeps P (run_tasks env run_id cls job records position rest ctx)
  unfolding run_tasks
  run_tasks-Keeps run_id cls job records position [] ctx = finish-Keeps env P t run_id cls job ctx
  run_tasks-Keeps run_id cls job records position (task ∷ rest) ctx =
      Keeps-bind _ _ (run_task-Keeps run_id cls job ctx position task (record_at position records))
        (λ (v : Verdict × TaskContext).
          after_attempt-Keeps run_id cls job _
            (λ ctx'. run_tasks-Keeps run_id cls job records (suc position) rest ctx') v.0 v.1)

  pub resume-Keeps :
      (run_id : ℕ) (cls : JobClass) (job : JobRecord) (records : List TaskRecord)
      (ctx : TaskContext)
      → Keeps P (resume env run_id cls job records ctx)
  unfolding resume
  resume-Keeps run_id cls job records ctx =
      Keeps-if
        (is_exhausted job (get_elem? cls.tasks (first_open cls.tasks 0 records))
          (record_at (first_open cls.tasks 0 records) records))
        _ _
        (finish_failed-Keeps env P t u run_id cls job ctx
          (error_of (record_at (first_open cls.tasks 0 records) records)))
        (run_tasks-Keeps run_id cls job records (first_open cls.tasks 0 records)
          (drop (first_open cls.tasks 0 records) cls.tasks) ctx)
