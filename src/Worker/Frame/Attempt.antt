-- ===== src/Worker/Frame/Attempt.antt =====
-- The same for an attempt of a task and for the end of a run.
use mathlib.Core.List.{reverse}
use pyreljob.Backend.History.{Write, apply}
use pyreljob.Backend.Tasks.{tasks, start_task}
use pyreljob.Json.{Json}
use pyreljob.Json.Values.{set_item}
use pyreljob.Models.{JobRecord, TaskRecord, Result, ok, raised, is_succeeded}
use pyreljob.Prelude.{ℕ, ◌+◌, String, refl, none, some, List, [], ◌∷◌, leb, Float}
use pyreljob.Task.{TaskContext, TaskClass, JobClass, Outcome, set_progress, task_for_record}
use pyreljob.Worker.Action.{Env, World, note_undo, write, write_or_raise}
use pyreljob.Worker.Attempt.{
  Verdict, task_budget, report, store_progress, stop_task, give_up, retry_later, record_result,
  conclude,
}
use pyreljob.Worker.Failure.{compensate_one, compensate_all, compensate}
use pyreljob.Worker.Execute.{finish_failed}
use pyreljob.Worker.Rules.{
  Tolerates, Keeps, Keeps-pure, Keeps-lift, Keeps-if, Keeps-bind, Keeps-step, Keeps-read,
  Keeps-write, Keeps-write_or_raise,
}
use pyreljob.Worker.Frame.{
  save_ctx-Keeps, fail_task-Keeps, fail_run-Keeps, cancel_run-Keeps, finalize_failed-Keeps,
  reschedule-Keeps,
}

module _ (env : Env) (P : World → Type 0) (t : Tolerates env P) where
  store_progress-Keeps :
      (run_id : ℕ) (p : Float) (r : Result TaskContext) → Keeps P (store_progress env run_id p r)
  unfolding apply write
  store_progress-Keeps run_id p (raised e) = Keeps-pure tt
  store_progress-Keeps run_id p (ok ctx) =
      Keeps-write t _ (λ k. Write.sets_progress run_id (some p) (env.clock k)) (λ k. tt)
        (λ k db. refl)

  pub report-Keeps :
      (run_id : ℕ) (ctx : TaskContext) (ps : List Float) → Keeps P (report env run_id ctx ps)
  unfolding report
  report-Keeps run_id ctx [] = Keeps-pure tt
  report-Keeps run_id ctx (p ∷ ps) =
      Keeps-bind _ _ (store_progress-Keeps run_id p (set_progress p ctx))
        (λ u. report-Keeps run_id ctx ps)

  pub stop_task-Keeps : (run_id position : ℕ) → Keeps P (stop_task env run_id position)
  unfolding stop_task apply
  stop_task-Keeps run_id position =
      Keeps-bind _ _
        (Keeps-write t _ (λ k. Write.cancels_task run_id position (env.clock k)) (λ k. tt)
          (λ k db. refl))
        (λ u. cancel_run-Keeps env P t run_id)

  pub retry_later-Keeps :
      (run_id : ℕ) (ctx : TaskContext) (position attempts : ℕ) (error : String)
      → Keeps P (retry_later env run_id ctx position attempts error)
  unfolding retry_later
  retry_later-Keeps run_id ctx position attempts error = Keeps-bind _ _ Keeps-step (λ step.
      Keeps-bind _ _ (save_ctx-Keeps env P t run_id ctx) (λ u.
        Keeps-bind _ _
          (fail_task-Keeps env P t run_id position error attempts
            (some (env.now step + env.backoff attempts step)))
          (λ v.
            fail_run-Keeps env P t run_id error (some (env.now step + env.backoff attempts step))
              attempts)))

  pub record_result-Keeps :
      (run_id : ℕ) (task : TaskClass) (ctx : TaskContext) (position : ℕ) (result : Json)
      → Keeps P (record_result env run_id task ctx position result)
  unfolding record_result apply
  record_result-Keeps run_id task ctx position result =
      Keeps-bind _ _ (Keeps-lift (set_item task.name result ctx.results)) (λ results.
        Keeps-bind _ _
          (Keeps-write t _ (λ k. Write.succeeds_task run_id position (some result) (env.clock k))
            (λ k. tt) (λ k db. refl))
          (λ u.
            Keeps-bind _ _ (save_ctx-Keeps env P t run_id (record ctx { results = results }))
              (λ v. Keeps-pure (record ctx { results = results }))))

  pub start_task-Keeps :
      (run_id position : ℕ) (task_name : String) (attempts : ℕ)
      → Keeps P (
          write_or_raise env
            (λ k. start_task (env.inserted k).id run_id position task_name attempts (env.clock k)))
  unfolding apply
  start_task-Keeps run_id position task_name attempts =
      Keeps-write_or_raise t _
        (λ k.
          Write.starts_task (env.inserted k).id run_id position task_name attempts (env.clock k))
        (λ k. tt) (λ k db. refl)

  -- Undoing a task is a step of user code.
  module _ (u : (position : ℕ) → Keeps P (note_undo position)) where
    compensate_one-Keeps :
        (run_id : ℕ) (cls : JobClass) (r : TaskRecord) (ctx : TaskContext)
        → Keeps P (compensate_one env run_id cls r ctx)
    unfolding compensate_one apply
    compensate_one-Keeps run_id cls r ctx =
        Keeps-if (is_succeeded r.status) _ _
          (Keeps-bind _ _ (Keeps-lift (task_for_record r cls)) (λ task.
            Keeps-bind _ _ Keeps-step (λ step. Keeps-bind _ _ (u r.position) (λ v.
              Keeps-bind _ _
                (Keeps-write t _ (λ k. Write.compensates_task run_id r.position (env.clock k))
                  (λ k. tt) (λ k db. refl))
                (λ x. Keeps-pure (task.undo step ctx).1)))))
          (Keeps-pure ctx)

    compensate_all-Keeps :
        (run_id : ℕ) (cls : JobClass) (rs : List TaskRecord) (ctx : TaskContext)
        → Keeps P (compensate_all env run_id cls rs ctx)
    unfolding compensate_all
    compensate_all-Keeps run_id cls [] ctx = Keeps-pure ctx
    compensate_all-Keeps run_id cls (r ∷ rs) ctx =
        Keeps-bind _ _ (compensate_one-Keeps run_id cls r ctx) (compensate_all-Keeps run_id cls rs)

    pub compensate-Keeps :
        (run_id : ℕ) (cls : JobClass) (ctx : TaskContext) → Keeps P (compensate env run_id cls ctx)
    unfolding compensate
    compensate-Keeps run_id cls ctx =
        Keeps-bind _ _ (Keeps-read t (tasks run_id))
          (λ records. compensate_all-Keeps run_id cls (reverse records) ctx)

    pub give_up-Keeps :
        (run_id : ℕ) (cls : JobClass) (job : JobRecord) (ctx : TaskContext) (position attempts : ℕ)
        (error : String)
        → Keeps P (give_up env run_id cls job ctx position attempts error)
    unfolding give_up
    give_up-Keeps run_id cls job ctx position attempts error =
        Keeps-bind _ _ (save_ctx-Keeps env P t run_id ctx) (λ v.
          Keeps-bind _ _ (fail_task-Keeps env P t run_id position error attempts none) (λ x.
            Keeps-bind _ _ (compensate-Keeps run_id cls ctx) (λ ctx'.
              Keeps-bind _ _ (finalize_failed-Keeps env P t job run_id error)
                (λ y. Keeps-pure ctx'))))

    pub conclude-Keeps :
        (run_id : ℕ) (cls : JobClass) (job : JobRecord) (position : ℕ) (task : TaskClass)
        (attempts : ℕ) (ctx : TaskContext) (o : Outcome)
        → Keeps P (conclude env run_id cls job position task attempts ctx o)
    unfolding conclude
    conclude-Keeps run_id cls job position task attempts ctx Outcome.cancelled =
        Keeps-bind _ _ (stop_task-Keeps run_id position) (λ v. Keeps-pure (Verdict.stopped, ctx))
    conclude-Keeps run_id cls job position task attempts ctx (Outcome.failed error) =
        Keeps-if (leb (task_budget task job) attempts) _ _
          (Keeps-bind _ _ (give_up-Keeps run_id cls job ctx position attempts error)
            (λ ctx'. Keeps-pure (Verdict.gave_up, ctx')))
          (Keeps-bind _ _ (retry_later-Keeps run_id ctx position attempts error)
            (λ v. Keeps-pure (Verdict.retrying, ctx)))
    conclude-Keeps run_id cls job position task attempts ctx (Outcome.returned result) =
        Keeps-bind _ _ (record_result-Keeps run_id task ctx position result)
          (λ ctx'. Keeps-pure (Verdict.succeeded, ctx'))

    pub finish_failed-Keeps :
        (run_id : ℕ) (cls : JobClass) (job : JobRecord) (ctx : TaskContext) (error : String)
        → Keeps P (finish_failed env run_id cls job ctx error)
    unfolding finish_failed
    finish_failed-Keeps run_id cls job ctx error =
        Keeps-bind _ _ (save_ctx-Keeps env P t run_id ctx) (λ v.
          Keeps-bind _ _ (compensate-Keeps run_id cls ctx) (λ ctx'.
            Keeps-bind _ _ (finalize_failed-Keeps env P t job run_id error)
              (λ x. reschedule-Keeps env P t cls job run_id ctx')))
