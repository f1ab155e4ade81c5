-- ===== src/Worker/Rearmed/Attempted.antt =====
-- The attempts of the tasks of a maintained job (pyreljob/worker.py), and whether the job is armed after them.
use pyreljob.Backend.History.{Write, apply}
use pyreljob.Models.{Db, JobRecord, TaskRecord, is_scheduled}
use pyreljob.Prelude.{
  ℕ, suc, ◌+◌, String, ◌≡◌, refl, true, Option, some, List, [], ◌∷◌, inl, inr, leb,
}
use pyreljob.Task.{TaskContext, TaskClass, JobClass, Outcome}
use pyreljob.Worker.Action.{Env, World, Action, current_step, note_run, note_undo}
use pyreljob.Worker.Attempt.{
  Verdict, report, task_budget, run_task, stop_task, give_up, retry_later, record_result, conclude,
  attempts_of,
}
use pyreljob.Worker.Execute.{after_attempt, run_tasks, finish, finish_failed, resume, record_at}
use pyreljob.Worker.Failure.{reschedule}
use pyreljob.Worker.Frame.Attempt.{
  start_task-Keeps, report-Keeps, record_result-Keeps, give_up-Keeps, compensate-Keeps,
}
use pyreljob.Worker.Frame.{save_ctx-Keeps, finalize_failed-Keeps, reset-Keeps}
use pyreljob.Worker.Rearmed.Scheduled.{AlwaysAgain, reschedule-ends}
use pyreljob.Worker.Rearmed.Execution.{
  Present, Open, Going, NotLost, Present-Tolerates, both, start-Open, report-Open,
  record_result-Open, retry_later-Open, stop_task-Open,
}
use pyreljob.Worker.Rules.{Keeps, Keeps-write, Ends, Ends-Keeps, Ends-pure, Ends-if, Ends-bind}

module _ (env : Env) (run_id job_id : ℕ) (still : (k : ℕ) (db : Db) → env.others k db ≡ db)
    (cls : JobClass) (again : AlwaysAgain cls) (job : JobRecord) (same : job.id ≡ job_id)
    (maintained : is_scheduled job.source ≡ true) where
  abbrev pub Here : World → Type 0
  Here w = Present env run_id job_id still w

  abbrev pub Safe : World → Type 0
  Safe w = NotLost env run_id job_id still w

  abbrev pub UnderWay : World → Type 0
  UnderWay w = Going env run_id job_id still w

  pub rescheduled : (ctx : TaskContext) → Ends Here (reschedule env cls job run_id ctx) (λ u. Safe)
  rescheduled ctx = record {
    at = λ w h a e.
        inl
          ((reschedule-ends env run_id job_id still cls again job same maintained ctx).at w h a e);
  }

  pub undo-Keeps : (position : ℕ) → Keeps Here (note_undo position)
  undo-Keeps position = record { at = λ w h. h }

  UnderWay-of_Ends :
      {Q : Unit {0} → World → Type 0} (m : Action (Unit {0})) → Ends Here m Q → Ends UnderWay m Q
  UnderWay-of_Ends m em = record { at = λ w h a e. em.at w h.1 a e }

  finish-ends : (ctx : TaskContext) → Ends Here (finish env run_id cls job ctx) (λ u. Safe)
  unfolding finish apply
  finish-ends ctx =
      let t = Present-Tolerates env run_id job_id still in
      Ends-bind _ _
        (Ends-Keeps _ (
          Keeps-write t _ (λ k. Write.completes run_id (some ctx.results) (env.clock k)) (λ k. tt)
            (λ k db. refl)))
        (λ u. Ends-bind _ _ (Ends-Keeps _ (reset-Keeps env Here t job.id)) (λ v. rescheduled ctx))

  -- What holds after an attempt.
  abbrev pub After : Verdict × TaskContext → World → Type 0
  After (Verdict.succeeded, ctx) w = UnderWay w
  After (Verdict.gave_up, ctx) w = Here w
  After (_, ctx) w = Open env run_id job_id still w

  conclude-ends :
      (position : ℕ) (task : TaskClass) (attempts : ℕ) (ctx : TaskContext) (o : Outcome)
      → Ends UnderWay (conclude env run_id cls job position task attempts ctx o) After
  unfolding conclude
  conclude-ends position task attempts ctx Outcome.cancelled =
      Ends-bind (stop_task env run_id position) _
        (record { at = λ w h a e. (stop_task-Open env run_id job_id still position).at w h.0 })
        (λ u. Ends-pure (Verdict.stopped, ctx) (λ w h. h))
  conclude-ends position task attempts ctx (Outcome.failed error) =
      Ends-if (leb (task_budget task job) attempts) _ _
        (Ends-bind (give_up env run_id cls job ctx position attempts error) _
          (record {
            at = λ w h a e.
                (give_up-Keeps env Here (Present-Tolerates env run_id job_id still) undo-Keeps
                    run_id cls job ctx position attempts error).at
                  w h.1;
          })
          (λ ctx'. Ends-pure (Verdict.gave_up, ctx') (λ w h. h)))
        (Ends-bind (retry_later env run_id ctx position attempts error) _
          (record {
            at = λ w h a e.
                (retry_later-Open env run_id job_id still ctx position attempts error).at w h.0;
          })
          (λ u. Ends-pure (Verdict.retrying, ctx) (λ w h. h)))
  conclude-ends position task attempts ctx (Outcome.returned result) =
      Ends-bind _ _
        (Ends-Keeps _ (
          both env run_id job_id still (record_result env run_id task ctx position result)
            (record_result-Open env run_id job_id still task ctx position result)
            (record_result-Keeps env Here (Present-Tolerates env run_id job_id still) run_id task
              ctx position result)))
        (λ ctx'. Ends-pure (Verdict.succeeded, ctx') (λ w h. h))

  run_task-ends :
      (ctx : TaskContext) (position : ℕ) (task : TaskClass) (existing : Option TaskRecord)
      → Ends UnderWay (run_task env run_id cls job ctx position task existing) After
  unfolding run_task
  run_task-ends ctx position task existing =
      let t = Present-Tolerates env run_id job_id still in
      let attempts = attempts_of existing + 1 in
      Ends-bind _ _
        (Ends-Keeps _ (
          both env run_id job_id still _
            (start-Open env run_id job_id still position task.task_name attempts)
            (start_task-Keeps env Here t run_id position task.task_name attempts)))
        (λ u.
          Ends-bind current_step _ (record { at = λ w h a e. h })
            (λ step.
              Ends-bind (note_run position) _ (record { at = λ w h a e. h })
                (λ v.
                  Ends-bind _ _
                    (Ends-Keeps _ (
                      both env run_id job_id still
                        (report env run_id ctx (task.run step ctx).reports)
                        (report-Open env run_id job_id still ctx (task.run step ctx).reports)
                        (report-Keeps env Here t run_id ctx (task.run step ctx).reports)))
                    (λ x.
                      conclude-ends position task attempts (task.run step ctx).ctx
                        (task.run step ctx).outcome))))

  after_attempt-ends :
      (rest : TaskContext → Action (Unit {0}))
      → ((ctx : TaskContext) → Ends UnderWay (rest ctx) (λ u. Safe))
      → (v : Verdict) (ctx : TaskContext)
      → Ends (After (v, ctx)) (after_attempt env run_id cls job rest (v, ctx)) (λ u. Safe)
  unfolding after_attempt
  after_attempt-ends rest er Verdict.succeeded ctx = er ctx
  after_attempt-ends rest er Verdict.stopped ctx = Ends-pure tt (λ w h. inr h)
  after_attempt-ends rest er Verdict.retrying ctx = Ends-pure tt (λ w h. inr h)
  after_attempt-ends rest er Verdict.gave_up ctx = rescheduled ctx

  run_tasks-ends :
      (records : List TaskRecord) (position : ℕ) (rest : List TaskClass) (ctx : TaskContext)
      → Ends UnderWay (run_tasks env run_id cls job records position rest ctx) (λ u. Safe)
  unfolding run_tasks
  run_tasks-ends records position [] ctx = UnderWay-of_Ends _ (finish-ends ctx)
  run_tasks-ends records position (task ∷ rest) ctx =
      Ends-bind _ _ (run_task-ends ctx position task (record_at position records))
        (λ (v : Verdict × TaskContext).
          after_attempt-ends _ (λ ctx'. run_tasks-ends records (suc position) rest ctx') v.0 v.1)

  finish_failed-ends :
      (ctx : TaskContext) (error : String)
      → Ends Here (finish_failed env run_id cls job ctx error) (λ u. Safe)
  unfolding finish_failed
  finish_failed-ends ctx error =
      let t = Present-Tolerates env run_id job_id still in
      Ends-bind _ _ (Ends-Keeps _ (save_ctx-Keeps env Here t run_id ctx)) (λ u.
        Ends-bind _ _ (Ends-Keeps _ (compensate-Keeps env Here t undo-Keeps run_id cls ctx))
          (λ ctx'.
            Ends-bind _ _ (Ends-Keeps _ (finalize_failed-Keeps env Here t job run_id error))
              (λ v. rescheduled ctx')))

  pub resume-ends :
      (records : List TaskRecord) (ctx : TaskContext)
      → Ends UnderWay (resume env run_id cls job records ctx) (λ u. Safe)
  unfolding resume
  resume-ends records ctx =
      Ends-if _ _ _ (UnderWay-of_Ends _ (finish_failed-ends ctx _)) (run_tasks-ends records _ _ ctx)
