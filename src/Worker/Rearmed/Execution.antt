-- ===== src/Worker/Rearmed/Execution.antt =====
-- The ways in which an execution ends, and whether the job is armed after each (pyreljob/worker.py).
use pyreljob.Backend.History.{Write, apply, after_task}
use pyreljob.Backend.Tasks.{start_task}
use pyreljob.Json.{Json}
use pyreljob.Json.Values.{set_item}
use pyreljob.Models.{Time, Db, Result, ok, raised}
use pyreljob.Prelude.{ℕ, ◌+◌, String, ◌≡◌, refl, subst, some, List, [], ◌∷◌, ◌⊎◌, Float}
use pyreljob.Task.{set_progress, as_dict, TaskContext, TaskClass}
use pyreljob.Worker.Action.{Env, World, Action, write, write_or_raise, written}
use pyreljob.Worker.Attempt.{
  save_ctx, report, store_progress, stop_task, retry_later, record_result,
}
use pyreljob.Worker.Rearmed.{
  IsPresent, IsUnfinished, IsArmed, IsProgress, apply-IsPresent, apply-IsUnfinished,
}
use pyreljob.Worker.Rules.{Tolerates, Keeps, Keeps-pure, Keeps-bind, Keeps-lift, Keeps-step}

-- Nobody else writes.
module _ (env : Env) (run_id job_id : ℕ) (still : (k : ℕ) (db : Db) → env.others k db ≡ db) where
  abbrev pub Present : World → Type 0
  Present w = IsPresent run_id job_id w.db

  abbrev pub Open : World → Type 0
  Open w = IsUnfinished run_id w.db

  abbrev pub Going : World → Type 0
  Going w = Open w × Present w

  abbrev pub NotLost : World → Type 0
  NotLost w = IsArmed job_id w.db ⊎ IsUnfinished run_id w.db

  pub Present-Tolerates : Tolerates env Present
  Present-Tolerates = record {
    reads = λ w h. rw (still w.step w.db) h;
    writes = λ c w u h.
        apply-IsPresent run_id job_id c (env.others w.step w.db) u (rw (still w.step w.db) h);
  }

  pub both : {A : Type 0} (m : Action A) → Keeps Open m → Keeps Present m → Keeps Going m
  both m ko kp = record { at = λ w h. (ko.at w h.0, kp.at w h.1) }

  write-Open :
      (f : ℕ → Db → Db) (c : ℕ → Write)
      → ((k : ℕ) → IsProgress (c k))
      → ((k : ℕ) (db : Db) → apply (c k) db ≡ f k db)
      → Keeps Open (write env f)
  unfolding write
  write-Open f c ours same = record {
    at = λ w h.
        let before = env.others w.step w.db in
        subst (λ db. IsUnfinished run_id db) (same w.step before)
          (apply-IsUnfinished run_id (c w.step) before (ours w.step) (rw (still w.step w.db) h));
  }

  pub start-Open :
      (position : ℕ) (task_name : String) (attempts : ℕ)
      → Keeps Open (
          write_or_raise env
            (λ k. start_task (env.inserted k).id run_id position task_name attempts (env.clock k)))
  unfolding write_or_raise apply
  start-Open position task_name attempts = record {
    at = λ w h.
        let before = env.others w.step w.db in
        let id = (env.inserted w.step).id in
        let now = env.clock w.step in
        subst (λ db. IsUnfinished run_id db)
          (kept (start_task id run_id position task_name attempts now before) before)
          (apply-IsUnfinished run_id (Write.starts_task id run_id position task_name attempts now)
            before tt (rw (still w.step w.db) h));
  }
    where
      kept : (r : Result Db) (before : Db) → after_task before r ≡ (written before r).1
      kept (ok db) before = refl
      kept (raised e) before = refl

  save_ctx-Open : (ctx : TaskContext) → Keeps Open (save_ctx env run_id ctx)
  unfolding apply as_dict write
  save_ctx-Open ctx =
      write-Open _ (λ k. Write.sets_ctx run_id (some (Json.obj (as_dict ctx))) (env.clock k))
        (λ k. tt) (λ k db. refl)

  store_progress-Open :
      (p : Float) (r : Result TaskContext) → Keeps Open (store_progress env run_id p r)
  unfolding apply write
  store_progress-Open p (raised e) = Keeps-pure tt
  store_progress-Open p (ok ctx) =
      write-Open _ (λ k. Write.sets_progress run_id (some p) (env.clock k)) (λ k. tt) (λ k db. refl)

  pub report-Open : (ctx : TaskContext) (ps : List Float) → Keeps Open (report env run_id ctx ps)
  unfolding report
  report-Open ctx [] = Keeps-pure tt
  report-Open ctx (p ∷ ps) =
      Keeps-bind _ _ (store_progress-Open p (set_progress p ctx)) (λ u. report-Open ctx ps)

  pub record_result-Open :
      (task : TaskClass) (ctx : TaskContext) (position : ℕ) (result : Json)
      → Keeps Open (record_result env run_id task ctx position result)
  unfolding record_result apply
  record_result-Open task ctx position result =
      Keeps-bind _ _ (Keeps-lift (set_item task.name result ctx.results)) (λ results.
        Keeps-bind _ _
          (write-Open _ (λ k. Write.succeeds_task run_id position (some result) (env.clock k))
            (λ k. tt) (λ k db. refl))
          (λ u.
            Keeps-bind _ _ (save_ctx-Open (record ctx { results = results }))
              (λ v. Keeps-pure (record ctx { results = results }))))

  pub retry_later-Open :
      (ctx : TaskContext) (position attempts : ℕ) (error : String)
      → Keeps Open (retry_later env run_id ctx position attempts error)
  unfolding retry_later apply
  retry_later-Open ctx position attempts error = Keeps-bind _ _ Keeps-step (λ step.
      let at : Time = env.now step + env.backoff attempts step in
      Keeps-bind _ _ (save_ctx-Open ctx) (λ u.
        Keeps-bind _ _
          (write-Open _
            (λ k. Write.fails_task run_id position error attempts (some at) (env.clock k)) (λ k. tt)
            (λ k db. refl))
          (λ v.
            write-Open _ (λ k. Write.fails run_id error (some at) attempts (env.clock k)) (λ k. tt)
              (λ k db. refl))))

  pub stop_task-Open : (position : ℕ) → Keeps Open (stop_task env run_id position)
  unfolding stop_task apply
  stop_task-Open position =
      Keeps-bind _ _
        (write-Open _ (λ k. Write.cancels_task run_id position (env.clock k)) (λ k. tt)
          (λ k db. refl))
        (λ u. write-Open _ (λ k. Write.cancels_run run_id (env.clock k)) (λ k. tt) (λ k db. refl))

  abbrev pub Armed : World → Type 0
  Armed w = IsArmed job_id w.db
