-- ===== src/Worker/Rearmed/Always.antt =====
-- _execute of a run of a maintained job (pyreljob/worker.py).
use pyreljob.Backend.Jobs.{get}
use pyreljob.Backend.Runs.{fail_run}
use pyreljob.Backend.Tasks.{tasks}
use pyreljob.Models.{
  RunModel, run_key, is_running, Db, JobRecord, RunRecord, TaskRecord, Result, ok, raised,
  is_active, is_scheduled, job_key,
}
use pyreljob.Prelude.{
  ℕ, suc, ◌≡◌, ◌∙◌, refl, sym, ap, subst, true, not, Option, none, some, List, inl, ◌⊎◌, arith,
}
use pyreljob.Sql.{find}
use pyreljob.Sql.Rows.{key-find}
use pyreljob.Task.{TaskContext, JobClass}
use pyreljob.Worker.Action.{Env, World, lift, read, write, transact, recover, finally, ◌>>◌}
use pyreljob.Worker.Execute.{
  resume, resolve, on_unhandled, run_class, run_job, run, execute, build_ctx, start_active,
  stop_active, put_active, pop_active,
}
use pyreljob.Worker.Failure.{rearm_now, reschedule_on_error}
use pyreljob.Worker.Frame.Resumed.{resume-Keeps}
use pyreljob.Worker.Frame.{fail_run-Keeps, cancel_run-Keeps}
use pyreljob.Worker.Rearmed.Scheduled.{AlwaysAgain}
use pyreljob.Worker.Rearmed.Execution.{Present, Present-Tolerates}
use pyreljob.Worker.Rearmed.{
  is_maintained, is_unfinished, is_there, IsArmed, IsUnfinished, set_next_run_at-IsArmed,
}
use pyreljob.Worker.Rules.{
  Keeps, Keeps-lift, Keeps-bind, Keeps-if, Keeps-read, Ends, Ends-bind, Ends-finally,
}
use pyreljob.Worker.Rearmed.Attempted.{Safe, UnderWay, resume-ends}

abbrev job_of : Result (Option JobRecord) → Option JobRecord
job_of (ok o) = o
job_of (raised e) = none

module _ (env : Env) (r : RunRecord) (still : (k : ℕ) (db : Db) → env.others k db ≡ db)
    (cls : JobClass) (again : AlwaysAgain cls) (job : JobRecord) (same : job.id ≡ r.job_id)
    (maintained : is_scheduled job.source ≡ true) (active : is_active job.status ≡ true)
    (resolved : resolve env job.job ≡ some cls) where
  abbrev Start : World → Type 0
  Start w = UnderWay env r.id r.job_id still cls again job same maintained w

  abbrev End : World → Type 0
  End w = Safe env r.id r.job_id still cls again job same maintained w

  class-ends : Ends Start (run_class env r job (some cls)) (λ u. End)
  unfolding run_class read transact
  class-ends =
      Ends-bind (lift (build_ctx env.read_int r job)) _ (record { at = λ w h a e. h })
        (λ ctx.
          Ends-bind (read env (tasks r.id)) _ (record { at = λ w h a e. rw (still w.step w.db) h })
            (λ records.
              Ends-finally _ (stop_active r.id) (λ u w h. h)
                (Ends-bind (start_active r.id r.job_id) _ (record { at = λ w h a e. h })
                  (λ u.
                    resume-ends env r.id r.job_id still cls again job same maintained records
                      ctx))))

  job-ends : Ends Start (run_job env r (some job)) (λ u. End)
  unfolding run_job
  job-ends = rw (active, resolved) class-ends

  run-ends : Ends (λ w. Start w × (get r.job_id w.db ≡ some job)) (run env r) (λ u. End)
  unfolding run read transact
  run-ends = Ends-bind (read env (get r.job_id)) (run_job env r) found (λ o. record {
    at = λ w h a e.
        (subst (λ x. Ends Start (run_job env r x) (λ u. End)) (sym h.1) job-ends).at w h.0 a e;
  })
    where
      found :
          Ends
            (λ w. Start w × (get r.job_id w.db ≡ some job))
            (read env (get r.job_id))
            (λ o w. Start w × (o ≡ some job))
      found = record {
        at = λ w h a e. (
          rw (still w.step w.db) h.0,
          ap job_of (sym e) ∙ ap (λ db. get r.job_id db) (still w.step w.db) ∙ h.1,
        );
      }

  abbrev PresentAt : World → Type 0
  PresentAt w = Present env r.id r.job_id still w

  resume-Present :
      (j : JobRecord) (c : JobClass) (records : List TaskRecord) (ctx : TaskContext)
      → Keeps PresentAt (
          finally
            (start_active r.id r.job_id >> resume env r.id c j records ctx)
            (stop_active r.id))
  unfolding put_active pop_active
  resume-Present j c records ctx = record {
    at = λ w h.
        (resume-Keeps env PresentAt (Present-Tolerates env r.id r.job_id still)
            (λ p. record { at = λ v e. e }) (λ p. record { at = λ v e. e }) r.id c j records ctx).at
          (start_active r.id r.job_id w).1 h;
  }

  run_class-Keeps : (j : JobRecord) (c : Option JobClass) → Keeps PresentAt (run_class env r j c)
  unfolding run_class
  run_class-Keeps j none =
      fail_run-Keeps env PresentAt (Present-Tolerates env r.id r.job_id still) _ _ _ _
  run_class-Keeps j (some c) = Keeps-bind _ _ (Keeps-lift (build_ctx env.read_int r j)) (λ ctx.
      Keeps-bind _ _ (Keeps-read (Present-Tolerates env r.id r.job_id still) (tasks r.id))
        (λ records. resume-Present j c records ctx))

  run_job-Keeps : (o : Option JobRecord) → Keeps PresentAt (run_job env r o)
  unfolding run_job
  run_job-Keeps none =
      fail_run-Keeps env PresentAt (Present-Tolerates env r.id r.job_id still) _ _ _ _
  run_job-Keeps (some j) =
      Keeps-if (not (is_active j.status)) _ _
        (cancel_run-Keeps env PresentAt (Present-Tolerates env r.id r.job_id still) r.id)
        (run_class-Keeps j (resolve env j.job))

  run-Keeps : Keeps PresentAt (run env r)
  unfolding run
  run-Keeps =
      Keeps-bind _ _ (Keeps-read (Present-Tolerates env r.id r.job_id still) (get r.job_id))
        run_job-Keeps

  rearm_now-arms :
      (o : Option JobRecord) (w : World)
      → find job_key r.job_id w.db.jobs ≡ o
      → is_maintained o ≡ true
      → IsArmed r.job_id (rearm_now env o w).1.db
  unfolding write transact
  rearm_now-arms none w e m = absurd (ground (arith, m))
  rearm_now-arms (some j) w e m =
      rw (m, still w.step w.db, key-find job_key r.job_id w.db.jobs j e)
        (set_next_run_at-IsArmed r.job_id (env.now w.step) (env.clock w.step) w.db (rw e m))

  on_unhandled-arms : (w : World) → PresentAt w → IsArmed r.job_id (on_unhandled env r w).1.db
  unfolding on_unhandled reschedule_on_error read transact write get
  on_unhandled-arms w h =
      let failed =
        (fail_run-Keeps env PresentAt (Present-Tolerates env r.id r.job_id still) r.id
            "unhandled error" none 1).at
          w h in
      let before =
        fail_run r.id "unhandled error" none 1 (env.clock w.step) (env.others w.step w.db) in
      let after = env.others (suc w.step) before in
      rearm_now-arms (get r.job_id after) (record w { db = after; step = suc (suc w.step) }) refl
        (rw (still (suc w.step) before) failed.1)

  -- With nobody else writing, an execution of a running run of an active maintained job, whose class is
  -- found and whose next_runtime answers with a time whenever it does not raise, ends in one of two ways:
  -- the job is armed again, or the run has neither succeeded nor failed (a task is to be tried again,
  -- or was cancelled).
  pub execute-rearms :
      (w : World) (m : RunModel)
      → find run_key r.id w.db.runs ≡ some m
      → is_running m.status ≡ true
      → get r.job_id w.db ≡ some job
      → IsArmed r.job_id (execute env r w).1.db ⊎ IsUnfinished r.id (execute env r w).1.db
  unfolding execute get
  execute-rearms w m there running found = go (run env r w).0 refl
    where
      present : PresentAt w
      present = (ap is_there there, ap is_maintained found ∙ maintained)

      start : Start w
      start = (ap is_unfinished there ∙ ground (arith, running), present)

      go :
          (x : Result (Unit {0}))
          → (run env r w).0 ≡ x
          → IsArmed r.job_id (recover x (on_unhandled env r) (run env r w).1).1.db
            ⊎ IsUnfinished r.id (recover x (on_unhandled env r) (run env r w).1).1.db
      go (ok u) e = run-ends.at w (start, found) tt e
      go (raised x) e = inl (on_unhandled-arms (run env r w).1 (run-Keeps.at w present))
