-- ===== src/Worker/Active.antt =====
-- _execute and the table of active runs, which the heartbeat reads.
use pyreljob.Backend.Jobs.{get}
use pyreljob.Backend.Tasks.{tasks}
use pyreljob.Models.{JobRecord, RunRecord, TaskRecord, Result, ok, raised, is_active}
use pyreljob.Prelude.{ℕ, ◌≡◌, refl, ap, ◌∙◌, arith, not, Option, none, some, List, [], ◌∷◌}
use pyreljob.Sql.{select, find}
use pyreljob.Task.{TaskContext, JobClass}
use pyreljob.Worker.Action.{Env, World, ◌>>◌, finally, recover}
use pyreljob.Worker.Execute.{
  build_ctx, put_active, pop_active, start_active, stop_active, resume, resolve, run_class, run_job,
  run, on_unhandled, execute,
}
use pyreljob.Worker.Frame.{fail_run-Keeps, cancel_run-Keeps, reschedule_on_error-Keeps}
use pyreljob.Worker.Frame.Resumed.{resume-Keeps}
use pyreljob.Worker.Rules.{Tolerates, Keeps, Keeps-lift, Keeps-if, Keeps-bind, Keeps-read}

-- The key of an entry is the id of its run.
abbrev pub active_key : ℕ × ℕ → ℕ
active_key p = p.0

pop_active-put_active :
    (run_id job_id : ℕ) (entries : List (ℕ × ℕ))
    → find active_key run_id entries ≡ none
    → pop_active run_id (put_active run_id job_id entries) ≡ entries
unfolding pop_active put_active select find
pop_active-put_active run_id job_id [] h = ground arith
pop_active-put_active run_id job_id ((k, j) ∷ rest) h =
    ground (arith, h, pop_active-put_active run_id job_id rest)

module _ (env : Env) (entries : List (ℕ × ℕ)) where
  abbrev HasEntries : World → Type 0
  HasEntries w = w.active ≡ entries

  entries-Tolerates : Tolerates env HasEntries
  entries-Tolerates = record { reads = λ w h. h; writes = λ c w u h. h }

module _ (env : Env) (r : RunRecord) (entries : List (ℕ × ℕ))
    (fresh : find active_key r.id entries ≡ none) where
  resume-pops :
      (cls : JobClass) (job : JobRecord) (records : List TaskRecord) (ctx : TaskContext)
      → Keeps (HasEntries env entries) (
          finally
            (start_active r.id r.job_id >> resume env r.id cls job records ctx)
            (stop_active r.id))
  unfolding put_active pop_active
  resume-pops cls job records ctx = record {
    at = λ w h.
        ap (pop_active r.id) (
          (resume-Keeps env (HasEntries env (put_active r.id r.job_id entries))
              (entries-Tolerates env _) (λ p. record { at = λ v e. e })
              (λ p. record { at = λ v e. e }) r.id cls job records ctx).at
            (start_active r.id r.job_id w).1 (ap (put_active r.id r.job_id) h))
        ∙ pop_active-put_active r.id r.job_id entries fresh;
  }

  run_class-Keeps :
      (job : JobRecord) (cls : Option JobClass)
      → Keeps (HasEntries env entries) (run_class env r job cls)
  unfolding run_class
  run_class-Keeps job none =
      fail_run-Keeps env (HasEntries env entries) (entries-Tolerates env entries) _ _ _ _
  run_class-Keeps job (some cls) =
      Keeps-bind _ _ (Keeps-lift (build_ctx env.read_int r job)) (λ ctx.
        Keeps-bind _ _ (Keeps-read (entries-Tolerates env entries) (tasks r.id))
          (λ records. resume-pops cls job records ctx))

  run_job-Keeps : (job : Option JobRecord) → Keeps (HasEntries env entries) (run_job env r job)
  unfolding run_job
  run_job-Keeps none =
      fail_run-Keeps env (HasEntries env entries) (entries-Tolerates env entries) _ _ _ _
  run_job-Keeps (some job) =
      Keeps-if (not (is_active job.status)) _ _
        (cancel_run-Keeps env (HasEntries env entries) (entries-Tolerates env entries) r.id)
        (run_class-Keeps job (resolve env job.job))

  run-Keeps : Keeps (HasEntries env entries) (run env r)
  unfolding run
  run-Keeps =
      Keeps-bind _ _ (Keeps-read (entries-Tolerates env entries) (get r.job_id)) run_job-Keeps

  on_unhandled-Keeps : Keeps (HasEntries env entries) (on_unhandled env r)
  unfolding on_unhandled
  on_unhandled-Keeps =
      Keeps-bind _ _
        (fail_run-Keeps env (HasEntries env entries) (entries-Tolerates env entries) r.id
          "unhandled error" none 1)
        (λ u.
          reschedule_on_error-Keeps env (HasEntries env entries) (entries-Tolerates env entries) r)

  recover-Keeps :
      (x : Result (Unit {0})) (w : World)
      → HasEntries env entries w
      → HasEntries env entries (recover x (on_unhandled env r) w).1
  recover-Keeps (ok u) w h = h
  recover-Keeps (raised e) w h = on_unhandled-Keeps.at w h

-- However an execution ends, it leaves the table of active runs as it was when it started, if the run
-- was not in it.
pub execute-active :
    (env : Env) (r : RunRecord) (w : World)
    → find active_key r.id w.active ≡ none
    → (execute env r w).1.active ≡ w.active
unfolding execute
execute-active env r w fresh =
    recover-Keeps env r w.active fresh (run env r w).0 (run env r w).1
      ((run-Keeps env r w.active fresh).at w refl)
