-- ===== src/Witnesses/Working.antt =====
-- A worker that executes the run that lost its worker, of a job class with two tasks.
use mathlib.Core.Option
use pyreljob.Backend.Jobs.{get}
use pyreljob.Backend.Runs.{get_run, set_run_ctx}
use pyreljob.Backend.Tasks.{tasks}
use pyreljob.Json.{Json}
use pyreljob.Models.{Error, ok, raised, from_model, job_key}
use pyreljob.Prelude.{
  ℕ, ◌+◌, ◌≡◌, refl, true, false, none, some, [], ◌∷◌, All, leb, ltb, get_elem?, pos,
}
use pyreljob.Samples.{office_db, weekly_job, lost_run, clock}
use pyreljob.Samples.Office.{
  collect_task, weekly_class, office_env, unknown_env, office_world, collected, half_world,
  weekly_ctx,
}
use pyreljob.Sql.{find, select, order_by, insert_by}
use pyreljob.Task.{TaskContext, as_dict, task_for_record}
use pyreljob.Task.RoundTrip.{restored}
use pyreljob.Worker.Active.{active_key, execute-active}
use pyreljob.Worker.Compensated.{HasClass, IsCompensated, undoable, to_undo, compensate-undoes}
use pyreljob.Worker.Execute.{
  build_ctx, record_at, first_open, is_open, is_exhausted, resume, resolve, execute,
}
use pyreljob.Worker.Failure.{compensate, finalize_failed}
use pyreljob.Worker.Ran.{positions, resume-ran}
use pyreljob.Worker.Resumed.{build_ctx-set_run_ctx}
use pyreljob.Worker.Retries.{budget, finalize_failed-budget}
use pyreljob.Worker.Settled.{IsSettled}
use pyreljob.Worker.Settled.Always.{execute-settles}
use pyreljob.Worker.Rearmed.Always.{execute-rearms}
use pyreljob.Worker.Rearmed.{IsArmed, IsUnfinished}
use pyreljob.Models.{run_key}
use pyreljob.Prelude.{◌⊎◌, inl}
use pyreljob.Samples.Office.{weekly_class}
use pyreljob.Worker.Unresolved.{execute-unresolved}

execute-settles_example :
    ((execute office_env (from_model lost_run) office_world).0 ≡ ok tt)
    × IsSettled 3 (execute office_env (from_model lost_run) office_world).1.db
execute-settles_example =
    execute-settles office_env (from_model lost_run) (λ k db h. h) office_world

resume-ran_example :
    let start = first_open weekly_class.tasks 0 (collected ∷ []) in
    (n : ℕ) × ((resume office_env 3 weekly_class weekly_job
        (collected ∷ [])
        weekly_ctx
        half_world).1.ran
      ≡ positions start n)
    × (leb (start + n) 2 ≡ true)
    × (is_exhausted weekly_job
            (get_elem? weekly_class.tasks start)
            (record_at start (collected ∷ []))
          ≡ true
        → n ≡ 0)
    × (ltb start 2 ≡ true → is_open (record_at start (collected ∷ [])) ≡ true)
    × ((p : ℕ) → ltb p start ≡ true → is_open (record_at p (collected ∷ [])) ≡ false)
resume-ran_example =
    resume-ran office_env 3 weekly_class weekly_job (collected ∷ []) weekly_ctx half_world

not_there : find active_key 3 ((7, 1) ∷ []) ≡ none
unfolding find
not_there = refl

execute-active_example :
    (execute office_env (from_model lost_run) office_world).1.active ≡ (7, 1) ∷ []
execute-active_example = execute-active office_env (from_model lost_run) office_world not_there

known_tasks : All (HasClass weekly_class) (to_undo office_env 3 half_world)
unfolding tasks order_by insert_by select task_for_record
known_tasks = ((λ e. (collect_task, refl)), tt)

compensate-undoes_example :
    ((ctx : TaskContext) × (compensate office_env 3 weekly_class weekly_ctx half_world).0 ≡ ok ctx)
    × ((compensate office_env 3 weekly_class weekly_ctx half_world).1.undone
        ≡ undoable (to_undo office_env 3 half_world))
    × IsCompensated 3 (compensate office_env 3 weekly_class weekly_ctx half_world).1.db
compensate-undoes_example =
    compensate-undoes office_env 3 weekly_class (λ k db rs h. h) weekly_ctx half_world known_tasks

weekly_found : find job_key 3 office_db.jobs ≡ some weekly_job
unfolding find
weekly_found = refl

finalize_failed-budget_example :
    budget
      (record weekly_job { retries = 2 })
      (finalize_failed office_env (record weekly_job { retries = 2 }) 3 "OSError" office_world).1.db
    ≡ budget (record weekly_job { retries = 2 }) office_db
finalize_failed-budget_example =
    finalize_failed-budget office_env (λ k db. refl) (record weekly_job { retries = 2 }) 3 "OSError"
      office_world weekly_job weekly_found

build_ctx-set_run_ctx_example :
    Option.map
      (λ r. build_ctx (λ s. raised Error.value_error) r weekly_job)
      (get_run 3 (set_run_ctx 3 (some (Json.obj (as_dict weekly_ctx))) (clock 90) office_db))
    ≡ Option.map
        (λ r. ok (record (restored weekly_ctx) { job_id = pos r.job_id; progress = r.progress }))
        (get_run 3 office_db)
build_ctx-set_run_ctx_example =
    build_ctx-set_run_ctx (λ s. raised Error.value_error) 3 weekly_ctx (clock 90) weekly_job
      office_db

weekly_got : get 3 office_db ≡ some weekly_job
unfolding get find
weekly_got = refl

unknown : resolve unknown_env "weekly" ≡ none
unfolding resolve
unknown = refl

execute-unresolved_example :
    ((execute unknown_env (from_model lost_run) office_world).0 ≡ ok tt)
    × ((execute unknown_env (from_model lost_run) office_world).1.db.jobs ≡ office_db.jobs)
execute-unresolved_example =
    execute-unresolved unknown_env (from_model lost_run) weekly_job office_world weekly_got refl
      unknown

weekly_resolved : resolve office_env "weekly" ≡ some weekly_class
unfolding resolve
weekly_resolved = refl

lost_found : find run_key 3 office_db.runs ≡ some lost_run
unfolding find
lost_found = refl

execute-rearms_example :
    IsArmed 3 (execute office_env (from_model lost_run) office_world).1.db
    ⊎ IsUnfinished 3 (execute office_env (from_model lost_run) office_world).1.db
execute-rearms_example =
    execute-rearms office_env (from_model lost_run) (λ k db. refl) weekly_class
      (λ step args r ctx. inl (500, refl)) weekly_job refl refl refl weekly_resolved office_world
      lost_run lost_found refl weekly_got
