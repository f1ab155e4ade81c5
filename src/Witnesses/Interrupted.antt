-- ===== src/Witnesses/Interrupted.antt =====
-- A task whose workers died nine times while it ran.
use pyreljob.Backend.Jobs.{scalar_one_or_none}
use pyreljob.Backend.Tasks.{start_task, started_task, restarted}
use pyreljob.Models.{Db, TaskModel, TaskStatus, ok}
use pyreljob.Prelude.{ℕ, suc, ◌≡◌, refl, some, none, [], ◌∷◌, get_elem?}
use pyreljob.Samples.{weekly_job, clock}
use pyreljob.Samples.Office.{
  collect_task, weekly_class, office_env, collected, half_world, weekly_ctx,
}
use pyreljob.Sql.{select, update}
use pyreljob.Worker.Action.{World}
use pyreljob.Worker.Execute.{first_open, record_at, resume}
use pyreljob.Worker.Ran.{positions}
use pyreljob.Worker.Ran.Again.{resume-again}

abbrev cut_off : TaskModel
cut_off = record collected { status = TaskStatus.running; attempts = 9; finished_at = none }

abbrev stuck_world : World
stuck_world = record half_world { db = record half_world.db { tasks = cut_off ∷ [] } }

abbrev tenth_db : Db
tenth_db = record stuck_world.db { tasks = restarted "app.Collect" 10 (clock 100) cut_off ∷ [] }

starts : first_open weekly_class.tasks 0 (cut_off ∷ []) ≡ 0
unfolding first_open record_at
starts = refl

recorded : record_at (first_open weekly_class.tasks 0 (cut_off ∷ [])) (cut_off ∷ []) ≡ some cut_off
unfolding first_open record_at
recorded = refl

first_task :
    get_elem? weekly_class.tasks (first_open weekly_class.tasks 0 (cut_off ∷ []))
    ≡ some collect_task
first_task = rw starts refl

tenth_attempt :
    start_task 20 3
      (first_open weekly_class.tasks 0 (cut_off ∷ []))
      "app.Collect"
      10
      (clock 100)
      stuck_world.db
    ≡ ok tenth_db
unfolding start_task scalar_one_or_none started_task restarted select update first_open record_at
tenth_attempt = refl

resume-again_example :
    (n : ℕ) × (resume office_env 3 weekly_class weekly_job
        (cut_off ∷ [])
        weekly_ctx
        stuck_world).1.ran
      ≡ positions (first_open weekly_class.tasks 0 (cut_off ∷ [])) (suc n)
resume-again_example =
    resume-again office_env 3 weekly_class weekly_job (cut_off ∷ []) weekly_ctx stuck_world
      collect_task cut_off tenth_db first_task recorded refl tenth_attempt
