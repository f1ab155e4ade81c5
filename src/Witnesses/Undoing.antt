-- ===== src/Witnesses/Undoing.antt =====
-- Compensation of the half-done run by hand.
use pyreljob.Backend.Jobs
use pyreljob.Backend.Lists
use pyreljob.Backend.Tasks.{tasks}
use pyreljob.Json.{Json}
use pyreljob.Json.Values.{empty_obj}
use pyreljob.Manager.Undo.{of_job, undo, undo-undoes, looked_up}
use pyreljob.Models.{TaskRecord, Result, ok, raised, from_model}
use pyreljob.Prelude.{
  ℕ, zero, suc, ◌≡◌, refl, ap, sym, none, some, [], ◌∷◌, All, pos, arith, false, get_elem?,
}
use pyreljob.Samples.{weekly_job, lost_run}
use pyreljob.Samples.Office.{collect_task, weekly_class, office_env, half_world}
use pyreljob.Sql.{find, select, order_by, insert_by}
use pyreljob.Task.{TaskContext, TaskClass, task_for_record, class_at, from_dict, new_context}
use pyreljob.Worker.Compensated.{HasClass, IsCompensated, undoable, to_undo}
use pyreljob.Worker.Execute.{context_of}

abbrev first_ctx : TaskContext
first_ctx = record {
  job_id = pos 3;
  job = Json.text "weekly";
  args = empty_obj;
  results = empty_obj;
  state = empty_obj;
  cancelled = false;
  progress = none;
}

class_or : TaskClass → Result TaskClass → TaskClass
class_or c (ok d) = d
class_or c (raised e) = c

never_raises :
    (r : TaskRecord) (task : TaskClass) (k : ℕ) (ctx : TaskContext)
    → task_for_record r weekly_class ≡ ok task
    → (task.undo k ctx).0 ≡ ok tt
unfolding task_for_record class_or
never_raises r task k ctx e = go r.position e
  where
    go :
        (position : ℕ)
        → class_at (get_elem? weekly_class.tasks position) ≡ ok task
        → (task.undo k ctx).0 ≡ ok tt
    go zero e = ap (λ x. ((class_or task x).undo k ctx).0) (sym e)
    go (suc zero) e = ap (λ x. ((class_or task x).undo k ctx).0) (sym e)
    go (suc (suc n)) e = absurd (ground (arith, e))

readable :
    of_job
      (from_model lost_run)
      (context_of office_env.read_int (from_model lost_run) weekly_job none)
    ≡ ok first_ctx
unfolding from_dict new_context
readable = refl

got : Jobs.get 3 half_world.db ≡ some weekly_job
unfolding Jobs.get find
got = refl

newest : Lists.runs 3 half_world.db ≡ from_model lost_run ∷ []
unfolding Lists.runs order_by insert_by select
newest = refl

known : All (HasClass weekly_class) (to_undo office_env 3 (looked_up office_env half_world))
unfolding tasks order_by insert_by select task_for_record
known = ((λ e. (collect_task, refl)), tt)

undo-undoes_example :
    ((undo office_env 3 half_world).0 ≡ ok tt)
    × ((undo office_env 3 half_world).1.undone
        ≡ undoable (to_undo office_env 3 (looked_up office_env half_world)))
    × IsCompensated 3 (undo office_env 3 half_world).1.db
undo-undoes_example =
    undo-undoes office_env 3 weekly_class never_raises (λ k db rs h. h) 3 weekly_job
      (from_model lost_run) [] first_ctx half_world got newest refl refl readable known
