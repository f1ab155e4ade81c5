-- ===== src/Manager/Undo.antt =====
-- pyreljob/manager.py: JobManager.undo, the compensation of a job's last run on request. Its steps are
-- the worker's; unlike there, an exception of undo ends it.
use mathlib.Core.List.{reverse}
use pyreljob.Backend.Jobs
use pyreljob.Backend.Lists
use pyreljob.Backend.Tasks.{tasks, compensate_task}
use pyreljob.Models.{Db, JobRecord, RunRecord, TaskRecord, Error, Result, ok, raised, is_succeeded}
use pyreljob.Prelude.{
  ℕ, suc, ◌++◌, ◌≡◌, refl, Option, none, some, List, [], ◌∷◌, pos, All, Bool-cases, inl, inr,
  if◌then◌else◌,
}
use pyreljob.Task.{TaskContext, TaskClass, JobClass, from_dict, task_for_record}
use pyreljob.Worker.Action.{
  Env, World, Action, pure, lift, continue, ◌>>=◌, ◌>>◌, current_step, note_undo, read, write,
  transact,
}
use pyreljob.Worker.Compensated.{
  HasClass, IsCompensated, undoable, to_undo, compensate-undoes, IsCovered,
}
use pyreljob.Worker.Execute.{context_of}
use pyreljob.Worker.Failure.{compensate_one, compensate_all, compensate}

-- `await task_cls().undo(ctx)`
abbrev pub awaited : Result (Unit {0}) × TaskContext → Action TaskContext
awaited (ok u, ctx) = pure ctx
awaited (raised e, ctx) = lift (raised e)

abbrev pub of_job : RunRecord → Result TaskContext → Result TaskContext
of_job run (raised e) = raised e
of_job run (ok ctx) = ok (record ctx { job_id = pos run.job_id })

module _ (env : Env) where
  unfoldable pub undo_one : ℕ → JobClass → TaskRecord → TaskContext → Action TaskContext
  unfolding write task_for_record
  undo_one run_id cls r ctx =
      if is_succeeded r.status
      then (do
        task ← lift (task_for_record r cls)
        step ← current_step
        note_undo r.position
        ctx' ← awaited (task.undo step ctx)
        write env (λ k. compensate_task run_id r.position (env.clock k))
        pure ctx')
      else pure ctx

  unfoldable pub undo_all : ℕ → JobClass → List TaskRecord → TaskContext → Action TaskContext
  unfolding undo_one
  undo_all run_id cls [] ctx = pure ctx
  undo_all run_id cls (r ∷ rs) ctx = undo_one run_id cls r ctx >>= undo_all run_id cls rs

  unfoldable pub undo_run : JobRecord → Option JobClass → RunRecord → Action TaskContext
  unfolding undo_all read from_dict
  undo_run job none run = lift (raised Error.value_error)
  undo_run job (some cls) run = do
    ctx ← lift (of_job run (context_of env.read_int run job run.ctx))
    records ← read env (tasks run.id)
    undo_all run.id cls (reverse records) ctx

  -- The newest run comes first.
  unfoldable pub undo_last : JobRecord → List RunRecord → Action (Unit {0})
  unfolding undo_run
  undo_last job [] = pure tt
  undo_last job (run ∷ runs) = do ctx ← undo_run job (env.resolve_job job.job) run; pure tt

  unfoldable pub undo_found : ℕ → Option JobRecord → Action (Unit {0})
  unfolding read undo_last
  undo_found job_id none = lift (raised Error.key_error)
  undo_found job_id (some job) = read env (Lists.runs job_id) >>= undo_last job

  unfoldable pub undo : ℕ → Action (Unit {0})
  unfolding read undo_found
  undo job_id = read env (Jobs.get job_id) >>= undo_found job_id

-- The world in which the tasks of the newest run are looked up.
abbrev pub looked_up : Env → World → World
looked_up env w = record w {
  db = env.others (suc w.step) (env.others w.step w.db);
  step = suc (suc w.step);
}

module _ (env : Env) (run_id : ℕ) (cls : JobClass)
    (returns : (r : TaskRecord) (task : TaskClass) (k : ℕ) (ctx : TaskContext)
      → task_for_record r cls ≡ ok task
      → (task.undo k ctx).0 ≡ ok tt) where
  undo_one-compensate_one :
      (r : TaskRecord) (ctx : TaskContext) (w : World)
      → undo_one env run_id cls r ctx w ≡ compensate_one env run_id cls r ctx w
  unfolding undo_one compensate_one
  undo_one-compensate_one r ctx w = elim (Bool-cases (is_succeeded r.status)) [
    | inl e ↦ rw e (go (task_for_record r cls) refl)
    | inr e ↦ rw e refl
  ]
    where
      after : TaskClass → Action TaskContext
      after task = do
        step ← current_step
        note_undo r.position
        ctx' ← awaited (task.undo step ctx)
        write env (λ k. compensate_task run_id r.position (env.clock k))
        pure ctx'

      after' : TaskClass → Action TaskContext
      after' task = do
        step ← current_step
        note_undo r.position
        write env (λ k. compensate_task run_id r.position (env.clock k))
        pure (task.undo step ctx).1

      go :
          (x : Result TaskClass)
          → task_for_record r cls ≡ x
          → continue x after w ≡ continue x after' w
      go (raised e) known = refl
      go (ok task) known = rw (returns r task w.step ctx known) refl

  undo_all-compensate_all :
      (rs : List TaskRecord) (ctx : TaskContext) (w : World)
      → undo_all env run_id cls rs ctx w ≡ compensate_all env run_id cls rs ctx w
  unfolding undo_all compensate_all
  undo_all-compensate_all [] ctx w = refl
  undo_all-compensate_all (r ∷ rs) ctx w = rw (undo_one-compensate_one r ctx w) (
      go (compensate_one env run_id cls r ctx w).0 (compensate_one env run_id cls r ctx w).1
        (undo_all-compensate_all rs))
    where
      go :
          (x : Result TaskContext) (w' : World)
          → ((ctx' : TaskContext) (v : World)
              → undo_all env run_id cls rs ctx' v ≡ compensate_all env run_id cls rs ctx' v)
          → continue x (undo_all env run_id cls rs) w'
            ≡ continue x (compensate_all env run_id cls rs) w'
      go (ok ctx') w' ih = ih ctx' w'
      go (raised e) w' ih = refl

  -- Where no undo of the class raises and the context can be read, undoing a run by hand does to the
  -- database, the context and the user's code what the worker's compensation of the run does.
  pub undo_run-compensate :
      (job : JobRecord) (run : RunRecord) (ctx : TaskContext) (w : World)
      → run.id ≡ run_id
      → of_job run (context_of env.read_int run job run.ctx) ≡ ok ctx
      → undo_run env job (some cls) run w ≡ compensate env run_id cls ctx w
  unfolding undo_run compensate read transact
  undo_run-compensate job run ctx w same readable =
      rw (same, readable)
        (undo_all-compensate_all (reverse (tasks run_id (env.others w.step w.db))) ctx _)

  module _
      (quiet : (k : ℕ) (db : Db) (rs : List TaskRecord)
        → All (IsCovered run_id rs) db.tasks
        → All (IsCovered run_id rs) (env.others k db).tasks) where
    -- If the job is there, its newest run is this one and has a context that can be read, and its class
    -- is found, then every task of the run that has succeeded is undone, the last position first, and
    -- none is succeeded afterwards; if no undo raises, each of the tasks has its class in the job, and
    -- no other client marks a task of the run as succeeded.
    pub undo-undoes :
        (job_id : ℕ) (job : JobRecord) (run : RunRecord) (runs : List RunRecord) (ctx : TaskContext)
        (w : World)
        → Jobs.get job_id (env.others w.step w.db) ≡ some job
        → Lists.runs job_id (looked_up env w).db ≡ run ∷ runs
        → run.id ≡ run_id
        → env.resolve_job job.job ≡ some cls
        → of_job run (context_of env.read_int run job run.ctx) ≡ ok ctx
        → All (HasClass cls) (to_undo env run_id (looked_up env w))
        → ((undo env job_id w).0 ≡ ok tt)
          × ((undo env job_id w).1.undone
              ≡ w.undone ++ undoable (to_undo env run_id (looked_up env w)))
          × IsCompensated run_id (undo env job_id w).1.db
    unfolding undo undo_found undo_last read transact
    undo-undoes job_id job run runs ctx w found newest same resolved readable known =
        rw
          (found, newest, resolved, undo_run-compensate job run ctx (looked_up env w) same readable)
          (let c = compensate-undoes env run_id cls quiet ctx (looked_up env w) known in
            rw c.0.1 (refl, c.1, c.2))
