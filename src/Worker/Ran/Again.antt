-- ===== src/Worker/Ran/Again.antt =====
-- A task that was running when its worker died.
use mathlib.Core.Option.{some-injective}
use pyreljob.Backend.Tasks.{start_task}
use pyreljob.Models.{Db, JobRecord, TaskRecord, TaskStatus, ok}
use pyreljob.Prelude.{
  ℕ, zero, suc, ◌+◌, ◌≡◌, refl, ap, arith, Option, some, List, [], ◌∷◌, ◌++◌, inl, inr, length,
  drop, get_elem?,
}
use pyreljob.Task.{TaskContext, TaskClass, JobClass}
use pyreljob.Worker.Action.{Env, World, write_or_raise}
use pyreljob.Worker.Attempt.{attempts_of, run_task}
use pyreljob.Worker.Execute.{record_at, first_open, run_tasks, resume}
use pyreljob.Worker.Ran.{positions, starting, run_task-ran, after_attempt-ran, run_tasks-ran}

drop-get_elem? :
    {A : Type 0} (k : ℕ) (xs : List A) (x : A)
    → get_elem? xs k ≡ some x
    → (rest : List A) × drop k xs ≡ x ∷ rest
drop-get_elem? k [] x e = absurd (ground (arith, e))
drop-get_elem? zero (y ∷ xs) x e = (xs, ap (λ z. z ∷ xs) (some-injective y x e))
drop-get_elem? (suc k) (y ∷ xs) x e = drop-get_elem? k xs x e

module _ (env : Env) (run_id : ℕ) (cls : JobClass) (job : JobRecord) where
  starting-returns :
      (position : ℕ) (task : TaskClass) (existing : Option TaskRecord) (w : World) (db : Db)
      → start_task
          (env.inserted w.step).id
          run_id
          position
          task.task_name
          (attempts_of existing + 1)
          (env.clock w.step)
          (env.others w.step w.db)
        ≡ ok db
      → (starting env run_id cls job position task existing w).0 ≡ ok tt
  unfolding write_or_raise
  starting-returns position task existing w db e = rw e refl

  run_tasks-again :
      (records : List TaskRecord) (position : ℕ) (task : TaskClass) (rest : List TaskClass)
      (ctx : TaskContext) (w : World) (db : Db)
      → start_task
          (env.inserted w.step).id
          run_id
          position
          task.task_name
          (attempts_of (record_at position records) + 1)
          (env.clock w.step)
          (env.others w.step w.db)
        ≡ ok db
      → (n : ℕ) × (run_tasks env run_id cls job records position (task ∷ rest) ctx w).1.ran
          ≡ w.ran ++ positions position (suc n)
  unfolding run_tasks
  run_tasks-again records position task rest ctx w db started =
      elim (run_task-ran env run_id cls job ctx position task (record_at position records) w) [
        | inl h ↦
            let more =
              after_attempt-ran env run_id cls job _ position (length rest) w.ran
                (run_task env run_id cls job ctx position task (record_at position records) w).0
                (run_task env run_id cls job ctx position task (record_at position records) w).1 h
                (run_tasks-ran env run_id cls job records (suc position) rest) in
            (more.0, more.1)
        | inr h ↦ absurd (
            ground (
              arith,
              h.2,
              starting-returns position task (record_at position records) w db started,
            ))
      ]

  -- A task that was running when its worker died is run again, however many attempts it has had and
  -- however few it may have: the budget stops only a task that failed. Its record is the first one that
  -- has not succeeded, and start_task does not raise.
  pub resume-again :
      (records : List TaskRecord) (ctx : TaskContext) (w : World) (task : TaskClass)
      (r : TaskRecord) (db : Db)
      → get_elem? cls.tasks (first_open cls.tasks 0 records) ≡ some task
      → record_at (first_open cls.tasks 0 records) records ≡ some r
      → r.status ≡ TaskStatus.running
      → start_task
          (env.inserted w.step).id
          run_id
          (first_open cls.tasks 0 records)
          task.task_name
          (r.attempts + 1)
          (env.clock w.step)
          (env.others w.step w.db)
        ≡ ok db
      → (n : ℕ) × (resume env run_id cls job records ctx w).1.ran
          ≡ w.ran ++ positions (first_open cls.tasks 0 records) (suc n)
  unfolding resume
  resume-again records ctx w task r db here interrupted running started =
      let rest = drop-get_elem? (first_open cls.tasks 0 records) cls.tasks task here in
      let more =
        run_tasks-again records (first_open cls.tasks 0 records) task rest.0 ctx w db
          (rw interrupted started) in
      (more.0, rw (here, interrupted, running, rest.1) more.1)
