-- ===== src/Worker/Execute.antt =====
-- pyreljob/worker.py: one execution of a claimed run, _run and _execute.
use pyreljob.Backend.Jobs.{get, reset_job_attempts}
use pyreljob.Backend.Runs.{fail_run, cancel_run, complete_run}
use pyreljob.Backend.Tasks.{tasks}
use pyreljob.Json.{Json, Dict}
use pyreljob.Json.Values.{empty_obj, truthy}
use pyreljob.Models.{
  JobRecord, RunRecord, TaskRecord, TaskStatus, Error, Result, ok, raised, is_active, is_succeeded,
}
use pyreljob.Prelude.{
  ℕ, suc, String, Bool, true, false, not, ◌&&◌, Option, none, some, List, [], ◌∷◌, ◌==◌, leb, drop,
  get_elem?, if◌then◌else◌, str_eq, pos, ℤ,
}
use Prim.Native.String.{◌++◌}
use pyreljob.Sql.{select}
use pyreljob.Task.{TaskContext, TaskClass, JobClass, new_context, from_dict, as_dict}
use pyreljob.Worker.Action.{
  Env, World, Action, pure, lift, ◌>>=◌, ◌>>◌, finally, catch, read, write,
}
use pyreljob.Worker.Attempt.{Verdict, task_budget, run_task, save_ctx}
use pyreljob.Worker.Failure.{args_of, compensate, finalize_failed, reschedule, reschedule_on_error}

-- `TaskContext.from_dict(run.ctx) if run.ctx else TaskContext(…)`. A value that is no dict has no get.
abbrev pub stored_context : (String → Result ℤ) → RunRecord → JobRecord → Json → Result TaskContext
stored_context read run job (Json.obj (Dict.entry k v d)) = from_dict read (Dict.entry k v d)
stored_context read run job v =
    if truthy v
    then raised Error.attribute_error
    else ok
        (new_context (pos run.job_id) (Json.text job.job) (args_of job.args) empty_obj empty_obj)

abbrev pub context_of :
    (String → Result ℤ) → RunRecord → JobRecord → Option Json → Result TaskContext
context_of read run job none = stored_context read run job Json.null
context_of read run job (some v) = stored_context read run job v

abbrev pub for_run : RunRecord → Result TaskContext → Result TaskContext
for_run run (raised e) = raised e
for_run run (ok ctx) = ok (record ctx { job_id = pos run.job_id; progress = run.progress })

unfoldable pub build_ctx : (String → Result ℤ) → RunRecord → JobRecord → Result TaskContext
unfolding from_dict
build_ctx read run job = for_run run (context_of read run job run.ctx)

-- `{record.position: record for record in records}.get(position)`: of two the last.
unfoldable pub record_at : ℕ → List TaskRecord → Option TaskRecord
record_at position [] = none
record_at position (r ∷ rs) = elim (record_at position rs) [
  | some s ↦ some s
  | none ↦ if r.position == position then some r else none
]

abbrev pub is_open : Option TaskRecord → Bool
is_open none = true
is_open (some r) = not (is_succeeded r.status)

-- The first position whose task has not succeeded, counted from `i`.
unfoldable pub first_open : List TaskClass → ℕ → List TaskRecord → ℕ
unfolding record_at
first_open [] i records = i
first_open (t ∷ ts) i records =
    let later = first_open ts (suc i) records in if is_open (record_at i records) then i else later

abbrev pub is_failed_task : TaskStatus → Bool
is_failed_task TaskStatus.failed = true
is_failed_task _ = false

-- The task at the start has failed as often as it may.
abbrev pub is_exhausted : JobRecord → Option TaskClass → Option TaskRecord → Bool
unfolding task_budget
is_exhausted job (some task) (some r) =
    is_failed_task r.status && leb (task_budget task job) r.attempts
is_exhausted job _ _ = false

-- `existing.error or "task exhausted"`
abbrev pub error_of : Option TaskRecord → String
error_of (some r) = elim r.error [
  | none ↦ "task exhausted"
  | some e ↦ if str_eq e "" then "task exhausted" else e
]
error_of none = "task exhausted"

-- _active[run_id] = (job_id, …), and _active.pop(run_id, None).
unfoldable pub put_active : ℕ → ℕ → List (ℕ × ℕ) → List (ℕ × ℕ)
put_active run_id job_id [] = (run_id, job_id) ∷ []
put_active run_id job_id ((k, j) ∷ rest) =
    if k == run_id then (run_id, job_id) ∷ rest else (k, j) ∷ put_active run_id job_id rest

unfoldable pub pop_active : ℕ → List (ℕ × ℕ) → List (ℕ × ℕ)
pop_active run_id entries = select (λ p. not (p.0 == run_id)) entries

abbrev pub start_active : ℕ → ℕ → Action (Unit {0})
unfolding put_active
start_active run_id job_id w = (ok tt, record w { active = put_active run_id job_id w.active })

abbrev pub stop_active : ℕ → World → World
unfolding pop_active
stop_active run_id w = record w { active = pop_active run_id w.active }

-- _resolve. An imported class is registered, which is a cache of resolve_job.
unfoldable pub resolve : Env → String → Option JobClass
resolve env name = elim (env.registry name) [ some cls ↦ some cls | none ↦ env.resolve_job name ]

module _ (env : Env) where
  -- After the last task.
  unfoldable pub finish : ℕ → JobClass → JobRecord → TaskContext → Action (Unit {0})
  unfolding write reschedule
  finish run_id cls job ctx = do
    write env (λ k. complete_run run_id (some ctx.results) (env.clock k))
    write env (λ k. reset_job_attempts job.id (env.clock k))
    reschedule env cls job run_id ctx

  unfoldable pub after_attempt :
      ℕ
      → JobClass
      → JobRecord
      → (TaskContext → Action (Unit {0}))
      → Verdict × TaskContext
      → Action (Unit {0})
  unfolding reschedule
  after_attempt run_id cls job rest (Verdict.succeeded, ctx) = rest ctx
  after_attempt run_id cls job rest (Verdict.stopped, ctx) = pure tt
  after_attempt run_id cls job rest (Verdict.retrying, ctx) = pure tt
  after_attempt run_id cls job rest (Verdict.gave_up, ctx) = reschedule env cls job run_id ctx

  -- The loop over the tasks from `position` on.
  unfoldable pub run_tasks :
      ℕ
      → JobClass
      → JobRecord
      → List TaskRecord
      → ℕ
      → List TaskClass
      → TaskContext
      → Action (Unit {0})
  unfolding run_task record_at finish after_attempt
  run_tasks run_id cls job records position [] ctx = finish run_id cls job ctx
  run_tasks run_id cls job records position (task ∷ rest) ctx =
      run_task env run_id cls job ctx position task (record_at position records)
      >>= after_attempt run_id cls job
          (λ ctx'. run_tasks run_id cls job records (suc position) rest ctx')

  -- A worker gave the task up and died before it finalized the run.
  unfoldable pub finish_failed : ℕ → JobClass → JobRecord → TaskContext → String → Action (Unit {0})
  unfolding write as_dict compensate finalize_failed reschedule
  finish_failed run_id cls job ctx error = do
    save_ctx env run_id ctx
    ctx' ← compensate env run_id cls ctx
    finalize_failed env job run_id error
    reschedule env cls job run_id ctx'

  -- The body of the try block of _run.
  unfoldable pub resume :
      ℕ → JobClass → JobRecord → List TaskRecord → TaskContext → Action (Unit {0})
  unfolding first_open record_at task_budget finish_failed run_tasks
  resume run_id cls job records ctx =
      let start = first_open cls.tasks 0 records in
      let existing = record_at start records in
      if is_exhausted job (get_elem? cls.tasks start) existing
      then finish_failed run_id cls job ctx (error_of existing)
      else run_tasks run_id cls job records start (drop start cls.tasks) ctx

  unfoldable pub run_class : RunRecord → JobRecord → Option JobClass → Action (Unit {0})
  unfolding write read build_ctx put_active pop_active resume
  run_class run job none =
      write env
        (λ k. fail_run run.id ("No class registered for " ++ env.repr job.job) none 1 (env.clock k))
  run_class run job (some cls) = do
    ctx ← lift (build_ctx env.read_int run job)
    records ← read env (tasks run.id)
    finally (start_active run.id run.job_id >> resume run.id cls job records ctx)
        (stop_active run.id)

  unfoldable pub run_job : RunRecord → Option JobRecord → Action (Unit {0})
  unfolding write resolve run_class
  run_job run none = write env (λ k. fail_run run.id "job no longer exists" none 1 (env.clock k))
  run_job run (some job) =
      if not (is_active job.status)
      then write env (λ k. cancel_run run.id (env.clock k))
      else run_class run job (resolve env job.job)

  -- _run
  unfoldable pub run : RunRecord → Action (Unit {0})
  unfolding read run_job
  run r = read env (get r.job_id) >>= run_job r

  -- `except Exception` of _execute
  unfoldable pub on_unhandled : RunRecord → Action (Unit {0})
  unfolding write reschedule_on_error
  on_unhandled r = do
    write env (λ k. fail_run r.id "unhandled error" none 1 (env.clock k))
    reschedule_on_error env r

  -- _execute
  unfoldable pub execute : RunRecord → Action (Unit {0})
  unfolding run on_unhandled
  execute r = catch (run r) (on_unhandled r)
