-- ===== src/Manager/Api.antt =====
-- pyreljob/manager.py: what JobManager does before it calls the backend, and validate_job of
-- pyreljob/task.py. The type of a job object is the interpreter's to check.
use pyreljob.Backend.Cleanup.{delete_job, prune_runs}
use pyreljob.Backend.Jobs
use pyreljob.Backend.Jobs.{Enqueue, Schedule}
use pyreljob.Backend.Jobs.Idempotent.{enqueue-idempotent}
use pyreljob.Effects.{Call, Others, alone, raise}
use pyreljob.Json.{Json}
use pyreljob.Models.{Time, Readings, Db, Inserted, JobRecord, Error, Result, ok, raised}
use pyreljob.Prelude.{
  ℕ, ◌-◌, String, ◌≡◌, sym, ap, ◌∙◌, Option, none, some, List, [], ◌∷◌, ℤ, str_eq, if◌then◌else◌,
}

-- What the framework asks of a user's job object. as_dict is none if it raises TypeError or
-- NotImplementedError, and next_runtime is the answer to next_runtime(None, ctx).
pub record JobObject : Type 0 where
  pub job_name : String
  pub tasks : List String
  pub as_dict : Option Json
  pub queue : String
  pub priority : ℤ
  pub next_runtime : Option Time

-- The keyword arguments of enqueue.
pub record Options : Type 0 where
  pub queue : Option String
  pub priority : Option ℤ
  pub max_attempts : ℕ
  pub retries : ℕ
  pub idempotency_key : Option String
  pub scheduled_at : Option Time
  pub tags : Option (List String)

-- What validate_job raises, and what as_dict returns after it.
abbrev pub serialized : Option Json → Result Json
serialized none = raised Error.type_error
serialized (some args) = ok args

unfoldable pub validate_job : JobObject → Result Json
validate_job job = elim job.tasks [ [] ↦ raised Error.value_error | _ ∷ _ ↦ serialized job.as_dict ]

-- `queue or job.queue`
abbrev pub queue_of : Option String → JobObject → String
queue_of none job = job.queue
queue_of (some queue) job = if str_eq queue "" then job.queue else queue

-- `priority if priority is not None else job.priority`
abbrev pub priority_of : Option ℤ → JobObject → ℤ
priority_of none job = job.priority
priority_of (some priority) job = priority

abbrev pub request_of : JobObject → Json → Options → Enqueue
request_of job args o = record {
  job = job.job_name;
  args = some args;
  queue = queue_of o.queue job;
  priority = priority_of o.priority job;
  max_attempts = o.max_attempts;
  retries = o.retries;
  idempotency_key = o.idempotency_key;
  scheduled_at = o.scheduled_at;
  tags = o.tags;
}

abbrev pub validated : Result Json → (Json → Call JobRecord) → Call JobRecord
validated (raised e) f = raise e
validated (ok args) f = f args

unfoldable pub enqueue :
    Others → Inserted → Inserted → Readings → JobObject → Options → Call JobRecord
unfolding validate_job
enqueue others row run_row now job o =
    validated (validate_job job)
      (λ args. Jobs.enqueue others row run_row now (request_of job args o))

-- schedule has no priority and no scheduled_at.
unfoldable pub schedule : Others → Inserted → Readings → JobObject → Options → Call JobRecord
unfolding validate_job
schedule others row now job o = validated (validate_job job) (λ args.
    Jobs.schedule others row now (record {
      job = job.job_name;
      args = some args;
      queue = queue_of o.queue job;
      max_attempts = o.max_attempts;
      retries = o.retries;
      next_run_at = job.next_runtime;
      tags = o.tags;
      idempotency_key = o.idempotency_key;
    }))

unfoldable pub cancel : ℕ → Readings → Db → Db
cancel job_id now db = Jobs.cancel_job job_id now db

unfoldable pub delete : Others → ℕ → Call (Unit {0})
delete others job_id = delete_job others job_id

unfoldable pub prune : Others → Time → Time → Call ℕ
prune others older_than now = prune_runs others (now - older_than)

-- Enqueueing a valid job object under a key that an earlier enqueue got a job for returns that job and
-- changes nothing, whichever valid job objects and options the two calls had besides the key, if nobody
-- else writes during the second.
pub enqueue-repeated :
    (others : Others) (row run_row row' run_row' : Inserted) (now now' : Readings) (key : String)
    (job job' : JobObject) (o o' : Options) (args args' : Json) (db db' : Db) (j : JobRecord)
    → validate_job job ≡ ok args
    → validate_job job' ≡ ok args'
    → enqueue others row run_row now job (record o { idempotency_key = some key }) db ≡ (ok j, db')
    → enqueue alone row' run_row' now' job' (record o' { idempotency_key = some key }) db'
      ≡ (ok j, db')
unfolding enqueue
enqueue-repeated others row run_row row' run_row' now now' key job job' o o' args args' db db' j a
      a' h =
    ap
      (λ r.
        validated r
          (λ x.
            Jobs.enqueue alone row' run_row' now'
              (request_of job' x (record o' { idempotency_key = some key })))
          db')
      a'
    ∙ enqueue-idempotent others row run_row row' run_row' now now' key (request_of job args o)
        (request_of job' args' o') db db' j
        (ap
            (λ r.
              validated r
                (λ x.
                  Jobs.enqueue others row run_row now
                    (request_of job x (record o { idempotency_key = some key })))
                db)
            (sym a)
          ∙ h)
