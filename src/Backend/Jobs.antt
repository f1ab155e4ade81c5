-- ===== src/Backend/Jobs.antt =====
-- pyreljob/backends/sqlalchemy.py: registering, cancelling and counting jobs.
pub mod Idempotent
pub mod Maintained
use pyreljob.Effects.{Call, Others, pure, raise, ◌>>=◌, reading, writing, except_integrity}
use pyreljob.Json.{Json}
use pyreljob.Models.{
  Time, Readings, Db, Inserted, JobModel, JobRecord, JobStatus, JobSource, RunModel, RunStatus,
  Error, Result, ok, raised, is_scheduled, is_active, in_flight, job_key, null_eq,
}
use pyreljob.Prelude.{
  ℕ, ◌+◌, String, Bool, true, false, ◌&&◌, Option, none, some, List, [], ◌∷◌, ◌++◌, ◌==◌, str_eq,
  if◌then◌else◌, ℤ, pos,
}
use pyreljob.Sql.{select, update, exists, find, is_null}

-- Result.scalar_one_or_none() of SQLAlchemy.
unfoldable pub scalar_one_or_none {ℓ} : {A : Type ℓ} → List A → Result (Option A)
scalar_one_or_none [] = ok none
scalar_one_or_none (x ∷ []) = ok (some x)
scalar_one_or_none (x ∷ y ∷ xs) = raised Error.multiple_results_found

abbrev pub has_key : String → JobModel → Bool
has_key key j = null_eq j.idempotency_key key

-- The unique index ux_jobs_idempotency_key, in which NULLs do not collide.
abbrev pub key_taken : Option String → List JobModel → Bool
key_taken none jobs = false
key_taken (some key) jobs = exists (has_key key) jobs

-- INSERT INTO jobs
unfoldable pub insert_job : JobModel → Db → Result Db
insert_job j db =
    if key_taken j.idempotency_key db.jobs
    then raised Error.integrity_error
    else ok (record db { jobs = db.jobs ++ j ∷ [] })

-- RunModel(job_id=…, scheduled_at=…, updated_at=…) with the column defaults.
unfoldable pub new_run : Inserted → ℕ → Option Time → Time → RunModel
new_run row job_id scheduled_at updated_at = record {
  id = row.id;
  job_id = job_id;
  status = RunStatus.ready;
  result = none;
  error = none;
  ctx = none;
  worker_id = none;
  progress = none;
  scheduled_at = scheduled_at;
  created_at = row.created_at;
  updated_at = some updated_at;
  started_at = none;
  finished_at = none;
  locked_at = none;
}

pub record Enqueue : Type 0 where
  pub job : String
  pub args : Option Json
  pub queue : String
  pub priority : ℤ
  pub max_attempts : ℕ
  pub retries : ℕ
  pub idempotency_key : Option String
  pub scheduled_at : Option Time
  pub tags : Option (List String)

unfoldable pub enqueued_job : Enqueue → Inserted → Time → JobModel
enqueued_job q row updated_at = record {
  id = row.id;
  job = q.job;
  queue = q.queue;
  status = JobStatus.active;
  args = q.args;
  priority = q.priority;
  source = JobSource.on_demand;
  next_run_at = none;
  max_attempts = q.max_attempts;
  retries = q.retries;
  attempts = 0;
  idempotency_key = q.idempotency_key;
  tags = q.tags;
  created_at = row.created_at;
  updated_at = some updated_at;
}

unfoldable pub find_by_idempotency_key : String → Db → Result (Option JobRecord)
unfolding scalar_one_or_none
find_by_idempotency_key key db = scalar_one_or_none (select (has_key key) db.jobs)

-- The transaction of enqueue that inserts the job and its first run.
unfoldable pub insert_with_run : JobModel → RunModel → Db → Result (JobRecord × Db)
unfolding insert_job
insert_with_run j r db = elim (insert_job j db) [
  | ok db' ↦ ok (j, record db' { runs = db'.runs ++ r ∷ [] })
  | raised e ↦ raised e
]

abbrev pub find_key : Others → ℕ → Option String → Call (Option JobRecord)
find_key others k none = pure none
find_key others k (some key) = reading others k (find_by_idempotency_key key)

abbrev pub or_else : Option JobRecord → Call JobRecord → Call JobRecord
or_else (some j) m = pure j
or_else none m = m

-- `row` and `run_row` are what the database fills in on the two rows.
unfoldable pub enqueue : Others → Inserted → Inserted → Readings → Enqueue → Call JobRecord
unfolding enqueued_job new_run find_by_idempotency_key insert_with_run
enqueue others row run_row now q = do
  existing ← find_key others 0 q.idempotency_key
  or_else existing (
      except_integrity
        (writing others 1 (
          insert_with_run (enqueued_job q row (now 0))
            (new_run run_row row.id q.scheduled_at (now 1))))
        do
          winner ← find_key others 2 q.idempotency_key
          or_else winner (raise Error.integrity_error))

pub record Schedule : Type 0 where
  pub job : String
  pub args : Option Json
  pub queue : String
  pub max_attempts : ℕ
  pub retries : ℕ
  pub next_run_at : Option Time
  pub tags : Option (List String)
  pub idempotency_key : Option String

-- _key_matches: a WHERE clause that is aware of NULL.
abbrev pub key_matches : Option String → JobModel → Bool
key_matches none j = is_null j.idempotency_key
key_matches (some key) j = has_key key j

abbrev pub is_maintained : String → Option String → JobModel → Bool
is_maintained job key j = str_eq j.job job && is_scheduled j.source && key_matches key j

unfoldable pub scheduled_job : Schedule → Inserted → Time → JobModel
scheduled_job s row updated_at = record {
  id = row.id;
  job = s.job;
  queue = s.queue;
  status = JobStatus.active;
  args = s.args;
  priority = pos 0;
  source = JobSource.scheduled;
  next_run_at = s.next_run_at;
  max_attempts = s.max_attempts;
  retries = s.retries;
  attempts = 0;
  idempotency_key = s.idempotency_key;
  tags = s.tags;
  created_at = row.created_at;
  updated_at = some updated_at;
}

unfoldable pub insert_alone : JobModel → Db → Result (JobRecord × Db)
unfolding insert_job
insert_alone j db = elim (insert_job j db) [ ok db' ↦ ok (j, db') | raised e ↦ raised e ]

unfoldable pub schedule : Others → Inserted → Readings → Schedule → Call JobRecord
unfolding scalar_one_or_none scheduled_job insert_alone
schedule others row now s = do
  existing ←
      reading others 0
        (λ db. scalar_one_or_none (select (is_maintained s.job s.idempotency_key) db.jobs))
  or_else existing (writing others 1 (insert_alone (scheduled_job s row (now 0))))

unfoldable pub get : ℕ → Db → Option JobRecord
get job_id db = find job_key job_id db.jobs

unfoldable pub cancel_job : ℕ → Readings → Db → Db
cancel_job job_id now db = record db {
  jobs =
      update (λ j. j.id == job_id)
        (λ j. record j { status = JobStatus.cancelled; updated_at = some (now 0) }) db.jobs;
  runs =
      update (λ r. (r.job_id == job_id) && in_flight r.status)
        (λ r. record r {
          status = RunStatus.cancelled;
          finished_at = some (now 1);
          locked_at = none;
          updated_at = some (now 2);
        })
        db.runs;
}

unfoldable pub is_job_cancelled : ℕ → Db → Bool
is_job_cancelled job_id db = elim (find job_key job_id db.jobs) [
  | none ↦ false
  | some j ↦ elim j.status [ JobStatus.cancelled ↦ true | JobStatus.active ↦ false ]
]

-- UPDATE … RETURNING attempts.
unfoldable pub increment_job_attempts : ℕ → Readings → Db → ℕ × Db
increment_job_attempts job_id now db =
    let jobs' =
      update (λ j. j.id == job_id)
        (λ j. record j { attempts = j.attempts + 1; updated_at = some (now 0) }) db.jobs in
    (
      elim (find job_key job_id jobs') [ none ↦ 0 | some j ↦ j.attempts ],
      record db { jobs = jobs' },
    )

unfoldable pub reset_job_attempts : ℕ → Readings → Db → Db
reset_job_attempts job_id now db = record db {
  jobs =
      update (λ j. j.id == job_id) (λ j. record j { attempts = 0; updated_at = some (now 0) })
        db.jobs;
}
