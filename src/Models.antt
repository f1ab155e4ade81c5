-- ===== src/Models.antt =====
-- pyreljob/models/orm.py and pyreljob/job.py: the rows of the three tables, the statuses, and the
-- records that the API returns. A status column holds one of its class's constants. An instant is
-- the number of microseconds since datetime.min; every instant is UTC (UTCDateTime).
use pyreljob.Json.{Json}
use pyreljob.Prelude.{
  ℕ, ◌*◌, String, Bool, true, false, Option, none, some, List, ◌||◌, str_eq, ℤ, Float,
}

abbrev pub Time : Type 0
Time = ℕ

-- timedelta(seconds=n)
abbrev pub seconds : ℕ → Time
seconds n = n * 1000000

pub data JobStatus : Type 0 where
  active cancelled : JobStatus

pub data JobSource : Type 0 where
  on_demand scheduled : JobSource

pub data RunStatus : Type 0 where
  ready running succeeded failed cancelled : RunStatus

pub data TaskStatus : Type 0 where
  ready running succeeded failed cancelled compensated : TaskStatus

-- Tests on a column: `status == …` and `source == …`.
abbrev pub is_active : JobStatus → Bool
is_active JobStatus.active = true
is_active JobStatus.cancelled = false

abbrev pub is_scheduled : JobSource → Bool
is_scheduled JobSource.on_demand = false
is_scheduled JobSource.scheduled = true

abbrev pub is_ready : RunStatus → Bool
is_ready RunStatus.ready = true
is_ready _ = false

abbrev pub is_running : RunStatus → Bool
is_running RunStatus.running = true
is_running _ = false

abbrev pub is_failed : RunStatus → Bool
is_failed RunStatus.failed = true
is_failed _ = false

abbrev pub is_complete : RunStatus → Bool
is_complete RunStatus.succeeded = true
is_complete _ = false

abbrev pub is_stopped : RunStatus → Bool
is_stopped RunStatus.cancelled = true
is_stopped _ = false

-- status IN (ready, running), and status IN (succeeded, failed, cancelled).
abbrev pub in_flight : RunStatus → Bool
in_flight s = is_ready s || is_running s

abbrev pub is_done : RunStatus → Bool
is_done RunStatus.succeeded = true
is_done RunStatus.failed = true
is_done RunStatus.cancelled = true
is_done _ = false

abbrev pub is_succeeded : TaskStatus → Bool
is_succeeded TaskStatus.succeeded = true
is_succeeded _ = false

pub record JobModel : Type 0 where
  pub id : ℕ
  pub job : String
  pub queue : String
  pub status : JobStatus
  pub args : Option Json
  pub priority : ℤ
  pub source : JobSource
  pub next_run_at : Option Time
  pub max_attempts : ℕ
  pub retries : ℕ
  pub attempts : ℕ
  pub idempotency_key : Option String
  pub tags : Option (List String)
  pub created_at : Time
  pub updated_at : Option Time

pub record RunModel : Type 0 where
  pub id : ℕ
  pub job_id : ℕ
  pub status : RunStatus
  pub result : Option Json
  pub error : Option String
  pub ctx : Option Json
  pub worker_id : Option String
  pub progress : Option Float
  pub scheduled_at : Option Time
  pub created_at : Time
  pub updated_at : Option Time
  pub started_at : Option Time
  pub finished_at : Option Time
  pub locked_at : Option Time

pub record TaskModel : Type 0 where
  pub id : ℕ
  pub run_id : ℕ
  pub position : ℕ
  pub task_name : String
  pub status : TaskStatus
  pub result : Option Json
  pub error : Option String
  pub attempts : ℕ
  pub retry_at : Option Time
  pub created_at : Time
  pub updated_at : Option Time
  pub started_at : Option Time
  pub finished_at : Option Time
  pub compensated_at : Option Time

-- JobRecord and TaskRecord have the fields of their models.
abbrev pub JobRecord : Type 0
JobRecord = JobModel

abbrev pub TaskRecord : Type 0
TaskRecord = TaskModel

-- RunRecord leaves the lease out.
pub record RunRecord : Type 0 where
  pub id : ℕ
  pub job_id : ℕ
  pub status : RunStatus
  pub result : Option Json
  pub error : Option String
  pub ctx : Option Json
  pub worker_id : Option String
  pub progress : Option Float
  pub scheduled_at : Option Time
  pub created_at : Time
  pub updated_at : Option Time
  pub started_at : Option Time
  pub finished_at : Option Time

abbrev pub from_model : RunModel → RunRecord
from_model m = record {
  id = m.id;
  job_id = m.job_id;
  status = m.status;
  result = m.result;
  error = m.error;
  ctx = m.ctx;
  worker_id = m.worker_id;
  progress = m.progress;
  scheduled_at = m.scheduled_at;
  created_at = m.created_at;
  updated_at = m.updated_at;
  started_at = m.started_at;
  finished_at = m.finished_at;
}

pub record RunWithJob : Type 0 where
  pub run : RunRecord
  pub job : JobRecord

-- `column == t` for a text column that may be NULL.
abbrev pub null_eq : Option String → String → Bool
null_eq none t = false
null_eq (some s) t = str_eq s t

-- The database: its three tables.
pub record Db : Type 0 where
  pub jobs : List JobModel
  pub runs : List RunModel
  pub tasks : List TaskModel

abbrev pub job_key : JobModel → ℕ
job_key j = j.id

abbrev pub run_key : RunModel → ℕ
run_key r = r.id

-- What the database fills in on an INSERT: the primary key, and CURRENT_TIMESTAMP.
pub record Inserted : Type 0 where
  pub id : ℕ
  pub created_at : Time

-- The exceptions that the modelled code raises itself, or that SQLAlchemy raises through it.
pub data Error : Type 0 where
  integrity_error multiple_results_found value_error key_error type_error attribute_error user_error
        job_cancelled_error :
      Error

pub data Result {ℓ} (A : Type ℓ) : Type ℓ where
  ok : A → Result A
  raised : Error → Result A

-- `now k` is the answer to the call number k of datetime.now() within one operation.
abbrev pub Readings : Type 0
Readings = ℕ → Time
