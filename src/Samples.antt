-- ===== src/Samples.antt =====
-- A small database: an on-demand job with a finished and a ready run, a maintained job that is due, and
-- a maintained job that is disarmed and whose only run lost its worker.
pub mod Office
use pyreljob.Backend.Jobs.{Enqueue, Schedule}
use pyreljob.Backend.Validity.{IsValid, RunIsValid}
use pyreljob.Json.{Json, Dict}
use pyreljob.Manager.Api.{JobObject, Options}
use pyreljob.Effects.{alone}
use pyreljob.Manager.{Moment, Beat}
use pyreljob.Models.{
  JobModel, RunModel, TaskModel, Db, Readings, Inserted, JobStatus, JobSource, RunStatus,
  TaskStatus,
}
use pyreljob.Prelude.{ℕ, ◌+◌, refl, none, some, [], ◌∷◌, arith, pos}
use pyreljob.Sql.{rowcount}

abbrev pub mail_job : JobModel
mail_job = record {
  id = 1;
  job = "mail";
  queue = "default";
  status = JobStatus.active;
  args = none;
  priority = pos 0;
  source = JobSource.on_demand;
  next_run_at = none;
  max_attempts = 3;
  retries = 0;
  attempts = 0;
  idempotency_key = some "mail-1";
  tags = none;
  created_at = 1;
  updated_at = none;
}

abbrev pub nightly_job : JobModel
nightly_job = record mail_job {
  id = 2;
  job = "nightly";
  priority = pos 5;
  source = JobSource.scheduled;
  next_run_at = some 50;
  idempotency_key = none;
}

abbrev pub weekly_job : JobModel
weekly_job = record nightly_job { id = 3; job = "weekly"; next_run_at = none }

abbrev pub sent_run : RunModel
sent_run = record {
  id = 1;
  job_id = 1;
  status = RunStatus.succeeded;
  result = none;
  error = none;
  ctx = none;
  worker_id = some "w1";
  progress = none;
  scheduled_at = none;
  created_at = 2;
  updated_at = some 9;
  started_at = some 3;
  finished_at = some 9;
  locked_at = none;
}

abbrev pub waiting_run : RunModel
waiting_run = record sent_run {
  id = 2;
  status = RunStatus.ready;
  worker_id = none;
  updated_at = none;
  started_at = none;
  finished_at = none;
}

abbrev pub lost_run : RunModel
lost_run = record sent_run {
  id = 3;
  job_id = 3;
  status = RunStatus.running;
  updated_at = some 10;
  started_at = some 10;
  finished_at = none;
  locked_at = some 10;
}

abbrev pub sent_task : TaskModel
sent_task = record {
  id = 1;
  run_id = 1;
  position = 0;
  task_name = "send";
  status = TaskStatus.succeeded;
  result = none;
  error = none;
  attempts = 1;
  retry_at = none;
  created_at = 4;
  updated_at = some 8;
  started_at = some 4;
  finished_at = some 8;
  compensated_at = none;
}

abbrev pub empty_db : Db
empty_db = record { jobs = []; runs = []; tasks = [] }

abbrev pub office_db : Db
office_db = record {
  jobs = mail_job ∷ nightly_job ∷ weekly_job ∷ [];
  runs = sent_run ∷ waiting_run ∷ lost_run ∷ [];
  tasks = sent_task ∷ [];
}

pub empty_db-IsValid : IsValid empty_db
unfolding rowcount
empty_db-IsValid = record {
  runs_valid = tt;
  job_ids = λ k. ground arith;
  run_ids = λ k. ground arith;
  keys = λ k. ground arith;
  positions = λ r p. ground arith;
}

sent_run-RunIsValid : RunIsValid sent_run
sent_run-RunIsValid = record {
  lease = refl;
  finish = refl;
  owned = λ e. ground arith;
  begun = λ e. ground arith;
  unowned = λ e. ground arith;
  explained = λ e. ground arith;
  clean = λ e. refl;
  clean_end = λ e. refl;
}

waiting_run-RunIsValid : RunIsValid waiting_run
waiting_run-RunIsValid = record {
  lease = refl;
  finish = refl;
  owned = λ e. ground arith;
  begun = λ e. ground arith;
  unowned = λ e. refl;
  explained = λ e. ground arith;
  clean = λ e. refl;
  clean_end = λ e. refl;
}

lost_run-RunIsValid : RunIsValid lost_run
lost_run-RunIsValid = record {
  lease = refl;
  finish = refl;
  owned = λ e. refl;
  begun = λ e. refl;
  unowned = λ e. ground arith;
  explained = λ e. ground arith;
  clean = λ e. refl;
  clean_end = λ e. refl;
}

pub office_db-IsValid : IsValid office_db
unfolding rowcount
office_db-IsValid = record {
  runs_valid = (sent_run-RunIsValid, (waiting_run-RunIsValid, (lost_run-RunIsValid, tt)));
  job_ids = λ k. ground arith;
  run_ids = λ k. ground arith;
  keys = λ k. ground arith;
  positions = λ r p. ground arith;
}

-- The clock shows `start` at the first reading, and one microsecond more at each one after it.
abbrev pub clock : ℕ → Readings
clock start k = start + k

abbrev pub new_row : ℕ → Inserted
new_row id = record { id = id; created_at = 60 }

abbrev pub mail_request : Enqueue
mail_request = record {
  job = "mail";
  args = none;
  queue = "default";
  priority = pos 0;
  scheduled_at = none;
  max_attempts = 3;
  retries = 0;
  idempotency_key = some "mail-2";
  tags = none;
}

abbrev pub nightly_schedule : Schedule
nightly_schedule = record {
  job = "report";
  queue = "default";
  args = none;
  max_attempts = 3;
  retries = 0;
  next_run_at = some 50;
  idempotency_key = none;
  tags = none;
}

abbrev pub office_beat : Beat
office_beat = record { misfire_grace = none; abandoned_grace = 0; last_claim_at = none }

abbrev pub moment : ℕ → Moment
moment k = record {
  others = alone;
  now = 60 + k;
  claimed_at = clock 60;
  created_at = clock 60;
  row = new_row (10 + k);
}

abbrev pub welcome_job : JobObject
welcome_job = record {
  job_name = "mail";
  tasks = "send" ∷ [];
  as_dict = some (Json.obj Dict.end);
  queue = "default";
  priority = pos 0;
  next_runtime = none;
}

abbrev pub no_options : Options
no_options = record {
  queue = none;
  priority = none;
  max_attempts = 3;
  retries = 0;
  idempotency_key = none;
  scheduled_at = none;
  tags = none;
}
