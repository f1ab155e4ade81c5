-- ===== src/Samples/Office.antt =====
-- A worker for the sample database, and a job class of two tasks.
use pyreljob.Effects.{alone}
use pyreljob.Json.{Json, Dict}
use pyreljob.Models.{TaskModel, Error, ok, raised}
use pyreljob.Prelude.{◌+◌, true, none, some, [], ◌∷◌, pos}
use pyreljob.Samples.{office_db, sent_task, clock, new_row}
use pyreljob.Task.{TaskContext, TaskClass, JobClass, Outcome}
use pyreljob.Worker.Action.{Env, World}

abbrev pub collect_task : TaskClass
collect_task = record {
  name = "Collect";
  task_name = "app.Collect";
  max_attempts = none;
  run = λ k ctx. record { reports = []; ctx = ctx; outcome = Outcome.returned Json.null };
  undo = λ k ctx. (ok tt, ctx);
}

abbrev pub send_task : TaskClass
send_task = record collect_task {
  name = "Send";
  task_name = "app.Send";
  run = λ k ctx. record { reports = []; ctx = ctx; outcome = Outcome.failed "OSError: refused" };
}

abbrev pub weekly_class : JobClass
weekly_class = record {
  tasks = collect_task ∷ send_task ∷ [];
  next_runtime = λ k args r ctx. ok (some 500);
}

abbrev pub office_env : Env
office_env = record {
  others = alone;
  clock = λ k. clock (100 + k);
  now = λ k. 100 + k;
  inserted = λ k. new_row (20 + k);
  backoff = λ n k. 1;
  registry = λ name. none;
  resolve_job = λ name. some weekly_class;
  read_int = λ s. raised Error.value_error;
  repr = λ s. s;
}

abbrev pub unknown_env : Env
unknown_env = record office_env { resolve_job = λ name. none }

abbrev pub office_world : World
office_world = record { db = office_db; step = 0; active = (7, 1) ∷ []; ran = []; undone = [] }

abbrev pub collected : TaskModel
collected = record sent_task { id = 2; run_id = 3 }

abbrev pub half_world : World
half_world = record office_world { db = record office_db { tasks = sent_task ∷ collected ∷ [] } }

abbrev pub weekly_ctx : TaskContext
weekly_ctx = record {
  job_id = pos 3;
  job = Json.text "weekly";
  args = Json.null;
  results = Json.obj (Dict.entry "Collect" Json.null Dict.end);
  state = Json.null;
  cancelled = true;
  progress = none;
}
