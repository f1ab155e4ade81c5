-- ===== src/Backend/Runs.antt =====
-- pyreljob/backends/sqlalchemy.py: the transitions of one run, and its lookups.
pub mod Lease
use pyreljob.Backend.Jobs.{new_run}
use pyreljob.Json.{Json}
use pyreljob.Models.{
  Time, Readings, Db, Inserted, RunModel, RunRecord, RunStatus, is_running, run_key, from_model,
  null_eq,
}
use pyreljob.Prelude.{ℕ, String, Bool, ◌&&◌, Option, none, some, [], ◌∷◌, ◌++◌, ◌==◌, Float}
use pyreljob.Sql.{update, exists, find}
use mathlib.Core.Option

-- UPDATE runs SET … WHERE ….
abbrev pub update_runs : (RunModel → Bool) → (RunModel → RunModel) → Db → Db
update_runs p f db = record db { runs = update p f db.runs }

abbrev pub is_run : ℕ → RunModel → Bool
is_run run_id r = r.id == run_id

abbrev pub is_running_run : ℕ → RunModel → Bool
is_running_run run_id r = (r.id == run_id) && is_running r.status

abbrev pub is_leased : ℕ → String → RunModel → Bool
is_leased run_id worker_id r =
    (r.id == run_id) && (null_eq r.worker_id worker_id && is_running r.status)

-- False if the lease was lost.
unfoldable pub renew_lease : ℕ → String → Readings → Db → Bool × Db
renew_lease run_id worker_id now db = (
  exists (is_leased run_id worker_id) db.runs,
  update_runs (is_leased run_id worker_id)
      (λ r. record r { locked_at = some (now 0); updated_at = some (now 1) }) db,
)

unfoldable pub complete_run : ℕ → Option Json → Readings → Db → Db
complete_run run_id result now = update_runs (is_running_run run_id) (λ r. record r {
  status = RunStatus.succeeded;
  result = result;
  finished_at = some (now 0);
  locked_at = none;
  updated_at = some (now 1);
})

-- The code does not use the parameter `attempts`.
unfoldable pub fail_run : ℕ → String → Option Time → ℕ → Readings → Db → Db
fail_run run_id error (some retry_at) attempts now = update_runs (is_running_run run_id) (λ r.
    record r {
      status = RunStatus.ready;
      error = some error;
      scheduled_at = some retry_at;
      finished_at = none;
      locked_at = none;
      worker_id = none;
      updated_at = some (now 0);
    })
fail_run run_id error none attempts now = update_runs (is_running_run run_id) (λ r. record r {
  status = RunStatus.failed;
  error = some error;
  finished_at = some (now 0);
  locked_at = none;
  updated_at = some (now 1);
})

unfoldable pub cancel_run : ℕ → Readings → Db → Db
cancel_run run_id now = update_runs (is_run run_id) (λ r. record r {
  status = RunStatus.cancelled;
  finished_at = some (now 0);
  locked_at = none;
  updated_at = some (now 1);
})

unfoldable pub set_run_ctx : ℕ → Option Json → Readings → Db → Db
set_run_ctx run_id ctx now =
    update_runs (is_run run_id) (λ r. record r { ctx = ctx; updated_at = some (now 0) })

unfoldable pub set_run_progress : ℕ → Option Float → Readings → Db → Db
set_run_progress run_id progress now =
    update_runs (is_run run_id) (λ r. record r { progress = progress; updated_at = some (now 0) })

unfoldable pub get_run : ℕ → Db → Option RunRecord
get_run run_id db = Option.map from_model (find run_key run_id db.runs)

unfoldable pub create_run : Inserted → ℕ → Option Time → Readings → Db → RunRecord × Db
unfolding new_run
create_run row job_id scheduled_at now db =
    let r = new_run row job_id scheduled_at (now 0) in
    (from_model r, record db { runs = db.runs ++ r ∷ [] })
