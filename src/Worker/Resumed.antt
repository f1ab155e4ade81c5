-- ===== src/Worker/Resumed.antt =====
-- What the next execution of a run finds of the context that an earlier one stored.
use mathlib.Core.Option
use pyreljob.Backend.Runs.{is_run, set_run_ctx, get_run}
use pyreljob.Json.{Json}
use pyreljob.Models.{Readings, Db, JobRecord, RunModel, RunRecord, Result, ok, from_model, run_key}
use pyreljob.Prelude.{
  ℕ, String, ◌≡◌, refl, ap, ◌∙◌, arith, Bool-cases, inl, inr, Option, none, some, ℤ, pos,
  if◌then◌else◌,
}
use pyreljob.Sql.{find}
use pyreljob.Sql.Rows.{find-update, key-find}
use pyreljob.Task.{TaskContext, as_dict}
use pyreljob.Task.RoundTrip.{restored, from_dict-as_dict}
use pyreljob.Worker.Execute.{build_ctx, for_run}

build_ctx-as_dict :
    (read : String → Result ℤ) (r : RunRecord) (ctx : TaskContext) (job : JobRecord)
    → build_ctx read (record r { ctx = some (Json.obj (as_dict ctx)) }) job
      ≡ ok (record (restored ctx) { job_id = pos r.job_id; progress = r.progress })
unfolding build_ctx as_dict
build_ctx-as_dict read r ctx job = ap (λ x. for_run r x) (from_dict-as_dict read ctx)

-- A run whose context was stored is executed with this context again, and with the id of its job and
-- the progress that the run has now; of a run that is not there nothing is read.
pub build_ctx-set_run_ctx :
    (read : String → Result ℤ) (run_id : ℕ) (ctx : TaskContext) (now : Readings) (job : JobRecord)
    (db : Db)
    → Option.map
        (λ r. build_ctx read r job)
        (get_run run_id (set_run_ctx run_id (some (Json.obj (as_dict ctx))) now db))
      ≡ Option.map
          (λ r. ok (record (restored ctx) { job_id = pos r.job_id; progress = r.progress }))
          (get_run run_id db)
unfolding get_run set_run_ctx
build_ctx-set_run_ctx read run_id ctx now job db =
    ap (λ o. Option.map (λ r. build_ctx read r job) (Option.map from_model o))
      (find-update run_key run_id (is_run run_id) _ (λ r. refl) db.runs)
    ∙ go (find run_key run_id db.runs) refl
  where
    go :
        (o : Option RunModel)
        → find run_key run_id db.runs ≡ o
        → Option.map
            (λ r. build_ctx read r job)
            (Option.map from_model (
              Option.map
                (λ r.
                  if is_run run_id r
                  then record r { ctx = some (Json.obj (as_dict ctx)); updated_at = some (now 0) }
                  else r)
                o))
          ≡ Option.map
              (λ r. ok (record (restored ctx) { job_id = pos r.job_id; progress = r.progress }))
              (Option.map from_model o)
    go none e = refl
    go (some r) e = elim (Bool-cases (is_run run_id r)) [
      | inl hit ↦ rw hit (
          ap some
            (build_ctx-as_dict read (from_model (record r { updated_at = some (now 0) })) ctx job))
      | inr miss ↦ absurd (ground (arith, miss, key-find run_key run_id db.runs r e))
    ]
