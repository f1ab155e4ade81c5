-- ===== src/Worker/Rearmed/Scheduled.antt =====
-- _reschedule of a maintained job (pyreljob/worker.py).
use pyreljob.Worker.Rearmed.Execution.{Present, Armed}
use pyreljob.Backend.Runs.{get_run}
use pyreljob.Backend.Beat.{set_next_run_at}
use pyreljob.Json.{Json}
use mathlib.Core.Option
use pyreljob.Sql.{find}
use pyreljob.Models.{
  run_key, RunModel, from_model, Time, Db, Error, JobRecord, RunRecord, Result, ok, raised,
  is_scheduled,
}
use pyreljob.Prelude.{
  ℕ, ◌≡◌, refl, sym, ap, ◌∙◌, Bool, true, false, Option, none, some, ◌⊎◌, inl, inr, arith,
}
use pyreljob.Task.{TaskContext, JobClass}
use pyreljob.Worker.Action.{Env, World, lift, transact, current_step, read, write}
use pyreljob.Worker.Failure.{rearm, reschedule, args_of}
use pyreljob.Worker.Rearmed.{is_there, has_time, set_next_run_at-IsArmed}
use pyreljob.Worker.Rules.{Ends, Ends-bind}

abbrev is_some {ℓ} : {A : Type ℓ} → Option A → Bool
is_some none = false
is_some (some x) = true

abbrev time_of : Result (Option Time) → Bool
time_of (ok at) = has_time at
time_of (raised e) = false

abbrev run_of : Result (Option RunRecord) → Bool
run_of (ok r) = is_some r
run_of (raised e) = false

is_some-get_run :
    (run_id : ℕ) (db : Db)
    → is_there (find run_key run_id db.runs) ≡ true
    → is_some (get_run run_id db) ≡ true
unfolding get_run
is_some-get_run run_id db = go (find run_key run_id db.runs)
  where
    go : (o : Option RunModel) → is_there o ≡ true → is_some (Option.map from_model o) ≡ true
    go none e = e
    go (some r) e = refl

-- The class always answers with a time, when it does not raise.
abbrev pub AlwaysAgain : JobClass → Type 0
AlwaysAgain cls =
    (step : ℕ) (args : Json) (r : RunRecord) (ctx : TaskContext)
    → ((at : Time) × (cls.next_runtime step args r ctx ≡ ok (some at)))
      ⊎ ((e : Error) × (cls.next_runtime step args r ctx ≡ raised e))

module _ (env : Env) (run_id job_id : ℕ) (still : (k : ℕ) (db : Db) → env.others k db ≡ db)
    (cls : JobClass) (again : AlwaysAgain cls) (job : JobRecord) (same : job.id ≡ job_id)
    (maintained : is_scheduled job.source ≡ true) where
  abbrev Here : World → Type 0
  Here w = Present env run_id job_id still w

  abbrev Set : World → Type 0
  Set w = Armed env run_id job_id still w

  arm-ends :
      (at : Option Time)
      → Ends
          (λ w. Here w × (has_time at ≡ true))
          (write env (λ k. set_next_run_at job.id at (env.clock k)))
          (λ u. Set)
  unfolding write
  arm-ends none = record { at = λ w h a e. absurd (ground (arith, h.1)) }
  arm-ends (some at) = record {
    at = λ w h a e.
        rw (same, still w.step w.db)
          (set_next_run_at-IsArmed job_id at (env.clock w.step) w.db h.0.1);
  }

  next_runtime-ends :
      (step : ℕ) (r : RunRecord) (ctx : TaskContext)
      → Ends Here
          (lift (cls.next_runtime step (args_of job.args) r ctx))
          (λ at w. Here w × (has_time at ≡ true))
  next_runtime-ends step r ctx = record {
    at = λ w h a e. (h, go a (again step (args_of job.args) r ctx) e);
  }
    where
      go :
          (a : Option Time)
          → ((at : Time) × (cls.next_runtime step (args_of job.args) r ctx ≡ ok (some at)))
            ⊎ ((e : Error) × (cls.next_runtime step (args_of job.args) r ctx ≡ raised e))
          → cls.next_runtime step (args_of job.args) r ctx ≡ ok a
          → has_time a ≡ true
      go a (inl (at, f)) e = ap time_of (sym e ∙ f)
      go a (inr (x, f)) e = absurd (ground (arith, sym f ∙ e))

  step-ends : {Q : World → Type 0} → Ends (λ w. Here w × Q w) current_step (λ (step : ℕ). Here)
  step-ends = record { at = λ w h a e. h.0 }

  rearm-ends :
      (ctx : TaskContext) (r : Option RunRecord)
      → Ends (λ w. Here w × (is_some r ≡ true)) (rearm env cls job ctx r) (λ u. Set)
  unfolding write
  rearm-ends ctx none = record { at = λ w h a e. absurd (ground (arith, h.1)) }
  rearm-ends ctx (some r) =
      Ends-bind current_step _ step-ends
        (λ step. Ends-bind _ _ (next_runtime-ends step r ctx) arm-ends)

  read_run-ends : Ends Here (read env (get_run run_id)) (λ r w. Here w × (is_some r ≡ true))
  unfolding read transact get_run
  read_run-ends = record {
    at = λ w h a e.
        rw (still w.step w.db)
          (h, ap run_of (sym e) ∙ rw (still w.step w.db) (is_some-get_run run_id w.db h.0));
  }

  pub reschedule-ends :
      (ctx : TaskContext) → Ends Here (reschedule env cls job run_id ctx) (λ u. Set)
  unfolding reschedule
  reschedule-ends ctx = rw maintained (Ends-bind _ _ read_run-ends (rearm-ends ctx))
