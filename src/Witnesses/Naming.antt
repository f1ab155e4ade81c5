-- ===== src/Witnesses/Naming.antt =====
-- The names of classes, the registry of a worker, and a worker that executes one run.
use pyreljob.Models.{ok}
use pyreljob.Prelude.{ℕ, ◌≡◌, refl, none, some, [], ◌∷◌, map, str_eq, if◌then◌else◌, arith}
use pyreljob.Samples.{office_db-IsValid}
use pyreljob.Samples.Office.{office_env, office_world}
use pyreljob.Task.Resolve.Named.{resolve_class-job_name}
use pyreljob.Task.Resolve.{
  imported, import_error, Python, split, attribute, resolve_class, job_name,
}
use pyreljob.Worker.Execute.{resolve}
use pyreljob.Worker.Poll.{Settings}
use pyreljob.Worker.Registry.{lookup, resolve_each, resolve_each-resolve}
use pyreljob.Worker.Tick.{claim_and_execute, claim_and_execute-settles, NextSettled}

-- The module app.jobs, which is the object 1, with the class Booking, which is the object 2.
abbrev sample_python : Python ℕ ℕ
sample_python = record {
  import_module = λ name. if str_eq name "app.jobs" then imported 1 else import_error;
  getattr = λ obj attr. if str_eq attr "Booking" then some 2 else none;
  subclass = λ obj. some obj;
}

resolve_class-job_name_example :
    resolve_class sample_python (job_name "app.jobs" "Booking") ≡ ok (some 2)
unfolding split attribute
resolve_class-job_name_example =
    resolve_class-job_name sample_python "app.jobs" "Booking" 1 2 2 refl refl refl
      (λ j more less. absurd (omega (arith, more, less)))

resolve_each-resolve_example :
    (resolve_each office_env.resolve_job ("weekly" ∷ "weekly" ∷ []) []).0
    ≡ map (resolve office_env) ("weekly" ∷ "weekly" ∷ [])
unfolding lookup
resolve_each-resolve_example =
    resolve_each-resolve office_env ("weekly" ∷ "weekly" ∷ []) [] (λ n. refl)

abbrev one_at_once : Settings
one_at_once = record { worker_id = "w2"; queue = none; lease_seconds = 0; max_concurrency = 1 }

claim_and_execute-settles_example :
    NextSettled office_env one_at_once office_world
      (claim_and_execute office_env one_at_once none office_world)
claim_and_execute-settles_example =
    claim_and_execute-settles office_env one_at_once none office_world refl office_db-IsValid
