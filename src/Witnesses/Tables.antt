-- ===== src/Witnesses/Tables.antt =====
-- Writing to the tables, at the sample database.
use pyreljob.Backend.Cleanup.{delete_job, active_run_of}
use pyreljob.Backend.Cleanup.Outcome.{delete_job-outcome, IsDeleted}
use pyreljob.Backend.Cleanup.Pruned.{prune_runs-outcome, IsPruned, ended_before}
use pyreljob.Backend.History.{Write, apply, AllFresh, run}
use pyreljob.Backend.History.Finished.{apply-StaysDone, StaysDone}
use pyreljob.Backend.History.Invariant.{run-IsValid}
use pyreljob.Backend.Jobs.{enqueue, schedule, is_maintained}
use pyreljob.Backend.Jobs.Idempotent.{enqueue-total, with_key, keyed, inserted}
use pyreljob.Backend.Jobs.Maintained.{
  schedule-idempotent, schedule-enqueue, schedule_race-unrecoverable, same_as, without_key,
  maintained, rival_schedules,
}
use pyreljob.Backend.Reconcile.{reconcile_abandoned}
use pyreljob.Backend.Reconcile.Total.{reconcile_abandoned-eq_reconciled, reconciled, stale_count}
use pyreljob.Backend.Tasks.{start_task}
use pyreljob.Backend.Tasks.Started.{
  IsNew, IsSame, IsStarted, start_task-outcome, executions, other_tasks,
}
use pyreljob.Backend.Validity.{IsValid}
use pyreljob.Effects.{alone}
use pyreljob.Json.{Json, Dict}
use pyreljob.Manager.{tick}
use pyreljob.Manager.Api
use pyreljob.Manager.Api.{validate_job, enqueue-repeated}
use pyreljob.Manager.Overlap.{tick-NoOverlap, KeepsApart, NoOverlap}
use pyreljob.Models.{JobRecord, TaskModel, Db, Error, ok, raised, run_key}
use pyreljob.Prelude.{◌<◌, ◌≡◌, refl, true, false, ◌⊎◌, none, some, List, [], ◌∷◌, arith}
use pyreljob.Samples.{
  office_db, office_db-IsValid, empty_db, empty_db-IsValid, clock, new_row, mail_request,
  nightly_schedule, office_beat, moment, sent_run, mail_job, nightly_job, welcome_job, no_options,
}
use pyreljob.Sql.{exists, find, rowcount, select}

enqueue-total_example :
    (j : JobRecord) × (db' : Db) × (enqueue alone
        (new_row 4)
        (new_row 5)
        (clock 60)
        (with_key "mail-1" mail_request)
        office_db
      ≡ (ok j, db'))
    × (keyed alone (new_row 4) (new_row 5) (clock 60) "mail-1" mail_request office_db db' ≡ j ∷ [])
    × ((db' ≡ office_db)
        ⊎ (db' ≡ office_db)
        ⊎ (db' ≡ inserted alone (new_row 4) (new_row 5) (clock 60) "mail-1" mail_request office_db))
enqueue-total_example =
    enqueue-total alone (new_row 4) (new_row 5) (clock 60) "mail-1" mail_request office_db
      office_db-IsValid office_db-IsValid (λ h. h)

mail_found :
    enqueue alone (new_row 4) (new_row 5) (clock 60) (with_key "mail-1" mail_request) office_db
    ≡ (ok mail_job, office_db)
unfolding enqueue select
mail_found = refl

schedule-enqueue_example :
    ((is_maintained nightly_schedule.job (some "mail-1") mail_job ≡ true)
      × (schedule alone
            (new_row 6)
            (clock 90)
            (record nightly_schedule { idempotency_key = some "mail-1" })
            office_db
          ≡ (ok mail_job, office_db)))
    ⊎ ((is_maintained nightly_schedule.job (some "mail-1") mail_job ≡ false)
        × (schedule alone
              (new_row 6)
              (clock 90)
              (record nightly_schedule { idempotency_key = some "mail-1" })
              office_db
            ≡ (raised Error.integrity_error, office_db)))
schedule-enqueue_example =
    schedule-enqueue alone (new_row 4) (new_row 5) (new_row 6) (clock 60) (clock 90) "mail-1"
      mail_request nightly_schedule office_db office_db mail_job mail_found

no_report_yet : maintained (without_key nightly_schedule) office_db ≡ []
unfolding select
no_report_yet = refl

schedule_race-unrecoverable_example :
    (schedule alone
      (new_row 6)
      (clock 62)
      (same_as (without_key nightly_schedule) nightly_schedule)
      (schedule
        (rival_schedules (new_row 4) (clock 60) (without_key nightly_schedule))
        (new_row 5)
        (clock 61)
        (same_as (without_key nightly_schedule) nightly_schedule)
        office_db).1).0
    ≡ raised Error.multiple_results_found
schedule_race-unrecoverable_example =
    schedule_race-unrecoverable (new_row 4) (new_row 5) (new_row 6) (clock 60) (clock 61) (clock 62)
      nightly_schedule nightly_schedule nightly_schedule office_db no_report_yet

delete_job-outcome_example :
    ((exists (active_run_of 2) office_db.runs ≡ true)
      × (delete_job alone 2 office_db ≡ (raised Error.value_error, office_db)))
    ⊎ ((exists (active_run_of 2) office_db.runs ≡ false)
        × (db' : Db) × (delete_job alone 2 office_db ≡ (ok tt, db'))
        × IsDeleted 2 office_db db')
delete_job-outcome_example = delete_job-outcome 2 office_db

prune_runs-outcome_example : IsPruned 50 office_db (ended_before 50)
prune_runs-outcome_example = prune_runs-outcome 50 office_db office_db-IsValid

few_stale : stale_count 100 100 none office_db < 2
unfolding stale_count rowcount
few_stale = omega arith

reconcile_abandoned-eq_reconciled_example :
    reconcile_abandoned 2 alone 0 none (clock 100) office_db
    ≡ some (reconciled 100 100 none office_db)
reconcile_abandoned-eq_reconciled_example =
    reconcile_abandoned-eq_reconciled 2 0 none (clock 100) office_db office_db-IsValid few_stale

office_db-NoOverlap : NoOverlap office_db
unfolding rowcount
office_db-NoOverlap k = ground arith

quiet_moment : KeepsApart alone
quiet_moment = record { keeps = λ k db h. h; waits = λ job_id db there h. h }

tick-NoOverlap_example :
    (db' : Db) × (tick 2 alone (λ d. d) (clock 100) moment office_beat none office_db ≡ some db')
    × NoOverlap db'
tick-NoOverlap_example =
    tick-NoOverlap 2 (λ d. d) (clock 100) moment office_beat none office_db office_db-IsValid
      few_stale (λ d h. h) (λ k. quiet_moment) office_db-NoOverlap

abbrev first_day : List Write
first_day =
    Write.enqueues (new_row 1) (new_row 1) (clock 60) mail_request
    ∷ Write.claims 1 "w1" 70 40
    ∷ Write.starts_task 1 1 0 "send" 1 (clock 71)
    ∷ Write.fails 1 "refused" none 1 (clock 80)
    ∷ []

first_day-AllFresh : AllFresh first_day empty_db
unfolding AllFresh find
first_day-AllFresh = ((refl, refl), (tt, (tt, (tt, tt))))

run-IsValid_example : IsValid (run first_day empty_db)
run-IsValid_example = run-IsValid first_day empty_db first_day-AllFresh empty_db-IsValid

sent_found : find run_key 1 office_db.runs ≡ some sent_run
unfolding find
sent_found = refl

apply-StaysDone_example :
    StaysDone sent_run (find run_key 1 (apply (Write.claims 1 "w2" 100 100) office_db).runs)
apply-StaysDone_example =
    apply-StaysDone (Write.claims 1 "w2" 100 100) 1 office_db sent_run office_db-IsValid sent_found
      refl

nightly_found :
    schedule alone (new_row 4) (clock 60) (record nightly_schedule { job = "nightly" }) office_db
    ≡ (ok nightly_job, office_db)
unfolding schedule select
nightly_found = refl

schedule-idempotent_example :
    schedule alone
      (new_row 5)
      (clock 90)
      (same_as (record nightly_schedule { job = "nightly" }) nightly_schedule)
      office_db
    ≡ (ok nightly_job, office_db)
schedule-idempotent_example =
    schedule-idempotent (new_row 4) (new_row 5) (clock 60) (clock 90)
      (record nightly_schedule { job = "nightly" }) nightly_schedule office_db office_db nightly_job
      nightly_found

start_task-outcome_example :
    (db' : Db) × (start_task 7 1 0 "send" 2 (clock 60) office_db ≡ ok db')
    × (t : TaskModel) × (executions 7 1 0 "send" 2 (clock 60) office_db db' ≡ t ∷ [])
    × IsStarted "send" 2 (clock 60) t
    × (((executions 7 1 0 "send" 2 (clock 60) office_db office_db ≡ []) × IsNew 7 (clock 60) t)
        ⊎ ((old : TaskModel) × (executions 7 1 0 "send" 2 (clock 60) office_db office_db ≡ old ∷ [])
            × IsSame old t))
    × (other_tasks 7 1 0 "send" 2 (clock 60) office_db db'
        ≡ other_tasks 7 1 0 "send" 2 (clock 60) office_db office_db)
    × (db'.runs ≡ office_db.runs)
    × (db'.jobs ≡ office_db.jobs)
start_task-outcome_example =
    start_task-outcome 7 1 0 "send" 2 (clock 60) office_db office_db-IsValid

welcome_validated : validate_job welcome_job ≡ ok (Json.obj Dict.end)
unfolding validate_job
welcome_validated = refl

welcome_found :
    Api.enqueue alone
      (new_row 4)
      (new_row 5)
      (clock 60)
      welcome_job
      (record no_options { idempotency_key = some "mail-1" })
      office_db
    ≡ (ok mail_job, office_db)
unfolding Api.enqueue validate_job enqueue select
welcome_found = refl

enqueue-repeated_example :
    Api.enqueue alone
      (new_row 6)
      (new_row 7)
      (clock 90)
      welcome_job
      (record no_options { idempotency_key = some "mail-1" })
      office_db
    ≡ (ok mail_job, office_db)
enqueue-repeated_example =
    enqueue-repeated alone (new_row 4) (new_row 5) (new_row 6) (new_row 7) (clock 60) (clock 90)
      "mail-1" welcome_job welcome_job no_options no_options (Json.obj Dict.end) (Json.obj Dict.end)
      office_db office_db mail_job welcome_validated welcome_validated welcome_found
