-- ===== src/Witnesses/Claiming.antt =====
-- Claiming runs and maintained jobs, at the sample database.
use pyreljob.Backend.Beat.{claim_scheduled}
use pyreljob.Backend.Beat.Once.{claim_scheduled-disarmed, claim_scheduled-once}
use pyreljob.Backend.Claim.{claim, claim_run, pg_claim, candidates, leased}
use pyreljob.Backend.Claim.Exclusive.{claim-distinct, rival_claims}
use pyreljob.Backend.Claim.Next.{claim-IsNext, IsNext, NothingClaimable, claimed}
use pyreljob.Backend.Claim.Postgres.{pg_claim-eq_claim}
use pyreljob.Backend.Jobs.{get}
use pyreljob.Backend.Runs.{renew_lease}
use pyreljob.Backend.Runs.Lease.{renew_lease-protects}
use pyreljob.Effects.{alone}
use pyreljob.Models.{RunRecord, RunModel, RunStatus, from_model}
use pyreljob.Prelude.{String, str_eq_iff, ◌≡◌, ◌≢◌, refl, true, false, ◌⊎◌, none, some, arith}
use pyreljob.Sql.{order_by, select, exists, find, update}
use pyreljob.Samples.{office_db, office_db-IsValid, clock, waiting_run, lost_run, weekly_job}

abbrev recovered : RunRecord
recovered =
    from_model
      (record lost_run { worker_id = some "w2"; locked_at = some 80; updated_at = some 80 })

abbrev started : RunRecord
started = from_model (record waiting_run {
  status = RunStatus.running;
  worker_id = some "w3";
  started_at = some 90;
  locked_at = some 90;
  updated_at = some 90;
})

recovered-claim : (claim alone "w2" none 0 (clock 80) none office_db).run ≡ some recovered
unfolding claim candidates claim_run leased order_by select exists find update
recovered-claim = refl

started-claim :
    (claim (rival_claims "w2" none 0 (clock 80) none) "w3" none 30 (clock 90) none office_db).run
    ≡ some started
unfolding claim candidates claim_run leased order_by select exists find update
started-claim = refl

claim-distinct_example : started.id ≢ recovered.id
claim-distinct_example =
    claim-distinct "w3" "w2" none none 30 0 (clock 90) (clock 80) none none office_db started
      recovered office_db-IsValid recovered-claim started-claim (omega arith)

claim-IsNext_example :
    ((r : RunModel) × IsNext 80 81 none office_db r
      × (claim alone "w2" none 0 (clock 80) none office_db ≡ claimed r "w2" 80 81 office_db))
    ⊎ (NothingClaimable 80 81 none office_db
        × (claim alone "w2" none 0 (clock 80) none office_db
            ≡ record { run = none; last_claim_at = none; db = office_db }))
claim-IsNext_example = claim-IsNext "w2" none 0 (clock 80) none office_db office_db-IsValid

pg_claim-eq_claim_example :
    pg_claim (λ p. false) "w2" (some "default") 0 (clock 80) none office_db
    ≡ claim alone "w2" (some "default") 0 (clock 80) none office_db
pg_claim-eq_claim_example =
    pg_claim-eq_claim "w2" (some "default") 0 (clock 80) none office_db office_db-IsValid

recovered-run : (claim_run 3 "w2" 80 81 none office_db).run ≡ some recovered
unfolding claim_run leased exists find update
recovered-run = refl

weekly_found : get 3 office_db ≡ some weekly_job
unfolding get find
weekly_found = refl

claim_scheduled-disarmed_example :
    claim_scheduled 3 (some 200) (clock 100) office_db ≡ (false, office_db)
claim_scheduled-disarmed_example =
    claim_scheduled-disarmed 3 (some 200) (clock 100) office_db weekly_job office_db-IsValid
      weekly_found refl

nightly_fires : (claim_scheduled 2 none (clock 100) office_db).0 ≡ true
unfolding claim_scheduled exists
nightly_fires = refl

claim_scheduled-once_example :
    claim_scheduled 2 (some 300) (clock 200) (claim_scheduled 2 none (clock 100) office_db).1
    ≡ (false, (claim_scheduled 2 none (clock 100) office_db).1)
claim_scheduled-once_example =
    claim_scheduled-once 2 (some 300) (clock 100) (clock 200) office_db office_db-IsValid
      nightly_fires

w1-ne-w2 : ◌≢◌ {A = String} "w1" "w2"
w1-ne-w2 e = ground (arith, (str_eq_iff "w1" "w2").1 e)

lost_run_renewed : (renew_lease 3 "w1" (clock 80) office_db).0 ≡ true
unfolding renew_lease exists
lost_run_renewed = refl

renew_lease-protects_example :
    claim_run 3 "w2" 95 75 none (renew_lease 3 "w1" (clock 80) office_db).1
    ≡ record { run = none; last_claim_at = none; db = (renew_lease 3 "w1" (clock 80) office_db).1 }
renew_lease-protects_example =
    renew_lease-protects 3 "w1" "w2" (clock 80) 95 75 none office_db office_db-IsValid
      lost_run_renewed (omega arith)
