-- ===== src/Backend/Beat/Once.antt =====
-- claim_scheduled: two claims of one job, and a job with no fire time.
use pyreljob.Backend.Beat.{claim_scheduled, is_due, is_due_now}
use pyreljob.Backend.Jobs.{get}
use pyreljob.Backend.Validity.{IsValid, update_jobs-IsValid}
use pyreljob.Models.{Time, Readings, Db, JobModel, JobRecord, RunModel, job_key}
use pyreljob.Prelude.{
  ℕ, ◌≡◌, refl, sym, ap, ◌∙◌, Bool, true, false, Option, none, some, List, [], ◌∷◌, arith,
}
use pyreljob.Sql.{update, exists, find}
use pyreljob.Sql.Count.{Distinct}
use pyreljob.Sql.Keyed.{exists-find}
use pyreljob.Sql.Rows.{find-update, key-find}

-- An UPDATE whose WHERE clause holds of no row changes nothing.
pub update-of_not_exists {ℓ} :
    {A : Type ℓ} (p : A → Bool) (f : A → A) (xs : List A) → exists p xs ≡ false → update p f xs ≡ xs
unfolding update exists
update-of_not_exists p f [] e = refl
update-of_not_exists p f (x ∷ xs) e = ground (arith, update-of_not_exists p f xs)

abbrev due_row : Time → List RunModel → Option JobModel → Bool
due_row now runs none = false
due_row now runs (some j) = is_due_now now runs j

is_due-find :
    (job_id : ℕ) (now : Time) (db : Db)
    → Distinct job_key db.jobs
    → exists (is_due job_id now db.runs) db.jobs ≡ due_row now db.runs (get job_id db)
unfolding get
is_due-find job_id now db d =
    exists-find job_key job_id (is_due_now now db.runs) db.jobs d
    ∙ due (find job_key job_id db.jobs)
  where
    due :
        (o : Option JobModel)
        → (elim o [ none ↦ false | some j ↦ is_due_now now db.runs j ]) ≡ due_row now db.runs o
    due none = refl
    due (some j) = refl

-- A claim that finds no due job changes nothing.
claim_scheduled-eq_lost :
    (job_id : ℕ) (next_run_at : Option Time) (now : Readings) (db : Db)
    → exists (is_due job_id (now 0) db.runs) db.jobs ≡ false
    → claim_scheduled job_id next_run_at now db ≡ (false, db)
unfolding claim_scheduled
claim_scheduled-eq_lost job_id next_run_at now db e =
    rw
      (
        update-of_not_exists (is_due job_id (now 0) db.runs)
            (λ j. record j { next_run_at = next_run_at; updated_at = some (now 1) }) db.jobs e,
        e,
      )
      refl

get-claim_scheduled :
    (job_id : ℕ) (next_run_at : Option Time) (now : Readings) (db : Db) (j : JobModel)
    → get job_id db ≡ some j
    → is_due_now (now 0) db.runs j ≡ true
    → get job_id (claim_scheduled job_id next_run_at now db).1
      ≡ some (record j { next_run_at = next_run_at; updated_at = some (now 1) })
unfolding get claim_scheduled
get-claim_scheduled job_id next_run_at now db j e due = ground (
  arith,
  find-update job_key job_id (is_due job_id (now 0) db.runs)
      (λ (k : JobModel). record k { next_run_at = next_run_at; updated_at = some (now 1) })
      (λ k. refl) db.jobs,
  key-find job_key job_id db.jobs j,
)

-- In valid tables, a disarmed job, whose next_run_at is NULL, is not claimed, at whatever time: so a job whose
-- next_runtime returned None does not fire until something else arms it.
pub claim_scheduled-disarmed :
    (job_id : ℕ) (next_run_at : Option Time) (now : Readings) (db : Db) (j : JobRecord)
    → IsValid db
    → get job_id db ≡ some j
    → j.next_run_at ≡ none
    → claim_scheduled job_id next_run_at now db ≡ (false, db)
claim_scheduled-disarmed job_id next_run_at now db j v e disarmed =
    claim_scheduled-eq_lost job_id next_run_at now db (
      is_due-find job_id (now 0) db v.job_ids
      ∙ ap (due_row (now 0) db.runs) e
      ∙ ground (arith, disarmed))

-- The tables stay valid when a job is claimed.
claim_scheduled-IsValid :
    (job_id : ℕ) (next_run_at : Option Time) (now : Readings) (db : Db)
    → IsValid db
    → IsValid (claim_scheduled job_id next_run_at now db).1
unfolding claim_scheduled
claim_scheduled-IsValid job_id next_run_at now db v =
    update_jobs-IsValid v _ _ (λ j. refl) (λ j k. refl)

claim_scheduled-found :
    (job_id : ℕ) (next_run_at : Option Time) (now : Readings) (db : Db)
    → IsValid db
    → (claim_scheduled job_id next_run_at now db).0 ≡ true
    → (j : JobModel) × (get job_id db ≡ some j) × (is_due_now (now 0) db.runs j ≡ true)
unfolding claim_scheduled
claim_scheduled-found job_id next_run_at now db v won = go (get job_id db) refl
  where
    go :
        (o : Option JobModel)
        → get job_id db ≡ o
        → (j : JobModel) × (get job_id db ≡ some j) × (is_due_now (now 0) db.runs j ≡ true)
    go none e = cc (won, is_due-find job_id (now 0) db v.job_ids, ap (due_row (now 0) db.runs) e)
    go (some j) e = (
      j,
      e,
      sym (ap (due_row (now 0) db.runs) e) ∙ sym (is_due-find job_id (now 0) db v.job_ids) ∙ won,
    )

-- In valid tables, a beat that wins a job disarms it: the next claim of the job, by whichever beat and
-- at whatever time, loses and changes nothing if nobody wrote in between.
pub claim_scheduled-once :
    (job_id : ℕ) (again : Option Time) (now later : Readings) (db : Db)
    → IsValid db
    → (claim_scheduled job_id none now db).0 ≡ true
    → claim_scheduled job_id again later (claim_scheduled job_id none now db).1
      ≡ (false, (claim_scheduled job_id none now db).1)
claim_scheduled-once job_id again now later db v won =
    let (j, e, due) = claim_scheduled-found job_id none now db v won in
    claim_scheduled-disarmed job_id again later (claim_scheduled job_id none now db).1
      (record j { next_run_at = none; updated_at = some (now 1) })
      (claim_scheduled-IsValid job_id none now db v)
      (get-claim_scheduled job_id none now db j e due) refl
