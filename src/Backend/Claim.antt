-- ===== src/Backend/Claim.antt =====
-- pyreljob/backends/sqlalchemy.py, claim, and its override in pyreljob/backends/postgres.py.
pub mod Exclusive
pub mod Next
pub mod Postgres
use pyreljob.Effects.{Others}
use pyreljob.Models.{
  Time, Readings, seconds, Db, JobModel, RunModel, RunRecord, RunStatus, is_active, is_ready,
  is_running, job_key, run_key, from_model,
}
use pyreljob.Prelude.{
  ℕ, ◌-◌, String, Bool, true, false, not, ◌&&◌, ◌||◌, Option, none, some, List, [], ◌∷◌, ◌++◌, ◌==◌,
  str_eq, ltb, ltb_ℤ, if◌then◌else◌, map, head?, is_some,
}
use pyreljob.Sql.{select, update, exists, find, order_by, is_null, null_le, null_lt}
use mathlib.Core.Option

-- _run_ready_clause: a run that is due, or one whose lease has expired.
abbrev pub run_ready_clause : Time → Time → RunModel → Bool
run_ready_clause now lease_expiry r =
    (is_ready r.status && (is_null r.scheduled_at || null_le r.scheduled_at now))
    || (is_running r.status && null_lt r.locked_at lease_expiry)

abbrev pub RunJob : Type 0
RunJob = RunModel × JobModel

-- runs JOIN jobs ON jobs.id = runs.job_id
unfoldable pub join_jobs : List JobModel → List RunModel → List RunJob
join_jobs jobs [] = []
join_jobs jobs (r ∷ rs) =
    map (λ j. (r, j)) (select (λ j. j.id == r.job_id) jobs) ++ join_jobs jobs rs

-- `if queue:`, so that None and the empty text stand for every queue.
abbrev pub queue_matches : Option String → JobModel → Bool
queue_matches none j = true
queue_matches (some queue) j = str_eq queue "" || str_eq j.queue queue

-- ORDER BY jobs.priority DESC, runs.id ASC
abbrev pub claim_before : RunJob → RunJob → Bool
claim_before (r, j) (s, k) =
    ltb_ℤ k.priority j.priority || (not (ltb_ℤ j.priority k.priority) && ltb r.id s.id)

abbrev pub is_claimable : Time → Time → Option String → RunJob → Bool
is_claimable now lease_expiry queue (r, j) =
    is_active j.status && run_ready_clause now lease_expiry r && queue_matches queue j

unfoldable pub candidates : Time → Time → Option String → Db → List RunJob
unfolding join_jobs
candidates now lease_expiry queue db =
    order_by claim_before (select (is_claimable now lease_expiry queue) (join_jobs db.jobs db.runs))

-- SET status = 'running', …
unfoldable pub leased : String → Time → RunModel → RunModel
leased worker_id now r = record r {
  status = RunStatus.running;
  worker_id = some worker_id;
  error = none;
  started_at = if is_null r.started_at then some now else r.started_at;
  locked_at = some now;
  updated_at = some now;
}

pub record Claimed : Type 0 where
  pub run : Option RunRecord
  -- The attribute of the backend object, which the sweep of abandoned runs reads.
  pub last_claim_at : Option Time
  pub db : Db

-- The conditional UPDATE, and what follows it, for the run that the SELECT found.
unfoldable pub claim_run : ℕ → String → Time → Time → Option Time → Db → Claimed
unfolding leased
claim_run run_id worker_id now lease_expiry last db =
    let matches = λ (r : RunModel). (r.id == run_id) && run_ready_clause now lease_expiry r in
    let runs' = update matches (leased worker_id now) db.runs in
    let db' : Db = record db { runs = runs' } in
    if exists matches db.runs
    then (elim (find run_key run_id runs') [
      | none ↦ record { run = none; last_claim_at = last; db = db' }
      | some r ↦ record { run = some (from_model r); last_claim_at = some now; db = db' }
    ])
    else record { run = none; last_claim_at = last; db = db }

abbrev pub first_id : List RunJob → Option ℕ
first_id [] = none
first_id ((r, j) ∷ _) = some r.id

-- `others 0` commits before the SELECT, and `others 1` between it and the UPDATE.
unfoldable pub claim : Others → String → Option String → ℕ → Readings → Option Time → Db → Claimed
unfolding candidates claim_run
claim others worker_id queue lease_seconds now last db =
    let lease_expiry : Time = now 1 - seconds lease_seconds in
    let seen = others 0 db in
    elim (first_id (candidates (now 0) lease_expiry queue seen)) [
      | none ↦ record { run = none; last_claim_at = last; db = seen }
      | some run_id ↦ claim_run run_id worker_id (now 0) lease_expiry last (others 1 seen)
    ]

-- PostgresBackend.claim: FOR UPDATE SKIP LOCKED passes over the rows that `locked` names, those
-- that another transaction holds, and nobody else writes the row that it returns.
unfoldable pub pg_claim :
    (RunJob → Bool) → String → Option String → ℕ → Readings → Option Time → Db → Claimed
unfolding join_jobs leased
pg_claim locked worker_id queue lease_seconds now last db =
    let lease_expiry : Time = now 1 - seconds lease_seconds in
    let rows =
      select (λ p. not (locked p))
        (order_by claim_before
          (select (is_claimable (now 0) lease_expiry queue) (join_jobs db.jobs db.runs))) in
    elim (first_id rows) [
      | none ↦ record { run = none; last_claim_at = last; db = db }
      | some run_id ↦
          let runs' = update (λ r. r.id == run_id) (leased worker_id (now 0)) db.runs in
          let db' : Db = record db { runs = runs' } in
          elim (find run_key run_id runs') [
            | none ↦ record { run = none; last_claim_at = last; db = db' }
            | some r ↦ record { run = some (from_model r); last_claim_at = some (now 0); db = db' }
          ]
    ]
