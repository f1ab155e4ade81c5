-- ===== src/Backend/Lists.antt =====
-- pyreljob/backends/sqlalchemy.py: the queries that list jobs and runs.
pub mod Totals
use pyreljob.Backend.Claim.{RunJob, join_jobs, queue_matches}
use pyreljob.Models.{
  Time, Db, JobModel, JobRecord, RunModel, RunRecord, RunWithJob, RunStatus, is_failed, is_ready,
  is_running, is_complete, is_stopped, from_model,
}
use pyreljob.Prelude.{
  ℕ, String, Bool, true, false, Option, none, some, List, [], ◌∷◌, ◌==◌, ltb, if◌then◌else◌, map,
  take, drop,
}
use pyreljob.Sql.{select, rowcount, order_by}

abbrev pub newest_job : JobModel → JobModel → Bool
newest_job j k = ltb k.id j.id

abbrev pub newest_run : RunModel → RunModel → Bool
newest_run r s = ltb s.id r.id

-- OFFSET and LIMIT
abbrev pub page {ℓ} : {A : Type ℓ} → ℕ → ℕ → List A → List A
page limit offset rows = take limit (drop offset rows)

-- `has_tag tag j` is the answer of the database to CAST(tags AS VARCHAR) LIKE '%"tag"%'.
module _ (has_tag : String → JobModel → Bool) where
  abbrev pub tag_matches : Option String → JobModel → Bool
  tag_matches none j = true
  tag_matches (some tag) j = has_tag tag j

  unfoldable pub list_jobs : ℕ → ℕ → Option String → Db → List JobRecord
  list_jobs limit offset tag db =
      page limit offset (order_by newest_job (select (tag_matches tag) db.jobs))

  abbrev pub with_job : RunJob → RunWithJob
  with_job (r, j) = record { run = from_model r; job = j }

  unfoldable pub list_runs : ℕ → ℕ → Option String → Db → List RunWithJob
  unfolding join_jobs
  list_runs limit offset tag db = map with_job (
      page limit offset (
        order_by (λ p q. newest_run p.0 q.0)
          (select (λ p. tag_matches tag p.1) (join_jobs db.jobs db.runs))))

unfoldable pub runs : ℕ → Db → List RunRecord
runs job_id db = map from_model (order_by newest_run (select (λ r. r.job_id == job_id) db.runs))

-- NULLs last or first is the database's choice; a failed run has a finish time.
abbrev pub null_later : Option Time → Option Time → Bool
null_later (some t) (some u) = ltb u t
null_later (some t) none = true
null_later none u = false

abbrev pub finished_later : RunModel → RunModel → Bool
finished_later r s = null_later r.finished_at s.finished_at

unfoldable pub recent_failures : ℕ → Db → List RunRecord
recent_failures limit db =
    map from_model (take limit (order_by finished_later (select (λ r. is_failed r.status) db.runs)))

-- One group of the GROUP BY, if it is not empty.
abbrev pub group : RunStatus → ℕ → List (RunStatus × ℕ) → List (RunStatus × ℕ)
group s n rest = if n == 0 then rest else (s, n) ∷ rest

abbrev pub count_where : (RunStatus → Bool) → List RunJob → ℕ
count_where p rows = rowcount (λ q. p q.0.status) rows

-- The dict from status to count, as its entries in the order of the statuses.
unfoldable pub counts : Option String → Db → List (RunStatus × ℕ)
unfolding join_jobs
counts queue db =
    let rows = select (λ q. queue_matches queue q.1) (join_jobs db.jobs db.runs) in
    group RunStatus.ready (count_where is_ready rows) (
      group RunStatus.running (count_where is_running rows) (
        group RunStatus.succeeded (count_where is_complete rows) (
          group RunStatus.failed (count_where is_failed rows)
            (group RunStatus.cancelled (count_where is_stopped rows) []))))
