-- ===== src/Backend/Lists/Totals.antt =====
-- The counts of the runs by status.
use pyreljob.Backend.Claim.{join_jobs, queue_matches, RunJob}
use pyreljob.Backend.Lists.{counts, group, count_where}
use pyreljob.Models.{Db, RunStatus, is_ready, is_running, is_complete, is_failed, is_stopped}
use pyreljob.Prelude.{
  ℕ, suc, ap, ◌∙◌, String, ◌+◌, ◌≡◌, Option, List, [], ◌∷◌, if◌then◌else◌, arith, length,
}
use pyreljob.Sql.{select, rowcount}

pub total : List (RunStatus × ℕ) → ℕ
total [] = 0
total ((s, n) ∷ groups) = n + total groups

group-total :
    (s : RunStatus) (n : ℕ) (rest : List (RunStatus × ℕ)) → total (group s n rest) ≡ n + total rest
unfolding total
group-total s n rest = ground arith

-- Every run has exactly one of the five statuses.
one_status :
    (s : RunStatus) (a b c d e : ℕ)
    → (if is_ready s then suc a else a)
        + ((if is_running s then suc b else b)
            + ((if is_complete s then suc c else c)
                + ((if is_failed s then suc d else d) + ((if is_stopped s then suc e else e) + 0))))
      ≡ suc (a + (b + (c + (d + (e + 0)))))
one_status RunStatus.ready a b c d e = omega arith
one_status RunStatus.running a b c d e = omega arith
one_status RunStatus.succeeded a b c d e = omega arith
one_status RunStatus.failed a b c d e = omega arith
one_status RunStatus.cancelled a b c d e = omega arith

total-length :
    (rows : List RunJob)
    → count_where is_ready rows
        + (count_where is_running rows
            + (count_where is_complete rows
                + (count_where is_failed rows + (count_where is_stopped rows + 0))))
      ≡ length rows
unfolding rowcount
total-length [] = omega arith
total-length ((r, j) ∷ rows) = one_status r.status _ _ _ _ _ ∙ ap suc (total-length rows)

-- The counts add up to the number of the runs in the queue, each of which belongs to a job.
pub counts-total :
    (queue : Option String) (db : Db)
    → total (counts queue db)
      ≡ length (select (λ q. queue_matches queue q.1) (join_jobs db.jobs db.runs))
unfolding counts total
counts-total queue db =
    let rows = select (λ q. queue_matches queue q.1) (join_jobs db.jobs db.runs) in
    ground (
      arith,
      group-total RunStatus.ready (count_where is_ready rows) (
          group RunStatus.running (count_where is_running rows) (
            group RunStatus.succeeded (count_where is_complete rows) (
              group RunStatus.failed (count_where is_failed rows)
                (group RunStatus.cancelled (count_where is_stopped rows) [])))),
      group-total RunStatus.running (count_where is_running rows) (
          group RunStatus.succeeded (count_where is_complete rows) (
            group RunStatus.failed (count_where is_failed rows)
              (group RunStatus.cancelled (count_where is_stopped rows) []))),
      group-total RunStatus.succeeded (count_where is_complete rows) (
          group RunStatus.failed (count_where is_failed rows)
            (group RunStatus.cancelled (count_where is_stopped rows) [])),
      group-total RunStatus.failed (count_where is_failed rows)
          (group RunStatus.cancelled (count_where is_stopped rows) []),
      group-total RunStatus.cancelled (count_where is_stopped rows) [],
      total-length rows,
    )
