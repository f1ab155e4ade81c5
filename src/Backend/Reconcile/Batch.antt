-- ===== src/Backend/Reconcile/Batch.antt =====
-- One round of the sweep: its batch and its UPDATE.
use mathlib.Core.List.{Memᴰ}
use mathlib.Core.Option.{some-injective}
use pyreljob.Backend.Reconcile.{
  is_stale, by_run_id, abandoned, rearmed, is_disarmed, failed_run, revived_job, stale_runs,
}
use pyreljob.Models.{Time, Db, JobModel, RunModel, run_key}
use pyreljob.Prelude.{
  ℕ, ◌≤◌, ◌≡◌, refl, sym, ap, subst, ◌∙◌, Bool, true, false, ◌&&◌, Option, List, map, arith, ◌==◌,
  ==_iff, Bool-cases, inl, inr, All, length, All-map_mono,
}
use pyreljob.Sql.{select, update, rowcount, is_in, order_by, find}
use pyreljob.Sql.Batch.{
  IsSplit, rowcount-order_by, rowcount-take-le, All-take, length-take_short, length-rowcount,
  mem_of_is_in, is_in-of_mem, rowcount-batch, is_in-split,
}
use pyreljob.Sql.Count.{Distinct, Distinct-select, length-select}
use pyreljob.Sql.Keyed.{
  All-mem, All-of_mem, All-select_where, mem-select, find-of_mem, rowcount-ext,
}
use pyreljob.Sql.Order.{All-order_by}

module _ (batch : ℕ) (cutoff : Time) (progress : Option Time) (db : Db) where
  abbrev pub stale : RunModel → Bool
  stale = is_stale cutoff progress

  abbrev pub rows : List RunModel
  rows = stale_runs batch cutoff progress db

  -- Each row of the batch is a stale run of the table.
  rows-stale : All (λ r. Memᴰ r db.runs × (stale r ≡ true)) rows
  unfolding stale_runs
  rows-stale = All-take _ batch _ (All-order_by by_run_id _ _ (All-select_where stale db.runs))

  length-all : length (order_by by_run_id (select stale db.runs)) ≡ rowcount stale db.runs
  length-all =
      length-rowcount (order_by by_run_id (select stale db.runs))
      ∙ rowcount-order_by by_run_id (λ r. true) (select stale db.runs)
      ∙ sym (length-rowcount (select stale db.runs))
      ∙ length-select stale db.runs

  pub length-rows_short : rowcount stale db.runs ≤ batch → length rows ≡ rowcount stale db.runs
  unfolding stale_runs
  length-rows_short h =
      (length-take_short batch (order_by by_run_id (select stale db.runs))).0 (rw length-all h)
      ∙ length-all

  pub length-rows_full : batch ≤ rowcount stale db.runs → length rows ≡ batch
  unfolding stale_runs
  length-rows_full h =
      (length-take_short batch (order_by by_run_id (select stale db.runs))).1 (rw length-all h)

  module _ (d : Distinct run_key db.runs) where
    rows-Distinct : Distinct run_key rows
    unfolding stale_runs
    rows-Distinct k = omega (
      arith,
      rowcount-take-le (λ r. run_key r == k) batch (order_by by_run_id (select stale db.runs)),
      rowcount-order_by by_run_id (λ r. run_key r == k) (select stale db.runs),
      Distinct-select run_key stale db.runs d k,
    )

    -- A run of the table whose id is in the batch is in the batch.
    mem-rows :
        (r : RunModel)
        → Memᴰ r db.runs
        → is_in r.id (map (λ s. s.id) rows) ≡ true
        → Memᴰ r rows × (stale r ≡ true)
    mem-rows r m e =
        let (s, ms, same) = mem_of_is_in run_key r.id rows e in
        let (listed, st) = All-mem (λ t. Memᴰ t db.runs × (stale t ≡ true)) rows rows-stale s ms in
        let s≡r : s ≡ r = some-injective s r (
          sym (find-of_mem run_key db.runs s d listed)
          ∙ ap (λ k. find run_key k db.runs) same
          ∙ find-of_mem run_key db.runs r d m) in
        (subst (λ t. Memᴰ t rows) s≡r ms, subst (λ t. stale t ≡ true) s≡r st)

    pub runs-IsSplit :
        (now : Time) → All (IsSplit stale (failed_run rows) stale (abandoned now)) db.runs
    unfolding abandoned
    runs-IsSplit now = All-of_mem _ db.runs λ r m. record {
      hit_before = λ e. (mem-rows r m (ground (arith, e))).1;
      hit_after = λ e. refl;
      miss = λ e. refl;
    }

    pub rowcount-failed : rowcount (failed_run rows) db.runs ≡ length rows
    rowcount-failed =
        rowcount-ext _ _ db.runs (All-of_mem _ db.runs (λ r m. ground (arith, mem-rows r m)))
        ∙ rowcount-batch run_key db.runs rows d rows-Distinct
            (All-map_mono (λ r h. h.0) rows rows-stale)

    abbrev pub all_stale : List RunModel
    all_stale = select stale db.runs

    abbrev pub later_stale : Time → List RunModel
    later_stale now = select stale (update (failed_run rows) (abandoned now) db.runs)

    -- A job that the batch revives had a stale run, and is armed afterwards.
    revived_before : (j : JobModel) → revived_job rows j ≡ true → revived_job all_stale j ≡ true
    revived_before j e =
        let (s, ms, same) =
          mem_of_is_in (λ (r : RunModel). r.job_id) j.id rows (ground (arith, e)) in
        let (listed, st) = All-mem (λ t. Memᴰ t db.runs × (stale t ≡ true)) rows rows-stale s ms in
        let found =
          is_in-of_mem (λ (r : RunModel). r.job_id) all_stale s
            (mem-select stale db.runs s listed st) in
        let found' : is_in j.id (map (λ r. r.job_id) all_stale) ≡ true =
          subst (λ k. is_in k (map (λ r. r.job_id) all_stale) ≡ true) same found in
        rw found' (ground (arith, e))

    -- For any other job the stale runs are those that are left.
    revived_later :
        (now : Time) (j : JobModel)
        → revived_job rows j ≡ false
        → revived_job all_stale j ≡ revived_job (later_stale now) j
    revived_later now j e = elim (Bool-cases (is_disarmed j)) [
      | inl armed_not ↦
          ap (λ b. b && is_disarmed j)
            (is_in-split stale (failed_run rows) stale (abandoned now) (λ r. r.job_id) j.id db.runs
              (All-of_mem _ db.runs λ r m. (
                All-mem _ db.runs (runs-IsSplit now) r m,
                λ hit. other_job r (mem-rows r m (ground (arith, hit))).0 armed_not,
              )))
      | inr armed ↦ ground (arith, armed)
    ]
      where
        other_job : (r : RunModel) → Memᴰ r rows → is_disarmed j ≡ true → (r.job_id == j.id) ≡ false
        other_job r m disarmed = elim (Bool-cases (r.job_id == j.id)) [
          | inl same ↦
              let found : is_in j.id (map (λ t. t.job_id) rows) ≡ true =
                subst (λ k. is_in k (map (λ t. t.job_id) rows) ≡ true) ((==_iff _ _).0 same)
                  (is_in-of_mem (λ (t : RunModel). t.job_id) rows r m) in
              absurd (ground (arith, e, found, disarmed))
          | inr differs ↦ differs
        ]

    pub jobs-IsSplit :
        (now : Time)
        → All
            (IsSplit
              (revived_job all_stale)
              (revived_job rows)
              (revived_job (later_stale now))
              (rearmed now))
            db.jobs
    unfolding rearmed
    jobs-IsSplit now = All-of_mem _ db.jobs λ j m. record {
      hit_before = revived_before j;
      hit_after = λ e. ground arith;
      miss = revived_later now j;
    }
