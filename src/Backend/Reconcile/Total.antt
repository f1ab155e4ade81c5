-- ===== src/Backend/Reconcile/Total.antt =====
-- The batched sweep against one sweep of the whole table.
use pyreljob.Backend.Reconcile.Batch.{
  length-rows_short, length-rows_full, runs-IsSplit, rowcount-failed, jobs-IsSplit,
}
use pyreljob.Backend.Reconcile.{
  Reconciled, Sweep, is_stale, abandoned, rearmed, failed_run, revived_job, sweep_batch, stale_runs,
  sweep, rearm_orphaned_jobs, reconcile_abandoned, reconcile_batch, sweep_done,
}
use pyreljob.Backend.Validity.{IsValid}
use pyreljob.Effects.{alone}
use pyreljob.Models.{Time, Readings, seconds, Db, JobModel, RunModel, run_key}
use pyreljob.Prelude.{
  ℕ, zero, suc, ◌+◌, ◌-◌, ◌≤◌, ◌<◌, ◌≡◌, ◌⊎◌, refl, sym, ap, ◌∙◌, Bool, Option, some, List, [], ◌∷◌,
  arith, inl, inr, length,
}
use native.Mathlib.Decide.{dec_lt}
use pyreljob.Sql.{select, update, rowcount, is_in}
use pyreljob.Sql.Batch.{update-split, rowcount-split}
use pyreljob.Sql.Count.{Distinct, Distinct-update, length-select}

update-none {ℓ} :
    {A : Type ℓ} (p : A → Bool) (f : A → A) (xs : List A) → rowcount p xs ≡ 0 → update p f xs ≡ xs
unfolding update rowcount
update-none p f [] e = refl
update-none p f (x ∷ xs) e = ground (arith, update-none p f xs)

rowcount-revived_nil : (xs : List JobModel) → rowcount (revived_job []) xs ≡ 0
unfolding rowcount is_in
rowcount-revived_nil [] = refl
rowcount-revived_nil (x ∷ xs) = rowcount-revived_nil xs

module _ (now cutoff : Time) (progress : Option Time) where
  -- The whole sweep in two updates: every stale run fails, and every disarmed maintained job of such
  -- a run is armed.
  pub swept : Db → Db
  swept db = record db {
    runs = update (is_stale cutoff progress) (abandoned now) db.runs;
    jobs = update (revived_job (select (is_stale cutoff progress) db.runs)) (rearmed now) db.jobs;
  }

  unfoldable pub stale_count : Db → ℕ
  stale_count db = rowcount (is_stale cutoff progress) db.runs

  pub revived_count : Db → ℕ
  revived_count db = rowcount (revived_job (select (is_stale cutoff progress) db.runs)) db.jobs

  abbrev finished : ℕ → ℕ → ℕ → Db → Option Sweep
  finished round runs jobs db =
      some (record { round = round; total = record { runs = runs; jobs = jobs }; db = db })

  select-none : (db : Db) → stale_count db ≡ 0 → select (is_stale cutoff progress) db.runs ≡ []
  unfolding stale_count
  select-none db e = go (select (is_stale cutoff progress) db.runs) (length-select _ db.runs ∙ e)
    where
      go : (xs : List RunModel) → length xs ≡ 0 → xs ≡ []
      go [] h = refl
      go (x ∷ xs) h = absurd (omega arith)

  revived-none : (db : Db) → stale_count db ≡ 0 → revived_count db ≡ 0
  unfolding revived_count
  revived-none db e = rw (select-none db e) (rowcount-revived_nil db.jobs)

  swept-none : (db : Db) → stale_count db ≡ 0 → swept db ≡ db
  unfolding swept stale_count
  swept-none db e =
      rw
        (
          update-none (is_stale cutoff progress) (abandoned now) db.runs e,
          select-none db e,
          update-none (revived_job []) (rearmed now) db.jobs (rowcount-revived_nil db.jobs),
        )
        refl

  module _ (batch : ℕ) (db : Db) (d : Distinct run_key db.runs) where
    abbrev next : Db
    next = sweep_batch now (stale_runs batch cutoff progress db) db

    swept-batch : swept next ≡ swept db
    unfolding swept sweep_batch
    swept-batch =
        rw
          (
            update-split _ _ _ _ db.runs (runs-IsSplit batch cutoff progress db d now),
            update-split _ _ _ _ db.jobs (jobs-IsSplit batch cutoff progress db d now),
          )
          refl

    stale-batch :
        stale_count db
        ≡ rowcount (failed_run (stale_runs batch cutoff progress db)) db.runs + stale_count next
    unfolding stale_count sweep_batch
    stale-batch = rowcount-split _ _ _ _ db.runs (runs-IsSplit batch cutoff progress db d now)

    revived-batch :
        revived_count db
        ≡ rowcount (revived_job (stale_runs batch cutoff progress db)) db.jobs + revived_count next
    unfolding revived_count sweep_batch
    revived-batch = rowcount-split _ _ _ _ db.jobs (jobs-IsSplit batch cutoff progress db d now)

    next-Distinct : Distinct run_key next.runs
    unfolding sweep_batch abandoned
    next-Distinct = Distinct-update run_key _ _ (λ r. refl) db.runs d

    failed-batch :
        rowcount (failed_run (stale_runs batch cutoff progress db)) db.runs
        ≡ length (stale_runs batch cutoff progress db)
    failed-batch = rowcount-failed batch cutoff progress db d

  finished-eq :
      (round : ℕ) {a b c d : ℕ} {x y : Db}
      → a ≡ b
      → c ≡ d
      → x ≡ y
      → finished round a c x ≡ finished round b d y
  finished-eq round p q r = rw (p, q, r) refl

  module _ (batch fuel : ℕ) (s : Sweep) where
    abbrev size : ℕ
    size = length (stale_runs batch cutoff progress s.db)

    abbrev failed_now : ℕ
    failed_now = rowcount (failed_run (stale_runs batch cutoff progress s.db)) s.db.runs

    abbrev revived_now : ℕ
    revived_now = rowcount (revived_job (stale_runs batch cutoff progress s.db)) s.db.jobs

    abbrev after : Sweep
    after = record {
      round = suc s.round;
      total = record { runs = s.total.runs + failed_now; jobs = s.total.jobs + revived_now };
      db = sweep_batch now (stale_runs batch cutoff progress s.db) s.db;
    }

    sweep-eq_empty :
        size ≡ 0
        → sweep (suc fuel) alone batch now cutoff progress s
          ≡ finished (suc s.round) s.total.runs s.total.jobs s.db
    unfolding sweep
    sweep-eq_empty e = ground arith

    sweep-eq_last :
        0 < size → size < batch → sweep (suc fuel) alone batch now cutoff progress s ≡ some after
    unfolding sweep
    sweep-eq_last h k = ground arith

    sweep-eq_again :
        0 < size
        → batch ≤ size
        → 0 < failed_now
        → sweep (suc fuel) alone batch now cutoff progress s
          ≡ sweep fuel alone batch now cutoff progress after
    unfolding sweep
    sweep-eq_again h k m = ground arith

    size_cases :
        ((size ≡ stale_count s.db) × (stale_count s.db ≤ batch))
        ⊎ ((size ≡ batch) × (batch < stale_count s.db))
    unfolding stale_count
    size_cases = elim (dec_lt batch (stale_count s.db)) [
      | yes h ↦ inr (length-rows_full batch cutoff progress s.db (omega arith), h)
      | no h ↦ inl (length-rows_short batch cutoff progress s.db (omega arith), omega arith)
    ]

  abbrev Swept : Option Sweep → Sweep → Type 0
  Swept o s =
      (round : ℕ) × (o
        ≡ finished round (s.total.runs + stale_count s.db) (s.total.jobs + revived_count s.db)
            (swept s.db))

  -- One round, given what the rounds after it do.
  sweep-Swept_step :
      (batch : ℕ)
      → 0 < batch
      → (fuel : ℕ) (s : Sweep) → Distinct run_key s.db.runs
      → stale_count s.db < suc fuel
      → (stale_count (after batch fuel s).db < fuel
          → Swept
              (sweep fuel alone batch now cutoff progress (after batch fuel s))
              (after batch fuel s))
      → Swept (sweep (suc fuel) alone batch now cutoff progress s) s
  sweep-Swept_step batch positive fuel s d h rest = elim (dec_lt 0 (size batch fuel s)) [
    | no e ↦
        let none_left : stale_count s.db ≡ 0 = omega (arith, size_cases batch fuel s) in
        (
          suc s.round,
          sweep-eq_empty batch fuel s (omega arith)
              ∙ finished-eq (suc s.round) (omega arith) (omega (arith, revived-none s.db none_left))
                  (sym (swept-none s.db none_left)),
        )
    | yes e ↦ elim (dec_lt (size batch fuel s) batch) [
      | yes short ↦
          let none_left : stale_count (after batch fuel s).db ≡ 0 =
            omega (arith, size_cases batch fuel s, counted, left) in
          (
            suc s.round,
            sweep-eq_last batch fuel s e short
                ∙ finished-eq (suc s.round) (omega (arith, left, none_left))
                    (omega (arith, left_jobs, revived-none (after batch fuel s).db none_left))
                    (sym (swept-none (after batch fuel s).db none_left) ∙ swept-batch batch s.db d),
          )
      | no full ↦
          let (round, done) = rest (omega (arith, counted, left)) in
          (
            round,
            sweep-eq_again batch fuel s e (omega arith) (omega (arith, counted))
                ∙ done
                ∙ finished-eq round (omega (arith, left)) (omega (arith, left_jobs))
                    (swept-batch batch s.db d),
          )
    ]
  ]
    where
      counted : failed_now batch fuel s ≡ size batch fuel s
      counted = failed-batch batch s.db d

      left : stale_count s.db ≡ failed_now batch fuel s + stale_count (after batch fuel s).db
      left = stale-batch batch s.db d

      left_jobs :
          revived_count s.db ≡ revived_now batch fuel s + revived_count (after batch fuel s).db
      left_jobs = revived-batch batch s.db d

  sweep-Swept :
      (batch : ℕ)
      → 0 < batch
      → (fuel : ℕ) (s : Sweep) → Distinct run_key s.db.runs
      → stale_count s.db < fuel
      → Swept (sweep fuel alone batch now cutoff progress s) s
  sweep-Swept batch positive zero s d h = elim h [ ]
  sweep-Swept batch positive (suc fuel) s d h =
      sweep-Swept_step batch positive fuel s d h
        (sweep-Swept batch positive fuel (after batch fuel s) (next-Distinct batch s.db d))

-- What reconcile_abandoned comes to, with no loop: one sweep, then the orphaned jobs.
pub reconciled : Time → Time → Option Time → Db → Reconciled × Db
unfolding rearm_orphaned_jobs
reconciled now cutoff progress db =
    let (orphans, db') = rearm_orphaned_jobs now cutoff (swept now cutoff progress db) in
    (
      record {
        runs = stale_count now cutoff progress db;
        jobs = revived_count now cutoff progress db + orphans;
      },
      db',
    )

-- In valid tables and with nobody else writing, reconcile_abandoned ends within as many rounds as there are stale runs and
-- one more, and its batches of 500 come to one sweep of the whole table: every stale run is failed,
-- every disarmed active maintained job of such a run is armed for now, then the orphaned jobs, and the
-- returned counts are the numbers of those runs and jobs.
pub reconcile_abandoned-eq_reconciled :
    (fuel grace_seconds : ℕ) (last_claim_at : Option Time) (now : Readings) (db : Db)
    → IsValid db
    → stale_count (now 0) (now 0 - seconds grace_seconds) last_claim_at db < fuel
    → reconcile_abandoned fuel alone grace_seconds last_claim_at now db
      ≡ some (reconciled (now 0) (now 0 - seconds grace_seconds) last_claim_at db)
unfolding reconcile_abandoned reconciled
reconcile_abandoned-eq_reconciled fuel grace_seconds last_claim_at now db v h =
    let start : Sweep = record { round = 0; total = record { runs = 0; jobs = 0 }; db = db } in
    let (round, done) =
      sweep-Swept (now 0) (now 0 - seconds grace_seconds) last_claim_at reconcile_batch
        (omega arith) fuel start v.run_ids h in
    let cutoff : Time = now 0 - seconds grace_seconds in
    ap (sweep_done alone (now 0) cutoff)
      (done ∙ finished-eq (now 0) cutoff last_claim_at round (omega arith) (omega arith) refl)

-- The runs after it: every stale one is failed.
pub reconciled-runs :
    (now cutoff : Time) (progress : Option Time) (db : Db)
    → (reconciled now cutoff progress db).1.runs
      ≡ update (is_stale cutoff progress) (abandoned now) db.runs
unfolding reconciled swept
reconciled-runs now cutoff progress db = refl
