-- ===== src/Backend/Claim/Next.antt =====
-- Which run claim picks.
use mathlib.Core.List.Memᴰ
use mathlib.Core.List.{Memᴰ}
use pyreljob.Backend.Claim.Exclusive.{leased_db, claim_run-eq_leased, claim-eq_found}
use pyreljob.Backend.Claim.{
  Claimed, RunJob, leased, claim, candidates, first_id, join_jobs, is_claimable, claim_before,
}
use pyreljob.Backend.Validity.{IsValid}
use pyreljob.Effects.{alone}
use pyreljob.Models.{Time, Readings, seconds, Db, JobModel, RunModel, run_key, from_model}
use pyreljob.Prelude.{
  ℕ, ◌-◌, ◌≤◌, ltb_ℤ, String, ◌≡◌, ◌⊎◌, refl, ap, subst, ◌∙◌, true, false, Option, none, some, List,
  [], ◌∷◌, map, arith, ◌==◌, ==_iff, Bool-cases, inl, inr, All, All-map_mono, head?,
}
use pyreljob.Sql.{select}
use pyreljob.Sql.Keyed.{All-mem, All-select_where, mem-select, find-of_mem}
use pyreljob.Sql.Order.{IsOrder, nil_of_order_by, All-order_by, order_by-Least}
use pyreljob.Sql.Rows.{All-append}

claim_before-IsOrder : IsOrder claim_before
claim_before-IsOrder = record {
  asym = λ p q e. ground arith;
  irrefl = λ p. ground arith;
  trans = λ p q s e f. ground arith;
}

-- ORDER BY priority DESC, id ASC, read as an order on the columns.
first_of_not_before :
    (r s : RunModel) (j k : JobModel)
    → claim_before (s, k) (r, j) ≡ false
    → (ltb_ℤ j.priority k.priority ≡ false) × (ltb_ℤ k.priority j.priority ≡ false → r.id ≤ s.id)
first_of_not_before r s j k e = (ground (arith, e), λ h. ground (arith, e, h))

-- The rows of the join are the pairs of a run and its job.
mem-join :
    (jobs : List JobModel) (runs : List RunModel) (r : RunModel) (j : JobModel)
    → Memᴰ r runs
    → Memᴰ j jobs
    → j.id ≡ r.job_id
    → Memᴰ (r, j) (join_jobs jobs runs)
unfolding join_jobs
mem-join jobs [] r j m n e = absurd (Memᴰ.not-nil m)
mem-join jobs (s ∷ runs) r j (Memᴰ.head h) n e = Memᴰ.append_left (join_jobs jobs runs) (
    rw (← h)
      (Memᴰ.map (λ k. (r, k)) (mem-select (λ k. k.id == r.job_id) jobs j n (ground (arith, e)))))
mem-join jobs (s ∷ runs) r j (Memᴰ.tail m) n e =
    Memᴰ.append_right (map (λ k. (s, k)) (select (λ k. k.id == s.job_id) jobs))
      (mem-join jobs runs r j m n e)

record IsJoined (jobs : List JobModel) (runs : List RunModel) (p : RunJob) : Type 0 where
  run_listed : Memᴰ p.0 runs
  job_listed : Memᴰ p.1 jobs
  owned : p.1.id ≡ p.0.job_id

All-pairs :
    (jobs all : List JobModel) (r : RunModel) (runs : List RunModel)
    → All (λ j. Memᴰ j all × ((j.id == r.job_id) ≡ true)) jobs
    → All (IsJoined all (r ∷ runs)) (map (λ j. (r, j)) jobs)
All-pairs [] all r runs h = tt
All-pairs (j ∷ jobs) all r runs h = (
  record { run_listed = Memᴰ.head refl; job_listed = h.0.0; owned = (==_iff _ _).0 h.0.1 },
  All-pairs jobs all r runs h.1,
)

All-join :
    (jobs : List JobModel) (runs : List RunModel) → All (IsJoined jobs runs) (join_jobs jobs runs)
unfolding join_jobs
All-join jobs [] = tt
All-join jobs (r ∷ runs) =
    All-append (IsJoined jobs (r ∷ runs)) _ _
      (All-pairs (select (λ j. j.id == r.job_id) jobs) jobs r runs (All-select_where _ jobs))
      (All-map_mono
        (λ p h. record {
          run_listed = Memᴰ.tail h.run_listed;
          job_listed = h.job_listed;
          owned = h.owned;
        })
        (join_jobs jobs runs) (All-join jobs runs))

module _ (now lease_expiry : Time) (queue : Option String) (db : Db) where
  -- Of the runs that are due or expired, of active jobs, in the queue, this one comes first: its job
  -- has the highest priority, and among those it has the lowest id.
  pub record IsNext (r : RunModel) : Type 0 where
    pub job : JobModel
    pub run_listed : Memᴰ r db.runs
    pub job_listed : Memᴰ job db.jobs
    pub owned : job.id ≡ r.job_id
    pub claimable : is_claimable now lease_expiry queue (r, job) ≡ true
    pub first :
        (s : RunModel) (k : JobModel)
        → Memᴰ s db.runs
        → Memᴰ k db.jobs
        → k.id ≡ s.job_id
        → is_claimable now lease_expiry queue (s, k) ≡ true
        → (ltb_ℤ job.priority k.priority ≡ false)
          × (ltb_ℤ k.priority job.priority ≡ false → r.id ≤ s.id)

  -- No run can be claimed.
  abbrev pub NothingClaimable : Type 0
  NothingClaimable =
      (s : RunModel) (k : JobModel)
      → Memᴰ s db.runs
      → Memᴰ k db.jobs
      → k.id ≡ s.job_id
      → is_claimable now lease_expiry queue (s, k) ≡ false

  abbrev claimables : List RunJob
  claimables = select (is_claimable now lease_expiry queue) (join_jobs db.jobs db.runs)

  candidates-nil : candidates now lease_expiry queue db ≡ [] → NothingClaimable
  unfolding candidates
  candidates-nil e s k ms mk owned =
      elim (Bool-cases (is_claimable now lease_expiry queue (s, k))) [
        | inl yes_it_is ↦ absurd (
            Memᴰ.not-nil (
              subst (Memᴰ {A = RunJob} (s, k))
                (nil_of_order_by claim_before claimables (ap head? e))
                (mem-select (is_claimable now lease_expiry queue) (join_jobs db.jobs db.runs) (s, k)
                  (mem-join db.jobs db.runs s k ms mk owned) yes_it_is)))
        | inr e' ↦ e'
      ]

  pub candidates-cons :
      (r : RunModel) (j : JobModel) (rest : List RunJob)
      → candidates now lease_expiry queue db ≡ (r, j) ∷ rest
      → IsNext r
  unfolding candidates
  candidates-cons r j rest e =
      let listed =
        All-order_by claim_before
          (λ p. Memᴰ p (join_jobs db.jobs db.runs) × (is_claimable now lease_expiry queue p ≡ true))
          claimables
          (All-select_where (is_claimable now lease_expiry queue) (join_jobs db.jobs db.runs)) in
      let (m, c) =
        (subst
          (All (λ p.
            Memᴰ p (join_jobs db.jobs db.runs) × (is_claimable now lease_expiry queue p ≡ true)))
          e listed).0 in
      let joined =
        All-mem (IsJoined db.jobs db.runs) (join_jobs db.jobs db.runs) (All-join db.jobs db.runs)
          (r, j) m in
      let least = order_by-Least claim_before claim_before-IsOrder claimables (r, j) (ap head? e) in
      record {
        job = j;
        run_listed = joined.run_listed;
        job_listed = joined.job_listed;
        owned = joined.owned;
        claimable = c;
        first = λ s k ms mk owned claimable. first_of_not_before r s j k (
            All-mem (λ p. claim_before p (r, j) ≡ false) claimables least (s, k)
              (mem-select (is_claimable now lease_expiry queue) (join_jobs db.jobs db.runs) (s, k)
                (mem-join db.jobs db.runs s k ms mk owned) claimable));
      }

-- What a claim that won run `r` returns.
abbrev pub claimed : RunModel → String → Time → Time → Db → Claimed
claimed r worker_id now lease_expiry db = record {
  run = some (from_model (leased worker_id now r));
  last_claim_at = some now;
  db = leased_db r.id worker_id now lease_expiry db;
}

-- In valid tables and with nobody writing in between, claim gives the worker the first of the
-- claimable runs, by priority and then by id, leased from now on, and changes no other row; if no run is claimable it returns nothing and changes nothing.
pub claim-IsNext :
    (worker_id : String) (queue : Option String) (lease_seconds : ℕ) (now : Readings)
    (last : Option Time) (db : Db)
    → IsValid db
    → ((r : RunModel) × IsNext (now 0) (now 1 - seconds lease_seconds) queue db r
        × (claim alone worker_id queue lease_seconds now last db
            ≡ claimed r worker_id (now 0) (now 1 - seconds lease_seconds) db))
      ⊎ (NothingClaimable (now 0) (now 1 - seconds lease_seconds) queue db
          × (claim alone worker_id queue lease_seconds now last db
              ≡ record { run = none; last_claim_at = last; db = db }))
claim-IsNext worker_id queue lease_seconds now last db v =
    go (candidates (now 0) expiry queue db) refl
  where
    expiry : Time
    expiry = now 1 - seconds lease_seconds

    go :
        (rows : List RunJob)
        → candidates (now 0) expiry queue db ≡ rows
        → ((r : RunModel) × IsNext (now 0) expiry queue db r
            × (claim alone worker_id queue lease_seconds now last db
                ≡ claimed r worker_id (now 0) expiry db))
          ⊎ (NothingClaimable (now 0) expiry queue db
              × (claim alone worker_id queue lease_seconds now last db
                  ≡ record { run = none; last_claim_at = last; db = db }))
    go [] e = inr (
      candidates-nil (now 0) expiry queue db e,
      claim-eq_found alone worker_id queue lease_seconds now last db none (ap first_id e),
    )
    go ((r, j) ∷ rest) e =
        let next = candidates-cons (now 0) expiry queue db r j rest e in
        inl (
          r,
          next,
          claim-eq_found alone worker_id queue lease_seconds now last db (some r.id) (ap first_id e)
              ∙ claim_run-eq_leased r.id worker_id (now 0) expiry last db v.run_ids r
                  (find-of_mem run_key db.runs r v.run_ids next.run_listed)
                  (ground (arith, next.claimable)),
        )
