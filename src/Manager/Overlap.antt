-- ===== src/Manager/Overlap.antt =====
-- tick, and the runs in flight of each job.
use pyreljob.Backend.Beat.{claim_scheduled, is_due, list_scheduled}
use pyreljob.Backend.Cleanup.{active_run_of}
use pyreljob.Backend.Jobs.{new_run}
use pyreljob.Backend.Reconcile.Total.{
  reconciled, reconciled-runs, stale_count, reconcile_abandoned-eq_reconciled,
}
use pyreljob.Backend.Reconcile.{abandoned, is_stale}
use pyreljob.Backend.Runs.{create_run}
use pyreljob.Backend.Validity.{IsValid}
use pyreljob.Effects.{Others, alone}
use pyreljob.Manager.{Moment, Beat, fire, fire_all, tick, tick_after, grace_of}
use pyreljob.Models.{Time, Readings, seconds, Db, Inserted, JobRecord}
use pyreljob.Prelude.{
  ℕ, suc, ◌-◌, ◌≤◌, ◌<◌, ◌≡◌, ap, subst, Bool, true, false, refl, ◌∙◌, Option, none, some, List, [],
  ◌∷◌, ◌++◌, arith, ◌==◌, ==_iff, Bool-cases, inl, inr,
}
use pyreljob.Sql.{update, exists, rowcount}
use pyreljob.Sql.Exists.{exists-update}
use pyreljob.Sql.Count.{rowcount-append, rowcount-of_not_exists}

-- Every job has at most one run that is ready or running.
abbrev pub NoOverlap : Db → Type 0
NoOverlap db = (k : ℕ) → rowcount (active_run_of k) db.runs ≤ 1

exists_witness {ℓ} :
    {A : Type ℓ} (p : A → Bool) (xs : List A) → exists p xs ≡ true → (x : A) × (p x ≡ true)
unfolding exists
exists_witness p [] e = absurd (ground arith)
exists_witness p (x ∷ xs) e = elim (Bool-cases (p x)) [
  | inl h ↦ (x, h)
  | inr h ↦ exists_witness p xs (rw h at e)
]

rowcount-update-le {ℓ} :
    {A : Type ℓ} (q p : A → Bool) (f : A → A) (xs : List A)
    → ((x : A) → q (f x) ≡ true → q x ≡ true)
    → rowcount q (update p f xs) ≤ rowcount q xs
unfolding rowcount update
rowcount-update-le q p f [] h = omega arith
rowcount-update-le q p f (x ∷ xs) h = ground (arith, h x, rowcount-update-le q p f xs h)

-- A job that is due has no run in flight.
none_in_flight :
    (job_id : ℕ) (now : Time) (db : Db)
    → exists (is_due job_id now db.runs) db.jobs ≡ true
    → rowcount (active_run_of job_id) db.runs ≡ 0
none_in_flight job_id now db e =
    let (j, due) = exists_witness (is_due job_id now db.runs) db.jobs e in
    let same : j.id ≡ job_id = ground (arith, due) in
    rw (← same) (rowcount-of_not_exists (active_run_of j.id) db.runs (ground (arith, due)))

claim_scheduled-runs :
    (job_id : ℕ) (now : Readings) (db : Db) → (claim_scheduled job_id none now db).1.runs ≡ db.runs
unfolding claim_scheduled
claim_scheduled-runs job_id now db = ground arith

claim_scheduled-lost :
    (job_id : ℕ) (now : Readings) (db : Db)
    → exists (is_due job_id (now 0) db.runs) db.jobs ≡ false
    → (claim_scheduled job_id none now db).0 ≡ false
unfolding claim_scheduled
claim_scheduled-lost job_id now db e = ground (arith, e)

exists_mono {ℓ} :
    {A : Type ℓ} (p q : A → Bool) (xs : List A)
    → ((x : A) → p x ≡ true → q x ≡ true)
    → exists p xs ≡ true
    → exists q xs ≡ true
unfolding exists
exists_mono p q [] h e = e
exists_mono p q (x ∷ xs) h e = ground (arith, h x, exists_mono p q xs h)

abbrev pub is_there : ℕ → Db → Bool
is_there job_id db = exists (λ j. j.id == job_id) db.jobs

claimed-is_there :
    (job_id : ℕ) (now : Readings) (db : Db)
    → exists (is_due job_id (now 0) db.runs) db.jobs ≡ true
    → is_there job_id (claim_scheduled job_id none now db).1 ≡ true
unfolding claim_scheduled
claimed-is_there job_id now db due =
    exists-update (λ j. j.id == job_id) (is_due job_id (now 0) db.runs) _ (λ j. refl) db.jobs
    ∙ exists_mono (is_due job_id (now 0) db.runs) (λ j. j.id == job_id) db.jobs
        (λ j h. ground (arith, h)) due

created-NoOverlap :
    (row : Inserted) (at : Time) (job_id : ℕ) (db : Db)
    → NoOverlap db
    → rowcount (active_run_of job_id) db.runs ≡ 0
    → (k : ℕ) → rowcount (active_run_of k) (db.runs ++ new_run row job_id none at ∷ []) ≤ 1
unfolding new_run rowcount
created-NoOverlap row at job_id db h none_yet k =
    let added = new_run row job_id none at in
    let sum = rowcount-append (active_run_of k) db.runs (added ∷ []) in
    elim (Bool-cases (job_id == k)) [
      | inl same ↦
          subst (λ i. rowcount (active_run_of i) (db.runs ++ added ∷ []) ≤ 1) ((==_iff _ _).0 same)
            (ground (arith, none_yet, rowcount-append (active_run_of job_id) db.runs (added ∷ [])))
      | inr differs ↦ ground (arith, h k, sum, differs)
    ]

-- Other clients keep to one run in flight for each job, and between the claim of a job and the creation
-- of its run they start no run of a job that is there and has none.
pub record KeepsApart (others : Others) : Type 0 where
  pub keeps : (k : ℕ) (db : Db) → NoOverlap db → NoOverlap (others k db)
  pub waits :
      (job_id : ℕ) (db : Db)
      → is_there job_id db ≡ true
      → rowcount (active_run_of job_id) db.runs ≡ 0
      → rowcount (active_run_of job_id) (others 1 db).runs ≡ 0

fire-NoOverlap :
    (grace : Option ℕ) (m : Moment) (job : JobRecord) (db : Db)
    → KeepsApart m.others
    → NoOverlap db
    → NoOverlap (fire grace m job db)
unfolding fire create_run
fire-NoOverlap grace m job db apart h k =
    let before = m.others 0 db in
    let h0 : NoOverlap before = apart.keeps 0 db h in
    let claimed = (claim_scheduled job.id none m.claimed_at before).1 in
    let h1 : NoOverlap claimed = λ i. rw (claim_scheduled-runs job.id m.claimed_at before) (h0 i) in
    elim (Bool-cases (exists (is_due job.id (m.claimed_at 0) before.runs) before.jobs)) [
      | inl due ↦
          let none_yet : rowcount (active_run_of job.id) claimed.runs ≡ 0 =
            rw (claim_scheduled-runs job.id m.claimed_at before)
              (none_in_flight job.id (m.claimed_at 0) before due) in
          ground (
            arith,
            h k,
            h1 k,
            created-NoOverlap m.row (m.created_at 0) job.id (m.others 1 claimed)
                (apart.keeps 1 claimed h1)
                (apart.waits job.id claimed (claimed-is_there job.id m.claimed_at before due)
                  none_yet)
                k,
          )
      | inr not_due ↦
          ground (arith, h k, h1 k, claim_scheduled-lost job.id m.claimed_at before not_due)
    ]

fire_all-NoOverlap :
    (moments : ℕ → Moment) (grace : Option ℕ)
    → ((k : ℕ) → KeepsApart (moments k).others)
    → (n : ℕ) (jobs : List JobRecord) (db : Db) → NoOverlap db
    → NoOverlap (fire_all moments grace n jobs db)
unfolding fire_all
fire_all-NoOverlap moments grace apart n [] db h = h
fire_all-NoOverlap moments grace apart n (job ∷ jobs) db h =
    fire_all-NoOverlap moments grace apart (suc n) jobs (fire grace (moments n) job db)
      (fire-NoOverlap grace (moments n) job db (apart n) h)

reconciled-NoOverlap :
    (now cutoff : Time) (progress : Option Time) (db : Db)
    → NoOverlap db
    → NoOverlap (reconciled now cutoff progress db).1
unfolding abandoned
reconciled-NoOverlap now cutoff progress db h k = rw (reconciled-runs now cutoff progress db) (
    omega (
      arith,
      h k,
      rowcount-update-le (active_run_of k) (is_stale cutoff progress) (abandoned now) db.runs
          (λ r e. ground arith),
    ))

-- From valid tables, with fuel above the number of stale runs and nobody else writing during its sweep, a
-- tick of the beat returns, and starts no run of a job that has a run in flight: if every job has at
-- most one ready or running run before it, so it is after it, whatever the other clients commit between
-- its later transactions, as long as they keep to that too, and start no run of a job that is there and
-- has none between the claim of a job and the creation of its run.
pub tick-NoOverlap :
    (fuel : ℕ) (before_list : Db → Db) (now : Readings) (moments : ℕ → Moment) (beat : Beat)
    (grace : Option ℕ) (db : Db)
    → IsValid db
    → stale_count (now 0) (now 0 - seconds beat.abandoned_grace) beat.last_claim_at db < fuel
    → ((d : Db) → NoOverlap d → NoOverlap (before_list d))
    → ((k : ℕ) → KeepsApart (moments k).others)
    → NoOverlap db
    → (db' : Db) × (tick fuel alone before_list now moments beat grace db ≡ some db')
      × NoOverlap db'
unfolding tick
tick-NoOverlap fuel before_list now moments beat grace db v enough keep apart h =
    let cutoff = now 0 - seconds beat.abandoned_grace in
    let swept_db = (reconciled (now 0) cutoff beat.last_claim_at db).1 in
    let listed = before_list swept_db in
    let graced = grace_of grace beat.misfire_grace in
    (
      fire_all moments graced 0 (list_scheduled listed) listed,
      ap (tick_after before_list moments graced) (
          reconcile_abandoned-eq_reconciled fuel beat.abandoned_grace beat.last_claim_at now db v
            enough),
      fire_all-NoOverlap moments graced apart 0 (list_scheduled listed) listed
          (keep swept_db (reconciled-NoOverlap (now 0) cutoff beat.last_claim_at db h)),
    )
