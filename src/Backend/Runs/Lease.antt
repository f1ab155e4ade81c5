-- ===== src/Backend/Runs/Lease.antt =====
-- Who holds the lease of a run: what renew_lease and complete_run do once it has changed hands.
use pyreljob.Backend.Beat.Once.{update-of_not_exists}
use pyreljob.Backend.Claim.{claim_run, leased, run_ready_clause, Claimed}
use pyreljob.Backend.Claim.Exclusive.{
  claim_run-eq_some, claim_run-eq_leased, find-leased, claim_run-eq_lost, would_win, is_won,
}
use pyreljob.Backend.History.Invariant.{claim_run-IsValid}
use pyreljob.Backend.Runs.{renew_lease, is_leased}
use pyreljob.Backend.Validity.{IsValid}
use pyreljob.Models.{Time, Readings, Db, RunModel, RunRecord, run_key, is_running, null_eq}
use pyreljob.Prelude.{
  ℕ, String, ◌≡◌, ◌≢◌, ◌≤◌, refl, sym, ap, ◌∙◌, Bool, true, false, ◌&&◌, Option, none, some, arith,
  str_eq, str_eq_iff, Bool-cases, inl, inr,
}
use pyreljob.Sql.{exists, find}
use pyreljob.Sql.Count.{Distinct, Distinct-update}
use pyreljob.Sql.Keyed.{exists-find}
use pyreljob.Sql.Rows.{find-update, key-find}

holds : String → Option RunModel → Bool
holds worker_id none = false
holds worker_id (some r) = null_eq r.worker_id worker_id && is_running r.status

exists-is_leased :
    (run_id : ℕ) (worker_id : String) (db : Db)
    → Distinct run_key db.runs
    → exists (is_leased run_id worker_id) db.runs ≡ holds worker_id (find run_key run_id db.runs)
unfolding holds
exists-is_leased run_id worker_id db d =
    exists-find run_key run_id (λ r. null_eq r.worker_id worker_id && is_running r.status) db.runs d
    ∙ held (find run_key run_id db.runs)
  where
    held :
        (o : Option RunModel)
        → (elim o [ none ↦ false | some r ↦ null_eq r.worker_id worker_id && is_running r.status ])
          ≡ holds worker_id o
    held none = refl
    held (some r) = refl

renew_lease-eq_lost :
    (run_id : ℕ) (worker_id : String) (now : Readings) (db : Db)
    → exists (is_leased run_id worker_id) db.runs ≡ false
    → renew_lease run_id worker_id now db ≡ (false, db)
unfolding renew_lease
renew_lease-eq_lost run_id worker_id now db e =
    rw
      (
        update-of_not_exists (is_leased run_id worker_id)
            (λ r. record r { locked_at = some (now 0); updated_at = some (now 1) }) db.runs e,
        e,
      )
      refl

-- The row that a claim leaves behind.
find-claimed :
    (run_id : ℕ) (worker_id : String) (now lease_expiry : Time) (last : Option Time) (db : Db)
    {s : RunRecord}
    → IsValid db
    → (claim_run run_id worker_id now lease_expiry last db).run ≡ some s
    → (r : RunModel) × (find run_key run_id
          (claim_run run_id worker_id now lease_expiry last db).db.runs
        ≡ some (leased worker_id now r))
find-claimed run_id worker_id now lease_expiry last db v e =
    let (r, found, ready, _) =
      claim_run-eq_some run_id worker_id now lease_expiry last db v.run_ids e in
    (
      r,
      ap (λ (c : Claimed). find run_key run_id c.db.runs)
            (claim_run-eq_leased run_id worker_id now lease_expiry last db v.run_ids r found ready)
          ∙ find-leased run_id worker_id now lease_expiry db r found ready,
    )

-- In valid tables, a worker whose run another worker has claimed since is told so: renew_lease returns False to it, and
-- changes nothing.
pub renew_lease-lost :
    (run_id : ℕ) (worker_id rival : String) (now lease_expiry : Time) (last : Option Time)
    (later : Readings) (db : Db) (s : RunRecord)
    → IsValid db
    → (claim_run run_id rival now lease_expiry last db).run ≡ some s
    → worker_id ≢ rival
    → renew_lease run_id worker_id later (claim_run run_id rival now lease_expiry last db).db
      ≡ (false, (claim_run run_id rival now lease_expiry last db).db)
unfolding holds leased
renew_lease-lost run_id worker_id rival now lease_expiry last later db s v e other =
    let (r, found) = find-claimed run_id rival now lease_expiry last db v e in
    renew_lease-eq_lost run_id worker_id later (claim_run run_id rival now lease_expiry last db).db
      (exists-is_leased run_id worker_id (claim_run run_id rival now lease_expiry last db).db
          (claim_run-IsValid v run_id rival now lease_expiry last).run_ids
        ∙ ap (holds worker_id) found
        ∙ ground (arith, other_name))
  where
    other_name : str_eq rival worker_id ≡ false
    other_name = elim (Bool-cases (str_eq rival worker_id)) [
      | inl h ↦ absurd (other (sym ((str_eq_iff rival worker_id).0 h)))
      | inr h ↦ h
    ]

find-renewed :
    (run_id : ℕ) (worker_id : String) (now : Readings) (db : Db) (r : RunModel)
    → find run_key run_id db.runs ≡ some r
    → null_eq r.worker_id worker_id ≡ true
    → is_running r.status ≡ true
    → find run_key run_id (renew_lease run_id worker_id now db).1.runs
      ≡ some (record r { locked_at = some (now 0); updated_at = some (now 1) })
unfolding renew_lease
find-renewed run_id worker_id now db r e mine running = ground (
  arith,
  find-update run_key run_id (is_leased run_id worker_id)
      (λ s. record s { locked_at = some (now 0); updated_at = some (now 1) }) (λ s. refl) db.runs,
  key-find run_key run_id db.runs r,
)

not_ready_of_renewed :
    (renewed_at updated_at later later_expiry : Time) (r : RunModel)
    → is_running r.status ≡ true
    → later_expiry ≤ renewed_at
    → run_ready_clause later later_expiry
        (record r { locked_at = some renewed_at; updated_at = some updated_at })
      ≡ false
not_ready_of_renewed renewed_at updated_at later later_expiry r e h = ground (arith, e, h)

-- In valid tables, a run whose lease its worker has renewed cannot be claimed by anyone, as long as the lease has not
-- expired since: the UPDATE touches no row.
pub renew_lease-protects :
    (run_id : ℕ) (worker_id rival : String) (now : Readings) (later later_expiry : Time)
    (last : Option Time) (db : Db)
    → IsValid db
    → (renew_lease run_id worker_id now db).0 ≡ true
    → later_expiry ≤ now 0
    → claim_run run_id rival later later_expiry last (renew_lease run_id worker_id now db).1
      ≡ record { run = none; last_claim_at = last; db = (renew_lease run_id worker_id now db).1 }
unfolding renew_lease holds
renew_lease-protects run_id worker_id rival now later later_expiry last db v renewed h =
    claim_run-eq_lost run_id rival later later_expiry last (renew_lease run_id worker_id now db).1
      (Distinct-update run_key (is_leased run_id worker_id) renew (λ r. refl) db.runs v.run_ids)
      (go (find run_key run_id db.runs) refl)
  where
    renew : RunModel → RunModel
    renew r = record r { locked_at = some (now 0); updated_at = some (now 1) }

    held : holds worker_id (find run_key run_id db.runs) ≡ true
    held = sym (exists-is_leased run_id worker_id db v.run_ids) ∙ renewed

    go :
        (o : Option RunModel)
        → find run_key run_id db.runs ≡ o
        → is_won run_id later later_expiry (renew_lease run_id worker_id now db).1 ≡ false
    go none e = absurd (ground (arith, held, e))
    go (some r) e =
        let mine : (null_eq r.worker_id worker_id ≡ true) × (is_running r.status ≡ true) =
          ground (arith, sym (ap (holds worker_id) e) ∙ held) in
        ap (would_win later later_expiry) (find-renewed run_id worker_id now db r e mine.0 mine.1)
        ∙ not_ready_of_renewed (now 0) (now 1) later later_expiry r mine.1 h
