-- ===== src/Backend/Claim/Exclusive.antt =====
-- The conditional UPDATE of claim, and two workers that found the same run.
use pyreljob.Backend.Claim.{
  Claimed, run_ready_clause, leased, claim_run, claim, candidates, first_id,
}
use pyreljob.Backend.History.Invariant.{claim_run-IsValid}
use pyreljob.Backend.Validity.{IsValid}
use pyreljob.Effects.{Others, alone}
use pyreljob.Models.{Time, Readings, seconds, Db, RunModel, RunRecord, run_key, from_model}
use pyreljob.Prelude.{
  ℕ, ◌-◌, ◌≤◌, String, ◌≡◌, ◌≢◌, refl, sym, ap, subst, ◌∙◌, Bool, true, false, ◌&&◌, Option, none,
  some, arith, ◌==◌, if◌then◌else◌, Bool-cases, Option-cases, inl, inr,
}
use mathlib.Core.Option.{some-injective}
use pyreljob.Sql.{update, find}
use pyreljob.Sql.Count.{Distinct}
use pyreljob.Sql.Keyed.{exists-find}
use pyreljob.Sql.Rows.{find-update, key-find}

-- The database after a successful UPDATE.
abbrev pub leased_db : ℕ → String → Time → Time → Db → Db
leased_db run_id worker_id now lease_expiry db = record db {
  runs =
      update (λ r. (r.id == run_id) && run_ready_clause now lease_expiry r) (leased worker_id now)
        db.runs;
}

pub find-leased :
    (run_id : ℕ) (worker_id : String) (now lease_expiry : Time) (db : Db) (r : RunModel)
    → find run_key run_id db.runs ≡ some r
    → run_ready_clause now lease_expiry r ≡ true
    → find run_key run_id (leased_db run_id worker_id now lease_expiry db).runs
      ≡ some (leased worker_id now r)
unfolding leased
find-leased run_id worker_id now lease_expiry db r e h = ground (
  arith,
  find-update run_key run_id
      (λ (s : RunModel). (s.id == run_id) && run_ready_clause now lease_expiry s)
      (leased worker_id now) (λ s. refl) db.runs,
  key-find run_key run_id db.runs r,
)

abbrev pub would_win : Time → Time → Option RunModel → Bool
would_win now lease_expiry none = false
would_win now lease_expiry (some r) = run_ready_clause now lease_expiry r

-- Whether the UPDATE has a row to touch.
abbrev pub is_won : ℕ → Time → Time → Db → Bool
is_won run_id now lease_expiry db = would_win now lease_expiry (find run_key run_id db.runs)

module _ (run_id : ℕ) (worker_id : String) (now lease_expiry : Time) (last : Option Time) (db : Db)
    (distinct : Distinct run_key db.runs) where
  -- A run that is due, or whose lease has expired, goes to the worker.
  pub claim_run-eq_leased :
      (r : RunModel)
      → find run_key run_id db.runs ≡ some r
      → run_ready_clause now lease_expiry r ≡ true
      → claim_run run_id worker_id now lease_expiry last db ≡ record {
        run = some (from_model (leased worker_id now r));
        last_claim_at = some now;
        db = leased_db run_id worker_id now lease_expiry db;
      }
  unfolding claim_run
  claim_run-eq_leased r e h =
      rw
        (
          exists-find run_key run_id (run_ready_clause now lease_expiry) db.runs distinct,
          e,
          h,
          find-leased run_id worker_id now lease_expiry db r e h,
          claim_run,
        )
        refl

  -- Any other claim leaves the database as it is.
  pub claim_run-eq_lost :
      is_won run_id now lease_expiry db ≡ false
      → claim_run run_id worker_id now lease_expiry last db
        ≡ record { run = none; last_claim_at = last; db = db }
  unfolding claim_run
  claim_run-eq_lost h =
      rw
        (
          exists-find run_key run_id (run_ready_clause now lease_expiry) db.runs distinct,
          h,
          claim_run,
        )
        refl

  -- The run that a claim returns: the row that it found, ready to be leased.
  pub claim_run-eq_some :
      {s : RunRecord}
      → (claim_run run_id worker_id now lease_expiry last db).run ≡ some s
      → (r : RunModel) × (find run_key run_id db.runs ≡ some r)
        × (run_ready_clause now lease_expiry r ≡ true)
        × (s ≡ from_model (leased worker_id now r))
  claim_run-eq_some {s} e = elim (Option-cases (find run_key run_id db.runs)) [
    | inl missing ↦ absurd (lost (rw (missing, is_won) refl))
    | inr (r, found) ↦ elim (Bool-cases (run_ready_clause now lease_expiry r)) [
      | inl h ↦ (
        r,
        found,
        h,
        some-injective _ _ (sym e ∙ ap (λ (c : Claimed). c.run) (claim_run-eq_leased r found h)),
      )
      | inr h ↦ absurd (lost (rw (found, is_won) h))
    ]
  ]
    where
      lost : is_won run_id now lease_expiry db ≡ false → ⊥
      lost h = cc (e, ap (λ (c : Claimed). c.run) (claim_run-eq_lost h))

-- A fresh lease is not up for the taking.
leased_not_ready :
    (worker_id : String) (now later later_expiry : Time) (r : RunModel)
    → later_expiry ≤ now
    → run_ready_clause later later_expiry (leased worker_id now r) ≡ false
unfolding leased
leased_not_ready worker_id now later later_expiry r h = ground arith

-- In valid tables, a run that is claimed cannot be claimed again until the lease has expired: of two workers that
-- found the same run, the later UPDATE touches no row, returns nothing and changes nothing.
pub claim_run-exclusive :
    (run_id : ℕ) (worker_id rival : String) (now lease_expiry later later_expiry : Time)
    (last rival_last : Option Time) (db : Db) {s : RunRecord}
    → IsValid db
    → (claim_run run_id worker_id now lease_expiry last db).run ≡ some s
    → later_expiry ≤ now
    → claim_run run_id rival later later_expiry rival_last
        (claim_run run_id worker_id now lease_expiry last db).db
      ≡ record {
        run = none;
        last_claim_at = rival_last;
        db = (claim_run run_id worker_id now lease_expiry last db).db;
      }
claim_run-exclusive run_id worker_id rival now lease_expiry later later_expiry last rival_last db v
      e h =
    let (r, found, ready, _) =
      claim_run-eq_some run_id worker_id now lease_expiry last db v.run_ids e in
    let won =
      claim_run-eq_leased run_id worker_id now lease_expiry last db v.run_ids r found ready in
    let after : Db = leased_db run_id worker_id now lease_expiry db in
    rw won (
      claim_run-eq_lost run_id rival later later_expiry rival_last after
        (subst (λ (c : Claimed). Distinct run_key c.db.runs) won
          (claim_run-IsValid v run_id worker_id now lease_expiry last).run_ids)
        (ap (would_win later later_expiry)
            (find-leased run_id worker_id now lease_expiry db r found ready)
          ∙ leased_not_ready worker_id now later later_expiry r h))

-- The run that a claim returns is the one that was asked for.
claim_run-id :
    (run_id : ℕ) (worker_id : String) (now lease_expiry : Time) (last : Option Time) (db : Db)
    (r : RunRecord)
    → (claim_run run_id worker_id now lease_expiry last db).run ≡ some r
    → r.id ≡ run_id
unfolding claim_run
claim_run-id run_id worker_id now lease_expiry last db r e =
    let runs' = (leased_db run_id worker_id now lease_expiry db).runs in
    elim (Option-cases (find run_key run_id runs')) [
      | inl missing ↦ ground (arith, missing)
      | inr (s, found) ↦ ground (arith, found, key-find run_key run_id runs' s found)
    ]

-- What claim does once its SELECT has answered.
pub claim-eq_found :
    (others : Others) (worker_id : String) (queue : Option String) (lease_seconds : ℕ)
    (now : Readings) (last : Option Time) (db : Db)
    → (k : Option ℕ)
    → first_id (candidates (now 0) (now 1 - seconds lease_seconds) queue (others 0 db)) ≡ k
    → claim others worker_id queue lease_seconds now last db ≡ (elim k [
      | none ↦ record { run = none; last_claim_at = last; db = others 0 db }
      | some run_id ↦
          claim_run run_id worker_id
            (now 0)
            (now 1 - seconds lease_seconds)
            last
            (others 1 (others 0 db))
    ])
unfolding claim
claim-eq_found others worker_id queue lease_seconds now last db k e = rw (e, claim) refl

-- Another worker's whole call of claim commits between the SELECT and the UPDATE.
abbrev pub rival_claims : String → Option String → ℕ → Readings → Option Time → Others
rival_claims worker_id queue lease_seconds now last k db =
    if k == 1 then (claim alone worker_id queue lease_seconds now last db).db else db

-- In valid tables, two concurrent calls of claim, of which one commits as a whole between the SELECT
-- and the UPDATE of the other, never return the same run, as long as the lease of the one that commits
-- first has not expired for the other.
pub claim-distinct :
    (worker_id rival : String) (queue rival_queue : Option String) (lease_seconds rival_lease : ℕ)
    (now rival_now : Readings) (last rival_last : Option Time) (db : Db) (r s : RunRecord)
    → IsValid db
    → (claim alone rival rival_queue rival_lease rival_now rival_last db).run ≡ some s
    → (claim
        (rival_claims rival rival_queue rival_lease rival_now rival_last)
        worker_id
        queue
        lease_seconds
        now
        last
        db).run
      ≡ some r
    → now 1 - seconds lease_seconds ≤ rival_now 0
    → r.id ≢ s.id
claim-distinct worker_id rival queue rival_queue lease_seconds rival_lease now rival_now last
      rival_last db r s v es er h same =
    go (first_id (candidates (rival_now 0) rival_expiry rival_queue db)) refl
      (first_id (candidates (now 0) expiry queue db)) refl
  where
    expiry : Time
    expiry = now 1 - seconds lease_seconds

    rival_expiry : Time
    rival_expiry = rival_now 1 - seconds rival_lease

    others : Others
    others = rival_claims rival rival_queue rival_lease rival_now rival_last

    go :
        (a : Option ℕ)
        → first_id (candidates (rival_now 0) rival_expiry rival_queue db) ≡ a
        → (b : Option ℕ) → first_id (candidates (now 0) expiry queue db) ≡ b
        → ⊥
    go none ea b eb = cc (
        rw (claim-eq_found alone rival rival_queue rival_lease rival_now rival_last db none ea) at
          es)
    go (some k) ea none eb =
        cc (rw (claim-eq_found others worker_id queue lease_seconds now last db none eb) at er)
    go (some k) ea (some m) eb =
        let won =
          claim-eq_found alone rival rival_queue rival_lease rival_now rival_last db (some k) ea in
        let es' = rw won at es in
        let after = (claim_run k rival (rival_now 0) rival_expiry rival_last db).db in
        let er' : (claim_run m worker_id (now 0) expiry last after).run ≡ some r =
          subst (λ (c : Claimed). (claim_run m worker_id (now 0) expiry last c.db).run ≡ some r) won
            (rw (claim-eq_found others worker_id queue lease_seconds now last db (some m) eb) at
              er) in
        let m≡k : m ≡ k =
          sym (claim_run-id m worker_id (now 0) expiry last after r er')
          ∙ same
          ∙ claim_run-id k rival (rival_now 0) rival_expiry rival_last db s es' in
        let lost =
          claim_run-exclusive k rival worker_id (rival_now 0) rival_expiry (now 0) expiry rival_last
            last db v es' h in
        cc (rw m≡k at er', ap (λ (c : Claimed). c.run) lost)
