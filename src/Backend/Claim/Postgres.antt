-- ===== src/Backend/Claim/Postgres.antt =====
-- PostgresBackend.claim against the portable claim.
use mathlib.Core.List.{Memᴰ}
use mathlib.Core.Option.{some-injective}
use pyreljob.Backend.Claim.Exclusive.{find-leased, claim-eq_found, claim_run-eq_leased}
use pyreljob.Backend.Claim.Next.{candidates-cons}
use pyreljob.Backend.Claim.{
  Claimed, RunJob, run_ready_clause, leased, claim, pg_claim, candidates, first_id,
}
use pyreljob.Backend.Validity.{IsValid}
use pyreljob.Effects.{alone}
use pyreljob.Models.{Time, Readings, seconds, Db, RunModel, run_key, from_model}
use pyreljob.Prelude.{
  ℕ, ◌-◌, String, ◌≡◌, refl, sym, ap, ◌∙◌, Bool, true, false, not, ◌&&◌, Option, none, some, List,
  [], ◌∷◌, arith, ◌==◌, ==_iff,
}
use pyreljob.Sql.{select, update, find}
use pyreljob.Sql.Count.{Distinct}
use pyreljob.Sql.Keyed.{update-ext, find-of_mem, All-of_mem}

select-all {ℓ} : {A : Type ℓ} (xs : List A) → select (λ x. not false) xs ≡ xs
unfolding select
select-all [] = refl
select-all (x ∷ xs) = ap (◌∷◌ x) (select-all xs)

-- With distinct keys, the rows with the key of a claimable run are claimable.
update-leased :
    (worker_id : String) (now lease_expiry : Time) (runs : List RunModel) (r : RunModel)
    → Distinct run_key runs
    → Memᴰ r runs
    → run_ready_clause now lease_expiry r ≡ true
    → update (λ s. s.id == r.id) (leased worker_id now) runs
      ≡ update
          (λ s. (s.id == r.id) && run_ready_clause now lease_expiry s)
          (leased worker_id now)
          runs
update-leased worker_id now lease_expiry runs r d m ready =
    update-ext _ _ _ runs (All-of_mem _ runs (λ s n. one s n (s.id == r.id) refl))
  where
    one :
        (s : RunModel)
        → Memᴰ s runs
        → (b : Bool) → (s.id == r.id) ≡ b
        → (s.id == r.id) ≡ ((s.id == r.id) && run_ready_clause now lease_expiry s)
    one s n false e = rw e refl
    one s n true e =
        let same : s ≡ r = some-injective s r (
          sym (find-of_mem run_key runs s d n)
          ∙ ap (λ k. find run_key k runs) ((==_iff s.id r.id).0 e)
          ∙ find-of_mem run_key runs r d m) in
        rw e (rw same (sym ready))

abbrev won_with : RunModel → String → Time → Db → List RunModel → Claimed
won_with r worker_id now db runs = record {
  run = some (from_model (leased worker_id now r));
  last_claim_at = some now;
  db = record db { runs = runs };
}

-- In valid tables, and where no other transaction holds a lock and nobody else writes, PostgresBackend.claim is the portable claim.
pub pg_claim-eq_claim :
    (worker_id : String) (queue : Option String) (lease_seconds : ℕ) (now : Readings)
    (last : Option Time) (db : Db)
    → IsValid db
    → pg_claim (λ p. false) worker_id queue lease_seconds now last db
      ≡ claim alone worker_id queue lease_seconds now last db
unfolding pg_claim candidates
pg_claim-eq_claim worker_id queue lease_seconds now last db v =
    go (candidates (now 0) expiry queue db) refl
  where
    expiry : Time
    expiry = now 1 - seconds lease_seconds

    go :
        (rows : List RunJob)
        → candidates (now 0) expiry queue db ≡ rows
        → pg_claim (λ p. false) worker_id queue lease_seconds now last db
          ≡ claim alone worker_id queue lease_seconds now last db
    go [] e =
        rw
          (
            claim-eq_found alone worker_id queue lease_seconds now last db none (ap first_id e),
            select-all,
            e,
            pg_claim,
          )
          refl
    go ((r, j) ∷ rest) e =
        let next = candidates-cons (now 0) expiry queue db r j rest e in
        let found = find-of_mem run_key db.runs r v.run_ids next.run_listed in
        let ready : run_ready_clause (now 0) expiry r ≡ true = ground (arith, next.claimable) in
        rw
          (
            claim-eq_found alone worker_id queue lease_seconds now last db (some r.id)
                (ap first_id e),
            claim_run-eq_leased r.id worker_id (now 0) expiry last db v.run_ids r found ready,
            select-all,
            e,
            update-leased worker_id (now 0) expiry db.runs r v.run_ids next.run_listed ready,
            find-leased r.id worker_id (now 0) expiry db r found ready,
            pg_claim,
          )
          (ap (won_with r worker_id (now 0) db)
            (update-leased worker_id (now 0) expiry db.runs r v.run_ids next.run_listed ready))
