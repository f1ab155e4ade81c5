-- ===== src/Worker/Tick.antt =====
-- pyreljob/worker.py: _tick, which claims one run and executes it.
use pyreljob.Backend.Claim.Next.{claim-IsNext, claimed, IsNext, NothingClaimable}
use pyreljob.Backend.Claim.{Claimed, claim, leased}
use pyreljob.Backend.Validity.{IsValid}
use pyreljob.Effects.{alone}
use pyreljob.Models.{Time, RunRecord, RunModel, Result, ok, seconds, from_model}
use pyreljob.Prelude.{◌+◌, ◌-◌, ◌≡◌, refl, sym, ◌∙◌, ap, subst, Option, none, some, ◌⊎◌, inl, inr}
use pyreljob.Worker.Action.{Env, World}
use pyreljob.Worker.Execute.{execute}
use pyreljob.Worker.Poll.{Settings}
use pyreljob.Worker.Settled.{IsSettled}
use pyreljob.Worker.Settled.Always.{execute-settles}

-- What _tick ends with, and the attribute last_claim_at of the backend after it.
pub record Ticked : Type 0 where
  pub result : Result (Unit {0})
  pub last_claim_at : Option Time
  pub world : World

module _ (env : Env) (s : Settings) where
  -- The claim is two steps.
  abbrev pub claimed_by : Option Time → World → Claimed
  unfolding claim
  claimed_by last w =
      claim (λ k. env.others (w.step + k)) s.worker_id s.queue s.lease_seconds (env.clock w.step)
        last w.db

  abbrev pub executed : Option RunRecord → World → Result (Unit {0}) × World
  unfolding execute
  executed none w = (ok tt, w)
  executed (some r) w = execute env r w

  abbrev pub after_claimed : Claimed → World → Ticked
  unfolding executed
  after_claimed c w =
      let (result, w') = executed c.run (record w { db = c.db; step = w.step + 2 }) in
      record { result = result; last_claim_at = c.last_claim_at; world = w' }

  -- _tick
  unfoldable pub claim_and_execute : Option Time → World → Ticked
  unfolding claimed_by after_claimed
  claim_and_execute last w = after_claimed (claimed_by last w) w

  -- `t` returned, and the first of the claimable runs is not running afterwards; or no run was
  -- claimable, and nothing changed.
  abbrev pub NextSettled : World → Ticked → Type 0
  NextSettled w t =
      let now = env.clock w.step in
      let expiry : Time = now 1 - seconds s.lease_seconds in
      (t.result ≡ ok tt)
      × (((r : RunModel) × IsNext (now 0) expiry s.queue w.db r × IsSettled r.id t.world.db)
          ⊎ (NothingClaimable (now 0) expiry s.queue w.db × (t.world.db ≡ w.db)))

  -- With nobody else writing, in valid tables, _tick returns, and the first of the claimable runs, by
  -- priority and then by id, is no longer running afterwards; if no run is claimable it changes nothing.
  pub claim_and_execute-settles :
      (last : Option Time) (w : World)
      → env.others ≡ alone
      → IsValid w.db
      → NextSettled w (claim_and_execute last w)
  unfolding claim_and_execute claimed_by after_claimed executed leased
  claim_and_execute-settles last w quiet valid =
      let now = env.clock w.step in
      let expiry : Time = now 1 - seconds s.lease_seconds in
      let same : claimed_by last w ≡ claim alone s.worker_id s.queue s.lease_seconds now last w.db =
        ap (λ o. claim (λ k. o (w.step + k)) s.worker_id s.queue s.lease_seconds now last w.db)
          quiet in
      elim (claim-IsNext s.worker_id s.queue s.lease_seconds now last w.db valid) [
        | inl (r, next, e) ↦
            let c = claimed r s.worker_id (now 0) expiry w.db in
            let ends =
              execute-settles env (from_model (leased s.worker_id (now 0) r))
                (λ k db h. subst (λ o. IsSettled r.id (o k db)) (sym quiet) h)
                (record w { db = c.db; step = w.step + 2 }) in
            subst (λ x. NextSettled w (after_claimed x w)) (sym (same ∙ e))
              (ends.0, inl (r, next, ends.1))
        | inr (nothing, e) ↦
            subst (λ x. NextSettled w (after_claimed x w)) (sym (same ∙ e))
              (refl, inr (nothing, refl))
      ]
