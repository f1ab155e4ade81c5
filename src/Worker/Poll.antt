-- ===== src/Worker/Poll.antt =====
-- pyreljob/worker.py: one pass of the loop that claims runs, _poll_once. An execution that was started
-- is known by its run; what it does meanwhile is what others do.
use pyreljob.Backend.Claim.{Claimed, claim}
use pyreljob.Effects.{Others}
use pyreljob.Models.{Time, Readings, Db, RunRecord}
use pyreljob.Prelude.{
  length-snoc, ℕ, zero, suc, ◌-◌, String, ◌≡◌, refl, arith, Bool, true, false, not, ◌&&◌, Option,
  none, some, List, [], ◌∷◌, ◌++◌, ◌⊎◌, leb, ltb, length, inl, inr, if◌then◌else◌,
}
use pyreljob.Sql.{select}

-- The arguments of Worker(…) that polling reads.
pub record Settings : Type 0 where
  pub worker_id : String
  pub queue : Option String
  pub lease_seconds : ℕ
  pub max_concurrency : ℕ

-- What surrounds the loop, by the number of the call of claim: what others commit, the clock, whether
-- stop() has not been called yet, and which executions are done.
pub record Surroundings : Type 0 where
  pub others : ℕ → Others
  pub clock : ℕ → Readings
  pub is_running : ℕ → Bool
  pub is_done : ℕ → ℕ → Bool

-- The database, last_claim_at of the backend, the number of the next call of claim, and the runs whose
-- executions the loop waits for.
pub record Pool : Type 0 where
  pub db : Db
  pub last : Option Time
  pub calls : ℕ
  pub pending : List ℕ

module _ (s : Settings) (e : Surroundings) where
  -- `self._running and len(pending) < self._max_concurrency`
  abbrev pub has_room : Pool → Bool
  has_room p = e.is_running p.calls && ltb (length p.pending) s.max_concurrency

  abbrev pub asked : Pool → Claimed
  unfolding claim
  asked p =
      claim (e.others p.calls) s.worker_id s.queue s.lease_seconds (e.clock p.calls) p.last p.db

  abbrev pub started : Pool → Claimed → List ℕ → Pool
  started p c ids = record {
    db = c.db;
    last = c.last_claim_at;
    calls = suc p.calls;
    pending = p.pending ++ ids;
  }

  abbrev pub after_claim : (Pool → Pool) → Pool → Claimed → Option RunRecord → Pool
  after_claim rest p c none = started p c []
  after_claim rest p c (some r) = rest (started p c (r.id ∷ []))

  -- The loop that claims, for at most so many rounds.
  unfoldable pub fill : ℕ → Pool → Pool
  unfolding claim
  fill zero p = p
  fill (suc n) p =
      let more = after_claim (fill n) p (asked p) (asked p).run in if has_room p then more else p

  -- `rounds` bounds the loop that claims. pending.difference_update(…); without a pending execution it sleeps, and there is none to remove.
  unfoldable pub poll_once : ℕ → Pool → Pool
  unfolding fill
  poll_once rounds p =
      let p' = fill rounds p in
      record p' { pending = select (λ id. not (e.is_done p'.calls id)) p'.pending }

  length-nil : (xs : List ℕ) → length (xs ++ []) ≡ length xs
  length-nil [] = refl
  length-nil (y ∷ xs) = ground (arith, length-nil xs)

  length-select : (p : ℕ → Bool) (xs : List ℕ) → leb (length (select p xs)) (length xs) ≡ true
  unfolding select
  length-select p [] = ground arith
  length-select p (x ∷ xs) = ground (arith, length-select p xs)

  fill-bounded :
      (n : ℕ) (p : Pool)
      → leb (length p.pending) s.max_concurrency ≡ true
      → leb (length (fill n p).pending) s.max_concurrency ≡ true
  unfolding fill
  fill-bounded zero p h = h
  fill-bounded (suc n) p h = choose (has_room p) refl (fill-bounded n)
    where
      bounded : Pool → Type 0
      bounded q = leb (length q.pending) s.max_concurrency ≡ true

      go :
          (o : Option RunRecord)
          → has_room p ≡ true
          → ((q : Pool) → bounded q → bounded (fill n q))
          → bounded (after_claim (fill n) p (asked p) o)
      go none room ih = ground (arith, h, length-nil p.pending)
      go (some r) room ih =
          ih (started p (asked p) (r.id ∷ [])) (ground (arith, room, length-snoc p.pending r.id))

      choose :
          (b : Bool)
          → has_room p ≡ b
          → ((q : Pool) → bounded q → bounded (fill n q))
          → bounded (if b then after_claim (fill n) p (asked p) (asked p).run else p)
      choose true room ih = go (asked p).run room ih
      choose false full ih = h

  -- After a pass, with whatever number of rounds, the worker waits for no more executions than it may run
  -- at the same time, if that was so before.
  pub poll_once-bounded :
      (rounds : ℕ) (p : Pool)
      → leb (length p.pending) s.max_concurrency ≡ true
      → leb (length (poll_once rounds p).pending) s.max_concurrency ≡ true
  unfolding poll_once
  poll_once-bounded rounds p h =
      let q = fill rounds p in
      ground
        (arith, fill-bounded rounds p h, length-select (λ id. not (e.is_done q.calls id)) q.pending)

  -- Why the loop ends: there is no room or the worker is to stop, or a claim found nothing.
  abbrev pub HasStopped : Pool → Type 0
  unfolding asked
  HasStopped p =
      (has_room p ≡ false) ⊎ ((q : Pool) × ((asked q).run ≡ none) × (p ≡ started q (asked q) []))

  -- With as many rounds as there were free places, the loop that claims ends because there is no room or
  -- the worker is to stop, or because a claim found nothing.
  pub fill-stops :
      (n : ℕ) (p : Pool)
      → leb (s.max_concurrency - length p.pending) n ≡ true
      → HasStopped (fill n p)
  unfolding fill
  fill-stops zero p h = inl (ground (arith, h))
  fill-stops (suc n) p h = choose (has_room p) refl (fill-stops n)
    where
      go :
          (o : Option RunRecord)
          → (asked p).run ≡ o
          → ((q : Pool)
              → leb (s.max_concurrency - length q.pending) n ≡ true
              → HasStopped (fill n q))
          → HasStopped (after_claim (fill n) p (asked p) o)
      go none found ih = inr (p, found, refl)
      go (some r) found ih =
          ih (started p (asked p) (r.id ∷ [])) (ground (arith, h, length-snoc p.pending r.id))

      choose :
          (b : Bool)
          → has_room p ≡ b
          → ((q : Pool)
              → leb (s.max_concurrency - length q.pending) n ≡ true
              → HasStopped (fill n q))
          → HasStopped (if b then after_claim (fill n) p (asked p) (asked p).run else p)
      choose true room ih = go (asked p).run refl ih
      choose false full ih = inl full
