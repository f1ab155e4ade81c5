-- ===== src/Worker/Rules.antt =====
-- Rules for the worker's actions, one for each way to build an action.
use pyreljob.Backend.History.{Write, apply, after_task}
use pyreljob.Models.{Db, Result, ok, raised}
use pyreljob.Prelude.{ℕ, suc, ◌≡◌, refl, ap, subst, ◌∙◌, arith, Bool, true, false, if◌then◌else◌}
use pyreljob.Worker.Action.{
  Env, World, Action, pure, lift, continue, ◌>>=◌, finally, current_step, transact, read, write,
  write_or_raise, written,
}

-- The transactions that an execution of a run commits.
abbrev pub IsWorkerWrite : Write → Type 0
IsWorkerWrite (Write.increments _ _) = Unit
IsWorkerWrite (Write.resets _ _) = Unit
IsWorkerWrite (Write.arms _ _ _) = Unit
IsWorkerWrite (Write.completes _ _ _) = Unit
IsWorkerWrite (Write.fails _ _ _ _ _) = Unit
IsWorkerWrite (Write.cancels_run _ _) = Unit
IsWorkerWrite (Write.sets_ctx _ _ _) = Unit
IsWorkerWrite (Write.sets_progress _ _ _) = Unit
IsWorkerWrite (Write.creates_run _ _ _ _) = Unit
IsWorkerWrite (Write.starts_task _ _ _ _ _ _) = Unit
IsWorkerWrite (Write.succeeds_task _ _ _ _) = Unit
IsWorkerWrite (Write.fails_task _ _ _ _ _ _) = Unit
IsWorkerWrite (Write.cancels_task _ _ _) = Unit
IsWorkerWrite (Write.compensates_task _ _ _) = Unit
IsWorkerWrite _ = ⊥

-- The world after one step that leaves `db` behind.
abbrev pub stepped : Db → World → World
stepped db w = record w { db = db; step = suc w.step }

abbrev value_or : {A : Type 0} → A → Result A → A
value_or x (ok a) = a
value_or x (raised e) = x

-- What holds after every step if it held before it.
pub record Tolerates (env : Env) (P : World → Type 0) : Type 0 where
  pub reads : (w : World) → P w → P (stepped (env.others w.step w.db) w)
  pub writes :
      (c : Write) (w : World)
      → IsWorkerWrite c
      → P w
      → P (stepped (apply c (env.others w.step w.db)) w)

-- `m` keeps P, whether it returns or raises.
pub record Keeps {A : Type 0} (P : World → Type 0) (m : Action A) : Type 0 where
  pub at : (w : World) → P w → P (m w).1

module _ {A : Type 0} {P : World → Type 0} where
  pub Keeps-pure : (a : A) → Keeps P (pure a)
  Keeps-pure a = record { at = λ w h. h }

  pub Keeps-lift : (r : Result A) → Keeps P (lift r)
  Keeps-lift r = record { at = λ w h. h }

  pub Keeps-if : (b : Bool) (m n : Action A) → Keeps P m → Keeps P n → Keeps P (if b then m else n)
  Keeps-if true m n km kn = km
  Keeps-if false m n km kn = kn

module _ {A B : Type 0} {P : World → Type 0} where
  continue-keeps :
      (r : Result A) (f : A → Action B) (w : World)
      → P w
      → ((a : A) → Keeps P (f a))
      → P (continue r f w).1
  continue-keeps (ok a) f w h kf = (kf a).at w h
  continue-keeps (raised e) f w h kf = h

  pub Keeps-bind :
      (m : Action A) (f : A → Action B) → Keeps P m → ((a : A) → Keeps P (f a)) → Keeps P (m >>= f)
  Keeps-bind m f km kf = record { at = λ w h. continue-keeps (m w).0 f (m w).1 (km.at w h) kf }

module _ {P : World → Type 0} where
  pub Keeps-step : Keeps P current_step
  Keeps-step = record { at = λ w h. h }

module _ {env : Env} {P : World → Type 0} (t : Tolerates env P) where
  pub Keeps-read : {A : Type 0} (f : Db → A) → Keeps P (read env f)
  unfolding read
  Keeps-read f = record { at = λ w h. t.reads w h }

  -- A call that does what a transaction does.
  pub Keeps-transact :
      {A : Type 0} (f : ℕ → Db → A × Db) (c : ℕ → Write)
      → ((k : ℕ) → IsWorkerWrite (c k))
      → ((k : ℕ) (db : Db) → apply (c k) db ≡ (f k db).1)
      → Keeps P (transact env f)
  unfolding transact
  Keeps-transact f c ours same = record {
    at = λ w h.
        subst (λ db. P (stepped db w)) (same w.step (env.others w.step w.db))
          (t.writes (c w.step) w (ours w.step) h);
  }

  pub Keeps-write :
      (f : ℕ → Db → Db) (c : ℕ → Write)
      → ((k : ℕ) → IsWorkerWrite (c k))
      → ((k : ℕ) (db : Db) → apply (c k) db ≡ f k db)
      → Keeps P (write env f)
  unfolding write
  Keeps-write f c ours same = Keeps-transact (λ k db. (tt, f k db)) c ours same

  pub Keeps-write_or_raise :
      (f : ℕ → Db → Result Db) (c : ℕ → Write)
      → ((k : ℕ) → IsWorkerWrite (c k))
      → ((k : ℕ) (db : Db) → apply (c k) db ≡ after_task db (f k db))
      → Keeps P (write_or_raise env f)
  unfolding write_or_raise
  Keeps-write_or_raise f c ours same = record {
    at = λ w h.
        let before = env.others w.step w.db in
        subst (λ db. P (stepped db w)) (same w.step before ∙ kept (f w.step before) before)
          (t.writes (c w.step) w (ours w.step) h);
  }
    where
      kept : (r : Result Db) (before : Db) → after_task before r ≡ (written before r).1
      kept (ok db) before = refl
      kept (raised e) before = refl

-- From P, `m` returns with Q, or it raises.
pub record Ends {A : Type 0} (P : World → Type 0) (m : Action A) (Q : A → World → Type 0)
    : Type 0 where
  pub at : (w : World) → P w → (a : A) → (m w).0 ≡ ok a → Q a (m w).1

module _ {A : Type 0} {P : World → Type 0} where
  pub Ends-Keeps : (m : Action A) → Keeps P m → Ends P m (λ a. P)
  Ends-Keeps m k = record { at = λ w h a e. k.at w h }

  pub Ends-pure : {Q : A → World → Type 0} (a : A) → ((w : World) → P w → Q a w) → Ends P (pure a) Q
  Ends-pure {Q} a q = record { at = λ w h b e. subst (λ c. Q c w) (ok-injective a b e) (q w h) }
    where
      ok-injective : (x y : A) → ok x ≡ ok y → x ≡ y
      ok-injective x y e = ap (λ r. value_or x r) e

  pub Ends-any : (m : Action A) → Ends P m (λ a w. Unit)
  Ends-any m = record { at = λ w h a e. tt }

  pub Ends-if :
      {Q : A → World → Type 0} (b : Bool) (m n : Action A)
      → Ends P m Q
      → Ends P n Q
      → Ends P (if b then m else n) Q
  Ends-if true m n em en = em
  Ends-if false m n em en = en

module _ {A B : Type 0} {P : World → Type 0} {R : A → World → Type 0} {Q : B → World → Type 0} where
  pub Ends-bind :
      (m : Action A) (f : A → Action B)
      → Ends P m R
      → ((a : A) → Ends (R a) (f a) Q)
      → Ends P (m >>= f) Q
  Ends-bind m f em ef = record { at = λ w h b e. go w h b (m w).0 refl e }
    where
      go :
          (w : World)
          → P w
          → (b : B) (r : Result A) → (m w).0 ≡ r
          → (continue r f (m w).1).0 ≡ ok b
          → Q b (continue r f (m w).1).1
      go w h b (ok a) e1 e2 = (ef a).at (m w).1 (em.at w h a e1) b e2
      go w h b (raised x) e1 e2 = absurd (ground (arith, e2))

module _ {A : Type 0} {P : World → Type 0} {Q : A → World → Type 0} where
  pub Ends-finally :
      (m : Action A) (f : World → World)
      → ((a : A) (w : World) → Q a w → Q a (f w))
      → Ends P m Q
      → Ends P (finally m f) Q
  Ends-finally m f keep em = record { at = λ w h a e. keep a (m w).1 (em.at w h a e) }
