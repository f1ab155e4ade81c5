-- ===== src/Worker/Action.antt =====
-- The calls that one execution of a run makes, one after the other, with what surrounds the worker.
use pyreljob.Effects.{Others}
use pyreljob.Models.{Time, Readings, Db, Inserted, Result, ok, raised}
use pyreljob.Prelude.{ℕ, suc, String, Option, List, [], ◌∷◌, ◌++◌, ℤ}
use pyreljob.Task.{JobClass}

-- What the worker does not decide, by the number of the step: what others commit before it, what the
-- clock shows to the backend and to the worker, which key a new row gets, and the random delay before
-- another attempt. Besides, the classes that are registered under a name and those that a name imports,
-- int(…) of a text, and repr(…).
pub record Env : Type 0 where
  pub others : Others
  pub clock : ℕ → Readings
  pub now : ℕ → Time
  pub inserted : ℕ → Inserted
  pub backoff : ℕ → ℕ → Time
  pub registry : String → Option JobClass
  pub resolve_job : String → Option JobClass
  pub read_int : String → Result ℤ
  pub repr : String → String

-- The database, the number of the next step, the runs that the heartbeat renews with their jobs, and
-- the calls of user code so far: the positions whose task ran, and those whose task was undone.
pub record World : Type 0 where
  pub db : Db
  pub step : ℕ
  pub active : List (ℕ × ℕ)
  pub ran : List ℕ
  pub undone : List ℕ

-- What was done before a raise stays done.
abbrev pub Action : Type 0 → Type 0
Action A = World → Result A × World

abbrev pub pure : {A : Type 0} → A → Action A
pure a w = (ok a, w)

abbrev pub lift : {A : Type 0} → Result A → Action A
lift r w = (r, w)

abbrev pub continue : {A B : Type 0} → Result A → (A → Action B) → Action B
continue (ok a) f w = f a w
continue (raised e) f w = (raised e, w)

infixl 10 ◌>>=◌ ◌>>◌
abbrev pub ◌>>=◌ : {A B : Type 0} → Action A → (A → Action B) → Action B
◌>>=◌ m f w = let (r, w') = m w in continue r f w'

abbrev pub ◌>>◌ : {A B : Type 0} → Action A → Action B → Action B
m >> n = m >>= λ _. n

-- `try: m … finally: …`
abbrev pub finally : {A : Type 0} → Action A → (World → World) → Action A
finally m f w = let (r, w') = m w in (r, f w')

-- `except Exception: handler`
abbrev pub recover : Result (Unit {0}) → Action (Unit {0}) → Action (Unit {0})
recover (ok a) handler w = (ok a, w)
recover (raised e) handler w = handler w

abbrev pub catch : Action (Unit {0}) → Action (Unit {0}) → Action (Unit {0})
catch m handler w = let (r, w') = m w in recover r handler w'

-- The number of the step, for what user code and the clock answer now.
abbrev pub current_step : Action ℕ
current_step w = (ok w.step, w)

-- The task at a position runs, or is undone.
abbrev pub note_run : ℕ → Action (Unit {0})
note_run position w = (ok tt, record w { ran = w.ran ++ position ∷ [] })

abbrev pub note_undo : ℕ → Action (Unit {0})
note_undo position w = (ok tt, record w { undone = w.undone ++ position ∷ [] })

-- A call that may raise, and then changes nothing.
abbrev pub written : Db → Result Db → Result (Unit {0}) × Db
written db (ok db') = (ok tt, db')
written db (raised e) = (raised e, db)

module _ (env : Env) where
  -- A call of the backend, in one transaction; others write first.
  unfoldable pub transact : {A : Type 0} → (ℕ → Db → A × Db) → Action A
  transact f w =
      let (a, db) = f w.step (env.others w.step w.db) in
      (ok a, record w { db = db; step = suc w.step })

  unfoldable pub read : {A : Type 0} → (Db → A) → Action A
  unfolding transact
  read f = transact (λ k db. (f db, db))

  unfoldable pub write : (ℕ → Db → Db) → Action (Unit {0})
  unfolding transact
  write f = transact (λ k db. (tt, f k db))

  unfoldable pub write_or_raise : (ℕ → Db → Result Db) → Action (Unit {0})
  write_or_raise f w =
      let before = env.others w.step w.db in
      let (r, db) = written before (f w.step before) in (r, record w { db = db; step = suc w.step })
