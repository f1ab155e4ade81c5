-- ===== src/Manager.antt =====
-- pyreljob/manager.py: the beat, which fires the maintained jobs that are due.
pub mod Api
pub mod Overlap
pub mod Undo
use pyreljob.Backend.Beat.{list_scheduled, claim_scheduled}
use pyreljob.Backend.Reconcile.{Reconciled, reconcile_abandoned}
use pyreljob.Backend.Runs.{create_run}
use pyreljob.Effects.{Others}
use pyreljob.Models.{Time, Readings, seconds, Db, Inserted, JobRecord}
use pyreljob.Prelude.{
  ℕ, suc, ◌-◌, Bool, true, false, not, ◌&&◌, Option, none, some, List, [], ◌∷◌, ltb, if◌then◌else◌,
}

-- `now - next_run_at > timedelta(seconds=grace)`
unfoldable pub is_misfired : Option Time → Time → Option ℕ → Bool
is_misfired next_run_at now none = false
is_misfired none now (some grace) = false
is_misfired (some t) now (some grace) = ltb (seconds grace) (now - t)

-- What the clock and the database answer while the beat looks at one job, and what the other clients
-- commit just before claim_scheduled (number 0) and just before create_run (number 1).
pub record Moment : Type 0 where
  pub now : Time
  pub claimed_at : Readings
  pub created_at : Readings
  pub row : Inserted
  pub others : Others

-- `job.next_run_at is not None and job.next_run_at > now`
abbrev pub is_early : Option Time → Time → Bool
is_early none now = false
is_early (some t) now = ltb now t

-- The body of the loop of tick, for one job of the list.
unfoldable pub fire : Option ℕ → Moment → JobRecord → Db → Db
unfolding is_misfired
fire grace m job db =
    let (fired, claimed) = claim_scheduled job.id none m.claimed_at (m.others 0 db) in
    let (run, created) = create_run m.row job.id none m.created_at (m.others 1 claimed) in
    if is_early job.next_run_at m.now
    then db
    else if not fired
    then claimed
    else if is_misfired job.next_run_at m.now grace
    then claimed
    else created

-- `moments k` surrounds the look at the job number k.
unfoldable pub fire_all : (ℕ → Moment) → Option ℕ → ℕ → List JobRecord → Db → Db
unfolding fire
fire_all moments grace k [] db = db
fire_all moments grace k (job ∷ jobs) db =
    fire_all moments grace (suc k) jobs (fire grace (moments k) job db)

abbrev pub grace_of : Option ℕ → Option ℕ → Option ℕ
grace_of none default = default
grace_of (some grace) default = some grace

-- `before_list` is what the other clients commit before the list is read.
abbrev pub tick_after : (Db → Db) → (ℕ → Moment) → Option ℕ → Option (Reconciled × Db) → Option Db
unfolding fire_all
tick_after before_list moments grace none = none
tick_after before_list moments grace (some (counts, db)) =
    let listed = before_list db in some (fire_all moments grace 0 (list_scheduled listed) listed)

-- The settings of the manager, and the attribute last_claim_at of its backend.
pub record Beat : Type 0 where
  pub misfire_grace : Option ℕ
  pub abandoned_grace : ℕ
  pub last_claim_at : Option Time

-- JobManager.tick: the sweep of abandoned runs, then every active maintained job in turn. `none` if the
-- fuel of the sweep runs out.
unfoldable pub tick :
    ℕ → Others → (Db → Db) → Readings → (ℕ → Moment) → Beat → Option ℕ → Db → Option Db
unfolding fire_all
tick fuel sweep_others before_list now moments beat grace db =
    tick_after before_list moments (grace_of grace beat.misfire_grace)
      (reconcile_abandoned fuel sweep_others beat.abandoned_grace beat.last_claim_at now db)
