-- ===== src/Worker/Heartbeat.antt =====
-- pyreljob/worker.py: one round of _heartbeat_loop over the runs that the worker executes.
pub mod Told
pub mod Holds
use mathlib.Core.List.{append-nil, append_assoc}
use pyreljob.Backend.Jobs.{is_job_cancelled}
use pyreljob.Backend.Runs.{is_leased, renew_lease}
use pyreljob.Models.{Readings, Db, ok}
use pyreljob.Prelude.{
  ℕ, suc, String, ◌≡◌, refl, ◌∙◌, arith, Bool, true, not, List, [], ◌∷◌, ◌++◌, ◌⊎◌, inl, inr, ◌==◌,
  All, All-map_mono, subst, map, Bool-cases, if◌then◌else◌,
}
use pyreljob.Sql.{exists, is_in}
use pyreljob.Sql.Exists.{exists-update, is_in-append, All-selected}
use pyreljob.Worker.Action.{Env, World, Action, pure, ◌>>=◌, ◌>>◌, read, transact}
use pyreljob.Worker.Execute.{pop_active, stop_active}

-- _active.pop(run_id, None)
abbrev pub drop_active : ℕ → Action (Unit {0})
unfolding pop_active
drop_active run_id w = (ok tt, stop_active run_id w)

module _ (env : Env) (worker_id : String) where
  -- The runs whose context is told of the cancellation: the one of this entry, or none.
  unfoldable pub beat_one : ℕ → ℕ → Action (List ℕ)
  unfolding read transact pop_active
  beat_one run_id job_id = do
    cancelled ← read env (is_job_cancelled job_id)
    if cancelled then pure (run_id ∷ []) else (do
      renewed ← transact env (λ k. renew_lease run_id worker_id (env.clock k))
      if renewed then pure [] else (drop_active run_id >> pure []))

  unfoldable pub beat_all : List (ℕ × ℕ) → Action (List ℕ)
  unfolding beat_one
  beat_all [] = pure []
  beat_all ((run_id, job_id) ∷ rest) = do
    told ← beat_one run_id job_id
    more ← beat_all rest
    pure (told ++ more)

  -- `for … in list(self._active.items())`
  unfoldable pub heartbeat : Action (List ℕ)
  unfolding beat_all
  heartbeat w = beat_all w.active w
