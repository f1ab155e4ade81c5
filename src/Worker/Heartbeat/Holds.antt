-- ===== src/Worker/Heartbeat/Holds.antt =====
-- The table of active runs after a round of _heartbeat_loop.
use pyreljob.Backend.Runs.{is_leased}
use pyreljob.Models.{Db}
use pyreljob.Prelude.{ℕ, String, ◌≡◌, true, List, ◌⊎◌, All, map}
use pyreljob.Sql.{exists, is_in}
use pyreljob.Worker.Action.{Env, World}

module _ (env : Env) (worker_id : String) where
  -- The run's lease is this worker's.
  abbrev pub HoldsLease : ℕ → Db → Type 0
  HoldsLease run_id db = exists (is_leased run_id worker_id) db.runs ≡ true

  -- The run was told of the cancellation, or its lease is held, or its turn is still to come.
  abbrev IsAccounted : List ℕ → List ℕ → Db → ℕ × ℕ → Type 0
  IsAccounted told rest db entry =
      (is_in entry.0 told ≡ true) ⊎ (HoldsLease entry.0 db ⊎ (is_in entry.0 rest ≡ true))

  -- The other clients leave the worker its leases.
  module _
      (quiet : (k run_id : ℕ) (db : Db)
        → HoldsLease run_id db
        → HoldsLease run_id (env.others k db)) where
    abbrev Accounts : List ℕ → List ℕ → World → Type 0
    Accounts told rest w = All (IsAccounted told rest w.db) w.active

    abbrev keys : List (ℕ × ℕ) → List ℕ
    keys entries = map (λ e. e.0) entries
