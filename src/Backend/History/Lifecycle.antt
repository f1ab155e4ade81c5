-- ===== src/Backend/History/Lifecycle.antt =====
-- The life cycle of a run along the histories of the tables, transaction by transaction.
use pyreljob.Backend.History.{Write, apply}
use pyreljob.Models.{Db}
use pyreljob.Prelude.{ℕ, List, [], ◌∷◌}
use pyreljob.Backend.History.Moves.{Moves, status_of}

-- Each transaction of a history moves the run.
pub EachMoves : List Write → ℕ → Db → Type 0
unfolding apply
EachMoves [] k db = Unit
EachMoves (w ∷ ws) k db =
    Moves k w (status_of k db) (status_of k (apply w db)) × EachMoves ws k (apply w db)
