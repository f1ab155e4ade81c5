-- ===== src/Witnesses/Polling.antt =====
-- A worker that polls the sample database, and its heartbeat.
use pyreljob.Effects.{alone}
use pyreljob.Prelude.{◌+◌, ◌≡◌, refl, true, false, none, [], ◌∷◌, leb, length}
use pyreljob.Samples.{office_db, clock}
use pyreljob.Samples.Office.{office_world}
use pyreljob.Worker.Action.{World}
use pyreljob.Worker.Poll.{
  Settings, Surroundings, Pool, HasStopped, fill, poll_once, fill-stops, poll_once-bounded,
}

abbrev two_at_once : Settings
two_at_once = record { worker_id = "w2"; queue = none; lease_seconds = 0; max_concurrency = 2 }

abbrev quiet_office : Surroundings
quiet_office = record {
  others = λ k. alone;
  clock = λ k. clock (100 + k);
  is_running = λ k. true;
  is_done = λ k id. false;
}

abbrev idle_pool : Pool
idle_pool = record { db = office_db; last = none; calls = 0; pending = [] }

poll_once-bounded_example :
    leb (length (poll_once two_at_once quiet_office 5 idle_pool).pending) 2 ≡ true
poll_once-bounded_example = poll_once-bounded two_at_once quiet_office 5 idle_pool refl

fill-stops_example : HasStopped two_at_once quiet_office (fill two_at_once quiet_office 2 idle_pool)
fill-stops_example = fill-stops two_at_once quiet_office 2 idle_pool refl

abbrev beating_world : World
beating_world = record office_world { active = (3, 3) ∷ (2, 1) ∷ [] }
