-- ===== src/Json.antt =====
-- JSON values, for the JSON columns `args`, `result`, `ctx` and for the worker's task context.
pub mod Values
use pyreljob.Prelude.{ℤ, Float, String, Bool}

mutual
  pub data Json : Type 0 where
    null : Json
    bool : Bool → Json
    int : ℤ → Json
    float : Float → Json
    text : String → Json
    arr : Items → Json
    obj : Dict → Json

  pub data Items : Type 0 where
    nil : Items
    cons : Json → Items → Items

  -- A dict with text keys, in insertion order.
  pub data Dict : Type 0 where
    end : Dict
    entry : String → Json → Dict → Dict
