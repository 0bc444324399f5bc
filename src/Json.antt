-- ===== src/Json.antt =====
-- The values of Python that `json.loads` returns. Floats keep their literal.
use webhook_relay_api.Prelude.{String, Bool}
use webhook_relay_api.Prelude.Int.{ℤ}

mutual
  pub data Json : Type 0 where
    null : Json
    bool : Bool → Json
    int : ℤ → Json
    float str : String → Json
    arr : Items → Json
    obj : Fields → Json

  pub data Items : Type 0 where
    nil : Items
    cons : Json → Items → Items

  pub data Fields : Type 0 where
    end : Fields
    field : String → Json → Fields → Fields
