-- ===== src/Base/Json.antt =====
-- JSON values, as columns of type JSONB, request payloads and log events hold them.
use mathlib.Core.Bool.{Bool}
use orbi_inference.Base.Text.{Text}

-- Numbers are kept as their text, since the gateway never computes with them.
mutual
  pub data Json : Type 0 where
    null : Json
    bool : Bool → Json
    num : Text → Json
    str : Text → Json
    arr : Items → Json
    obj : Fields → Json

  pub data Items : Type 0 where
    nil : Items
    cons : Json → Items → Items

  pub data Fields : Type 0 where
    end : Fields
    field : Text → Json → Fields → Fields
