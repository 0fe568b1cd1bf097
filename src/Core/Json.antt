-- ===== src/Core/Json.antt =====
-- `serde_json::Value`, as far as the modelled code builds or inspects it.
use tako_ai_core.Common.{String, Bool}
use tako_ai_core.Core.Error.{Text}

mutual
  pub data Json : Type 0 where
    null : Json
    bool : Bool → Json
    -- a number is kept as its text
    number : String → Json
    string : String → Json
    -- a string that `format!` or `to_string` builds
    message : Text → Json
    array : Items → Json
    object : Fields → Json

  pub data Items : Type 0 where
    nil : Items
    cons : Json → Items → Items

  pub data Fields : Type 0 where
    end : Fields
    field : String → Json → Fields → Fields
