-- ===== src/Schema/Json.antt =====
-- JSON values, as the `JSON` columns keep them; a number is its literal. A `dict` is a `Fields`.
use data_analytics_platform.Base.{String, Bool}

mutual
  pub data Json : Type 0 where
    null : Json
    boolean : Bool → Json
    number : String → Json
    text : String → Json
    array : Items → Json
    object : Fields → Json

  pub data Items : Type 0 where
    nil : Items
    cons : Json → Items → Items

  pub data Fields : Type 0 where
    end : Fields
    field : String → Json → Fields → Fields

-- `result or default`: an empty `dict` and `None` are falsy.
unfoldable pub or_default : Fields → Fields → Fields
or_default end d = d
or_default (field k v fs) d = field k v fs
