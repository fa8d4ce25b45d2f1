-- ===== src/Contracts/JsonValues.antt =====
-- JSON values: the `dict[str, Any]` fields of the events and the arguments of tool calls.
use max_ed.Base.Int.{ℤ}
use max_ed.Base.{String, Bool}

mutual
  pub data Json : Type 0 where
    null : Json
    bool : Bool → Json
    num : ℤ → Json
    str : String → Json
    arr : Items → Json
    obj : Fields → Json

  pub data Items : Type 0 where
    nil : Items
    cons : Json → Items → Items

  pub data Fields : Type 0 where
    end : Fields
    field : String → Json → Fields → Fields
