-- ===== src/Base/Json.antt =====
-- The values that `json.loads` returns. The function itself is a parameter where it is used.
use miniature_warehouse_robo.Base.Tests.{if◌then◌else◌}
use miniature_warehouse_robo.Base.Float.{Float}
use Prim.Native.String.{String}
use mathlib.Core.Bool.{Bool}
use mathlib.Core.Option.{Option, none, some}
use text.Mathlib.Text.{◌==◌}

mutual
  pub data Json : Type 0 where
    null : Json
    bool : Bool → Json
    num : Float → Json
    str : String → Json
    arr : Items → Json
    obj : Fields → Json

  pub data Items : Type 0 where
    nil : Items
    cons : Json → Items → Items

  pub data Fields : Type 0 where
    end : Fields
    field : String → Json → Fields → Fields

-- `d.get(k)` of an object
unfoldable pub member : Fields → String → Option Json
member end k = none
member (field j v fs) k = if j == k then some v else member fs k
