-- ===== src/Base/Json.antt =====
-- A JSON value as Python holds it. The order and the keys of an object are kept as they are.
use Prim.Native.Nat.{ℕ, zero, suc}
use Prim.Native.String.{String}
use mathlib.Core.Bool.{Bool, true, false}
use mathlib.Core.Option.{Option, none, some}
use mcp_agent_gateway.Base.Text.{truthy}
use mcp_agent_gateway.Base.Equality.{◌==◌, string_eq, if◌then◌else◌}

mutual
  pub data Json : Type 0 where
    null : Json
    bool : Bool → Json
    number : ℕ → Json
    text : String → Json
    array : Items → Json
    object : Members → Json

  pub data Items : Type 0 where
    no_items : Items
    item : Json → Items → Items

  pub data Members : Type 0 where
    no_members : Members
    member : String → Json → Members → Members

-- `d.get(key)`
unfoldable pub get_member : String → Members → Option Json
get_member key no_members = none
get_member key (member k v rest) = if key == k then some v else get_member key rest

-- the truth value
unfoldable pub json_truthy : Json → Bool
json_truthy null = false
json_truthy (bool b) = b
json_truthy (number zero) = false
json_truthy (number (suc n)) = true
json_truthy (text s) = truthy s
json_truthy (array no_items) = false
json_truthy (array (item _ _)) = true
json_truthy (object no_members) = false
json_truthy (object (member _ _ _)) = true
