-- ===== src/Base/Json.antt =====
-- JSON documents, as `JSON.parse` returns them.
use Prim.Native.String.{String}
use mathlib.Core.Bool.{Bool}
use mathlib.Core.Option.{Option, none, some}
use remodelator.Base.Text.{text_eq}
use remodelator.Base.Tests.{if◌then◌else◌}

mutual
  pub data Json : Type 0 where
    null : Json
    flag : Bool → Json
    number : String → Json
    text : String → Json
    array : Items → Json
    object : Fields → Json

  pub data Items : Type 0 where
    nil : Items
    cons : Json → Items → Items

  pub data Fields : Type 0 where
    end : Fields
    field : String → Json → Fields → Fields

-- `o.key` on the members of an object; a missing one is `undefined`
abbrev pub get_field : String → Fields → Option Json
get_field key end = none
get_field key (field name value rest) = if text_eq name key then some value else get_field key rest
