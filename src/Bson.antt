-- ===== src/Bson.antt =====
-- The values of a BSON document that src/lib/mongoBackend reads and writes: a string, an object,
-- an array, or a value of any other type, which the code never looks into. An array is its items.
use fiware_orion.Base.{Str, Option, none, some, []}

mutual
  pub data Bson : Type 0 where
    text : Str → Bson
    object : Fields → Bson
    array : Items → Bson
    other : Bson

  pub data Fields : Type 0 where
    no_field : Fields
    field : Str → Bson → Fields → Fields

  pub data Items : Type 0 where
    no_item : Items
    item : Bson → Items → Items

-- getStringField (STR_FIELD): the empty string for a missing field, and for one of another type.
unfoldable pub bson_string : Option Bson → Str
bson_string (some (text s)) = s
bson_string _ = []

unfoldable pub str_field : Option Str → Str
str_field none = []
str_field (some s) = s
