-- ===== src/Update/Backend.antt =====
-- What the update of src/lib/mongoBackend/MongoCommonUpdate.cpp reads from and writes to the outside:
-- the collections of MongoDB, and the notifier. `World` is their state. A failed operation brings
-- the text that the caller reports.
use fiware_orion.Base.{ℕ, Str, Bool, Option, List}
use fiware_orion.Strings.Coords.{Double, Coords}
use fiware_orion.Entity.{AttrDoc}
use fiware_orion.Registry.{Registration}
use fiware_orion.Update.{EntityId}
use fiware_orion.Update.Subscriptions.{SubQuery, SubDoc, DbResult, Format}

-- `_id` of an entity document: no type, or no service path, for a missing field.
pub record DocId : Type 0 where
  pub id : Str
  pub type : Option Str
  pub service_path : Option Str

-- A condition on the service path: none, a regular expression, or a text that is equal.
pub data PathQuery : Type 0 where
  no_path : PathQuery
  path_matches : Str → PathQuery
  path_is : Str → PathQuery

-- A condition on the type: any, no type, or that type.
pub data TypeQuery : Type 0 where
  any_type no_type : TypeQuery
  type_is : Str → TypeQuery

-- `only_untyped` is the condition that the URI parameter `!exist=entity::type` adds.
pub record EntityQuery : Type 0 where
  pub id : Str
  pub type : TypeQuery
  pub path : PathQuery
  pub only_untyped : Bool

pub record Notification : Type 0 where
  pub sub_id : Str
  pub reference : Str
  pub format : Format
  pub attributes : List Str
  pub entity : EntityId
  pub tenant : Str
  pub token : Str
  pub service_paths : List Str

pub record RegistrationQuery : Type 0 where
  pub entity : EntityId
  pub attributes : List Str
  pub tenant : Str
  pub service_paths : List Str
  pub limit : ℕ

-- An entity document. A document without `_id` has no `doc_id`.
pub record EntityDoc (D : Double) : Type 0 where
  pub doc_id : Option DocId
  pub attrs : List AttrDoc
  pub location : Option (Str × Coords D)

-- $set, and $unset where there is no location
pub record EntityUpdate (D : Double) : Type 0 where
  pub attrs : List AttrDoc
  pub mod_date : ℕ
  pub location : Option (Str × Coords D)

pub record NewEntity (D : Double) : Type 0 where
  pub doc_id : DocId
  pub attrs : List AttrDoc
  pub cre_date : ℕ
  pub mod_date : ℕ
  pub location : Option (Str × Coords D)

pub record Backend (D : Double) : Type 1 where
  pub World : Type 0
  pub entities : World → Str → EntityQuery → DbResult (List (EntityDoc D))
  pub subscriptions : World → SubQuery → DbResult (List SubDoc)
  pub registrations : World → RegistrationQuery → DbResult (List (List Registration))
  pub ensure_location_index : Str → World → World
  pub update : Str → EntityQuery → EntityUpdate D → World → Option Str × World
  pub insert : Str → NewEntity D → World → Option Str × World
  pub remove : Str → EntityQuery → World → Option Str × World
  pub notify : Notification → World → Bool × World
  pub mark_notified : Str → Str → ℕ → World → Option Str × World

-- What comes with an updateContext request, beside its elements.
pub record Call : Type 0 where
  pub action : Str
  pub caller : Str
  pub token : Str
  pub only_untyped : Bool
