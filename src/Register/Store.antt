-- ===== src/Register/Store.antt =====
-- The data of a registration, and what the operations of src/lib/mongoBackend on it use of the database.
use fiware_orion.Base.{ℕ, Str, Option, List}
use fiware_orion.Base.Int.{ℤ}
use fiware_orion.Update.{EntityId}
use fiware_orion.Update.Subscriptions.{Format, DbResult, SubDoc}
use fiware_orion.Registry.{RegAttribute, Registration}

-- A registration metadata: what counts of it, if its type is "Association".
pub record RegistrationMetadata : Type 0 where
  pub name : Str
  pub type : Str
  pub source_id : Str
  pub source_type : Str
  pub target_id : Str
  pub target_type : Str
  pub attributes : List (Str × Str)

-- class ContextRegistration
pub record ContextRegistration : Type 0 where
  pub entities : List EntityId
  pub attributes : List RegAttribute
  pub metadata : List RegistrationMetadata
  pub providing_application : Str

-- An entity of a document: a type unless it is empty
pub record StoredEntity : Type 0 where
  pub id : Str
  pub type : Option Str

pub record AssociationDoc : Type 0 where
  pub name : Str
  pub source : StoredEntity
  pub target : StoredEntity
  pub attributes : List (Str × Str)

pub record StoredRegistration : Type 0 where
  pub entities : List StoredEntity
  pub attributes : List RegAttribute
  pub providing_application : Str

-- A document of the collection, without its identifier.
pub record RegistrationDoc : Type 0 where
  pub expiration : ℤ
  pub service_path : Str
  pub registrations : List StoredRegistration

-- What the query for the availability subscriptions is built from: the entities that are no patterns, and
-- the names of the attributes.
pub record AvailabilityQuery : Type 0 where
  pub entities : List (Str × Str)
  pub attributes : List Str
  pub now : ℕ
  pub tenant : Str

-- registrationsQuery for a notification: no service paths, and the default limits
pub record NotificationQuery : Type 0 where
  pub entities : List EntityId
  pub attributes : List Str
  pub tenant : Str

-- The NotifyContextAvailabilityRequest, and where it goes.
pub record AvailabilityNotification : Type 0 where
  pub subscription_id : Str
  pub responses : List Registration
  pub url : Str
  pub tenant : Str
  pub format : Format

-- What findOne of a registration gives.
pub data Lookup : Type 0 where
  bad_id absent present : Lookup
  db_error : Str → Lookup

pub record Store : Type 1 where
  pub World : Type 0
  pub new_id : World → Str × World
  pub find_one : World → Str → Str → Str → Lookup
  pub associate : Str → AssociationDoc → World → Option Str × World
  pub subscriptions : World → AvailabilityQuery → DbResult (List SubDoc)
  pub registrations : World → NotificationQuery → DbResult (List (List Registration))
  pub upsert : Str → Str → RegistrationDoc → World → Option Str × World
  pub notify : AvailabilityNotification → World → World
  pub mark_notified : Str → Str → World → World
