-- ===== src/Entity.antt =====
-- The attributes of a context entity: those of a request (ContextAttribute and Metadata of
-- src/lib/ngsi) and those of an entity document of the database (the `attrs` array that
-- src/lib/mongoBackend/MongoCommonUpdate.cpp reads and rewrites).
pub mod CustomMetadata
pub mod Attribute
pub mod Keys
pub mod Names
pub mod Stored
pub mod Agreement
pub mod Effect
pub mod Update
pub mod Repeat
pub mod Untyped
pub mod Samples
pub mod Delete
pub mod Consistent
use fiware_orion.Base.{ℕ, Str, Option, List}
use fiware_orion.Bson.{Bson}
use fiware_orion.Compound.{Node}

-- class Metadata
pub record Metadata : Type 0 where
  pub name : Str
  pub type : Str
  pub value : Str

-- class ContextAttribute
pub record ContextAttribute : Type 0 where
  pub name : Str
  pub type : Str
  pub value : Str
  pub metadata : List Metadata
  pub compound : Option Node

-- One element of the array `md` of a stored attribute.
pub record MdDoc : Type 0 where
  pub name : Str
  pub type : Option Str
  pub value : Str

-- One element of `attrs`: every field may be missing.
pub record AttrDoc : Type 0 where
  pub name : Option Str
  pub id : Option Str
  pub type : Option Str
  pub value : Option Bson
  pub md : Option (List MdDoc)
  pub cre_date : Option ℕ
  pub mod_date : Option ℕ
