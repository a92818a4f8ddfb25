-- ===== src/Update.antt =====
-- The update of context entities: src/lib/mongoBackend/MongoCommonUpdate.cpp.
pub mod ServicePath
pub mod Subscriptions
pub mod Process
pub mod Backend
pub mod Keeps
pub mod Create
pub mod Notify
pub mod Element
pub mod Context
pub mod Samples
use fiware_orion.Base.{ℕ, Str, codes, ◌++◌, List, []}
use fiware_orion.Entity.{Metadata}

-- class EntityId
pub record EntityId : Type 0 where
  pub id : Str
  pub type : Str
  pub is_pattern : Str

-- EntityId::toString, with the delimiter that its declaration has
unfoldable pub entity_to_string : EntityId → Str
entity_to_string en = en.id ++ (codes ", " ++ en.type)

-- enum HttpStatusCode of src/lib/rest/HttpStatusCode.h, the codes that the update fills in
abbrev pub scc_none : ℕ
scc_none = 0

abbrev pub scc_ok : ℕ
scc_ok = 200

abbrev pub scc_found : ℕ
scc_found = 302

abbrev pub scc_context_element_not_found : ℕ
scc_context_element_not_found = 404

abbrev pub scc_invalid_parameter : ℕ
scc_invalid_parameter = 472

abbrev pub scc_receiver_internal_error : ℕ
scc_receiver_internal_error = 500

abbrev pub scc_not_implemented : ℕ
scc_not_implemented = 501

-- class StatusCode: `code` and `details`. The reason phrase is a function of the code.
pub record StatusCode : Type 0 where
  pub code : ℕ
  pub details : Str

abbrev pub no_status : StatusCode
no_status = record { code = scc_none; details = [] }

-- An attribute of a response: its name, its type and the metadata that the response mirrors.
pub record ResponseAttribute : Type 0 where
  pub name : Str
  pub type : Str
  pub metadata : List Metadata
