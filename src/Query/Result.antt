-- ===== src/Query/Result.antt =====
-- The loop of entitiesQuery of src/lib/mongoBackend/MongoGlobal.cpp over the documents found.
use fiware_orion.Base.{
  ℕ, Str, ◌==◌, str_eq, not, Bool, true, false, Option, none, some, List, [], ◌∷◌, codes,
  if◌then◌else◌,
}
use fiware_orion.Bson.{str_field}
use fiware_orion.Strings.Bytes.{after_prefix}
use fiware_orion.Entity.{ContextAttribute, AttrDoc}
use fiware_orion.Update.{EntityId, StatusCode, scc_ok, scc_receiver_internal_error}
use fiware_orion.Query.Attribute.{query_attributes}

-- A document of a result. `err` is its field `$err`, empty where there is none.
pub record QueryDoc : Type 0 where
  pub err : Str
  pub id : Option Str
  pub type : Option Str
  pub service_path : Option Str
  pub location_attr : Option Str
  pub attrs : Option (List AttrDoc)

-- class ContextElementResponse
pub record QueryResponse : Type 0 where
  pub entity : EntityId
  pub service_path : Str
  pub attributes : List ContextAttribute
  pub status : StatusCode

abbrev blank_entity : EntityId
blank_entity = record { id = []; type = []; is_pattern = [] }

-- The entity of an error: that of the request, if it has one only.
unfoldable pub error_entity : List EntityId → EntityId
error_entity [] = blank_entity
error_entity (en ∷ []) = en
error_entity (en ∷ (en' ∷ ens)) = blank_entity

unfoldable pub error_details : Str → Str
unfolding after_prefix
error_details err = elim (after_prefix (codes "Exterior shell of polygon is invalid") err) [
  | some rest ↦ codes "Exterior shell of polygon is invalid"
  | none ↦ codes "Error at querying MongoDB"
]

abbrev pub internal_error : Str → StatusCode
internal_error details = record { code = scc_receiver_internal_error; details = details }

abbrev pub status_ok : StatusCode
status_ok = record { code = scc_ok; details = [] }

unfoldable pub found_entity : QueryDoc → EntityId
found_entity d = record { id = str_field d.id; type = str_field d.type; is_pattern = codes "false" }

module _ (decimal : ℕ → Str) (ens : List EntityId) (names : List Str) (include_empty : Bool) where
  -- The response to a document, and whether the loop ends with it.
  unfoldable pub document_response : QueryDoc → QueryResponse × Bool
  unfolding error_entity error_details found_entity
  document_response d =
      if not (d.err == [])
      then (
        record {
          entity = error_entity ens;
          service_path = [];
          attributes = [];
          status = internal_error (error_details d.err);
        },
        true,
      )
      else elim d.attrs [
        | none ↦ (
          record {
            entity = found_entity d;
            service_path = str_field d.service_path;
            attributes = [];
            status = internal_error (codes "attrs field missing in entity document");
          },
          true,
        )
        | some attrs ↦ (
          record {
            entity = found_entity d;
            service_path = str_field d.service_path;
            attributes =
                query_attributes decimal include_empty names (str_field d.location_attr) attrs;
            status = status_ok;
          },
          false,
        )
      ]

  unfoldable pub entities_result : List QueryDoc → List QueryResponse
  unfolding document_response
  entities_result [] = []
  entities_result (d ∷ ds) =
      let rest = entities_result ds in
      let (response, last) = document_response d in if last then response ∷ [] else response ∷ rest
