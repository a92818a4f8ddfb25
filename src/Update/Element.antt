-- ===== src/Update/Element.antt =====
-- processContextElement of src/lib/mongoBackend/MongoCommonUpdate.cpp: one context element of an
-- updateContext request against the database; and buildGeneralErrorResponse.
pub mod Found
pub mod Missing
pub mod Process
pub mod Laws
pub mod Samples
pub mod Answers
pub mod Refused
use fiware_orion.Base.{
  ℕ, zero, suc, ◌+◌, Str, ◌==◌, str_eq, ◌&&◌, ◌||◌, not, Bool, true, false, Option, none, some,
  List, [], ◌∷◌, ◌++◌, codes, map, if◌then◌else◌,
}
use fiware_orion.Bson.{str_field}
use fiware_orion.Strings.Bytes.{strcasecmp_eq, c_str}
use fiware_orion.Strings.Buffer.{slash_escape}
use fiware_orion.Strings.Coords.{Double, Coords}
use fiware_orion.Entity.{ContextAttribute, AttrDoc}
use fiware_orion.Registry.{Regex, is_true, is_nil, Registration, query_result}
use fiware_orion.Update.{
  EntityId, StatusCode, no_status, ResponseAttribute, scc_ok, scc_found, scc_not_implemented,
  scc_invalid_parameter, scc_context_element_not_found, scc_receiver_internal_error,
}
use fiware_orion.Update.Subscriptions.{
  Origin, SubMap, SubQuery, SubDoc, DbResult, ok, failed, first_path, add_triggered_subscriptions,
}
use fiware_orion.Update.Process.{Run, mirror, process_context_attribute_vector}
use fiware_orion.Update.Backend.{
  DocId, PathQuery, no_path, path_matches, TypeQuery, any_type, no_type, type_is, EntityQuery,
  EntityDoc, EntityUpdate, Backend, RegistrationQuery, Call,
}
use fiware_orion.Update.Create.{create_entity, remove_entity}
use fiware_orion.Update.Notify.{process_subscriptions}

-- class ContextElement, and ContextElementResponse
pub record ContextElement : Type 0 where
  pub entity : EntityId
  pub attributes : List ContextAttribute

pub record ElementResponse : Type 0 where
  pub entity : EntityId
  pub attributes : List ContextAttribute
  pub status : StatusCode

-- buildGeneralErrorResponse. A copy of an attribute is the attribute.
unfoldable pub general_error : ContextElement → List ContextAttribute → ℕ → Str → ElementResponse
general_error ce attributes code details = record {
  entity = ce.entity;
  attributes = attributes;
  status = record { code = code; details = details };
}

-- An attribute that mirrors a request attribute has no value.
abbrev pub as_attribute : ResponseAttribute → ContextAttribute
as_attribute r = record {
  name = r.name;
  type = r.type;
  value = [];
  metadata = r.metadata;
  compound = none;
}

-- EntityId::toString (true)
unfoldable pub entity_to_string_pattern : EntityId → Str
entity_to_string_pattern en = en.id ++ (codes ", " ++ (en.type ++ (codes ", " ++ en.is_pattern)))

unfoldable pub empty_attribute : Str → EntityId → ContextAttribute → Str
empty_attribute action en ca =
    codes "action: "
    ++ (action
        ++ (codes " - entity: ["
            ++ (entity_to_string_pattern en
                ++ (codes "]"
                    ++ (codes " - offending attribute: "
                        ++ (ca.name
                            ++ codes " - empty attribute not allowed in APPEND or UPDATE"))))))

unfoldable pub is_empty_attribute : ContextAttribute → Bool
is_empty_attribute ca = elim ca.compound [ none ↦ is_nil ca.value | some n ↦ false ]

-- The first attribute without value.
unfoldable pub find_empty : List ContextAttribute → Option ContextAttribute
find_empty [] = none
find_empty (ca ∷ cas) = if is_empty_attribute ca then some ca else find_empty cas

-- MAX_SERVICE_NAME_LEN of src/lib/mongoBackend/MongoGlobal.h
abbrev pub max_service_name_len : ℕ
max_service_name_len = 1024

-- A buffer that slashEscape leaves as it was is read as an empty string.
abbrev pub escaped_service_path : Str → Str
escaped_service_path path = str_field (slash_escape path max_service_name_len)

-- The query for the entities: several, where the request has no type.
unfoldable pub entity_query : Origin → Call → EntityId → EntityQuery
entity_query o call en = record {
  id = en.id;
  type = if en.type == [] then any_type else type_is en.type;
  path = elim o.service_paths [
    | [] ↦ no_path
    | p ∷ ps ↦ path_matches (
        codes "^"
        ++ (escaped_service_path p
            ++ (codes "$|" ++ (codes "^" ++ (escaped_service_path p ++ (0x5c ∷ codes "/.*"))))))
  ];
  only_untyped = call.only_untyped;
}

-- The query for the update: precisely the entity that was found.
unfoldable pub update_query : Origin → DocId → EntityQuery
update_query o id = record {
  id = id.id;
  type = if str_field id.type == [] then no_type else type_is (str_field id.type);
  path = elim o.service_paths [
    | [] ↦ no_path
    | p ∷ ps ↦ path_matches (escaped_service_path (str_field id.service_path))
  ];
  only_untyped = false;
}

-- What a loop over the documents leaves: the responses, `docs`, and the world.
pub record Answer {D : Double} (B : Backend D) : Type 0 where
  pub responses : List ElementResponse
  pub docs : ℕ
  pub world : B.World
