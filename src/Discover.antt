-- ===== src/Discover.antt =====
-- mongoDiscoverContextAvailability of src/lib/mongoBackend/mongoDiscoverContextAvailability.cpp. The database is a
-- parameter (Source).
pub mod Laws
pub mod Conventional
pub mod Associations
pub mod Answers
pub mod Samples
use fiware_orion.Base.{
  ℕ, Str, ◌++◌, ◌==◌, str_eq, ◌&&◌, not, Bool, true, false, Option, none, some, List, [], ◌∷◌, map,
  codes, if◌then◌else◌,
}
use fiware_orion.Base.Int.{ℤ, pos, negsuc, ltb_ℤ}
use fiware_orion.Bson.{str_field}
use fiware_orion.Strings.Url.{atoi}
use fiware_orion.Strings.Bytes.{strcasecmp_eq}
use fiware_orion.Strings.Decimal.{decimal_int}
use fiware_orion.Update.{
  EntityId, StatusCode, scc_ok, scc_context_element_not_found, scc_receiver_internal_error,
  scc_not_implemented,
}
use fiware_orion.Update.Subscriptions.{DbResult, ok, failed}
use fiware_orion.Registry.{Regex, Registration, query_result}
use fiware_orion.Rest.{Params}
use fiware_orion.Rest.UriParams.{pagination_offset, pagination_limit, pagination_details}
use fiware_orion.Rest.Service.{Scope}
use fiware_orion.Register.Store.{RegistrationMetadata, AssociationDoc}

abbrev pub scope_type_assoc : Str
scope_type_assoc = codes "IncludeAssociations"

abbrev pub scope_value_assoc_source : Str
scope_value_assoc_source = codes "SOURCES"

abbrev pub scope_value_assoc_all : Str
scope_value_assoc_all = codes "ALL"

-- The query of associationsQuery. The entities and the attributes are those of the targets where sources
-- are asked for, and else those of the sources.
pub record AssociationQuery : Type 0 where
  pub of_targets : Bool
  pub entities : List (Str × Str)
  pub attributes : List Str
  pub tenant : Str
  pub offset : ℤ
  pub limit : ℤ

-- The query of registrationsQuery.
pub record RegistrationsQuery : Type 0 where
  pub entities : List EntityId
  pub attributes : List Str
  pub tenant : Str
  pub service_paths : List Str
  pub page : Option (ℤ × ℤ)

pub record Source : Type 0 where
  pub associations : AssociationQuery → DbResult (List AssociationDoc)
  pub registrations : RegistrationsQuery → DbResult (List (List Registration))
  pub count : RegistrationsQuery → ℤ

-- DiscoverContextAvailabilityRequest, with what comes beside it.
pub record DiscoverRequest : Type 0 where
  pub entities : List EntityId
  pub attributes : List Str
  pub scopes : List Scope
  pub tenant : Str
  pub service_paths : List Str
  pub uri_params : Params

-- DiscoverContextAvailabilityResponse. `associations` is the metadata of the last response, if there is one with metadata.
pub record DiscoverReply : Type 0 where
  pub responses : List Registration
  pub associations : Option (List RegistrationMetadata)
  pub error_code : Option StatusCode

unfoldable pub association_metadata : AssociationDoc → RegistrationMetadata
association_metadata d = record {
  name = d.name;
  type = codes "Association";
  source_id = d.source.id;
  source_type = str_field d.source.type;
  target_id = d.target.id;
  target_type = str_field d.target.type;
  attributes = d.attributes;
}

abbrev pub error_reply : List Registration → ℕ → Str → DiscoverReply
error_reply rs code details = record {
  responses = rs;
  associations = none;
  error_code = some (record { code = code; details = details });
}

-- The entity of an association, and the names of its attributes, on the side that is asked for.
unfoldable pub side_entity : Bool → RegistrationMetadata → EntityId
side_entity sources md =
    if sources
    then record { id = md.source_id; type = md.source_type; is_pattern = [] }
    else record { id = md.target_id; type = md.target_type; is_pattern = [] }

unfoldable pub side_attributes : Bool → RegistrationMetadata → List Str
side_attributes sources md = map (λ a. if sources then a.0 else a.1) md.attributes

module _ (R : Regex) (S : Source) (r : DiscoverRequest) where
  abbrev pub offset : ℤ
  unfolding atoi
  offset = atoi (r.uri_params pagination_offset)

  abbrev pub limit : ℤ
  unfolding atoi
  limit = atoi (r.uri_params pagination_limit)

  abbrev pub details : Bool
  unfolding strcasecmp_eq
  details = strcasecmp_eq (codes "on") (r.uri_params pagination_details)

  unfoldable pub association_query : Str → AssociationQuery
  association_query scope = record {
    of_targets = scope == scope_value_assoc_source;
    entities = map (λ en. (en.id, en.type)) r.entities;
    attributes = r.attributes;
    tenant = r.tenant;
    offset = offset;
    limit = limit;
  }

  unfoldable pub side_query : Bool → RegistrationMetadata → RegistrationsQuery
  unfolding side_entity side_attributes
  side_query sources md = record {
    entities = side_entity sources md ∷ [];
    attributes = side_attributes sources md;
    tenant = r.tenant;
    service_paths = r.service_paths;
    page = none;
  }

  -- The loop over the associations: the responses, and the error that ends it.
  unfoldable pub associated : Bool → List RegistrationMetadata → List Registration × Option Str
  unfolding side_query query_result
  associated sources [] = ([], none)
  associated sources (md ∷ mds) =
      let q = side_query sources md in
      let (rest, problem) = associated sources mds in
      elim (S.registrations q) [
        | failed text ↦ ([], some text)
        | ok docs ↦ (query_result R q.entities q.attributes docs ++ rest, problem)
      ]

  -- After the loop
  unfoldable pub with_associations :
      List RegistrationMetadata → List Registration × Option Str → DiscoverReply
  with_associations mds (rs, some text) = error_reply rs scc_receiver_internal_error text
  with_associations mds ([], none) =
      error_reply [] scc_context_element_not_found
        (codes "Could not query association with combination of entity/attribute")
  with_associations mds (x ∷ xs, none) = record {
    responses = x ∷ xs;
    associations = some mds;
    error_code = none;
  }

  unfoldable pub associations_discover : Str → DiscoverReply
  unfolding association_query association_metadata associated with_associations
  associations_discover scope =
      if scope == scope_value_assoc_all
      then error_reply [] scc_not_implemented (codes "Not supported scope: 'ALL'")
      else elim (S.associations (association_query scope)) [
        | failed text ↦
            error_reply [] scc_receiver_internal_error (codes "Database error: " ++ text)
        | ok docs ↦
            let mds = map association_metadata docs in
            with_associations mds (associated (scope == scope_value_assoc_source) mds)
      ]

  unfoldable pub registrations_query : RegistrationsQuery
  registrations_query = record {
    entities = r.entities;
    attributes = r.attributes;
    tenant = r.tenant;
    service_paths = r.service_paths;
    page = some (offset, limit);
  }

  unfoldable pub matching : ℤ
  unfolding registrations_query
  matching = if details then S.count registrations_query else negsuc 0

  unfoldable pub conventional_reply : List Registration → DiscoverReply
  unfolding matching decimal_int
  conventional_reply [] =
      if details && (ltb_ℤ (pos 0) matching && not (ltb_ℤ offset matching))
      then error_reply [] scc_context_element_not_found (
          codes "Number of matching registrations: "
          ++ (decimal_int matching ++ (codes ". Offset is " ++ decimal_int offset)))
      else error_reply [] scc_context_element_not_found []
  conventional_reply (x ∷ xs) = record {
    responses = x ∷ xs;
    associations = none;
    error_code =
        if details
        then some (record { code = scc_ok; details = codes "Count: " ++ decimal_int matching })
        else none;
  }

  unfoldable pub conventional_discover : DiscoverReply
  unfolding registrations_query conventional_reply query_result
  conventional_discover = elim (S.registrations registrations_query) [
    | failed text ↦ error_reply [] scc_receiver_internal_error text
    | ok docs ↦ conventional_reply (query_result R r.entities r.attributes docs)
  ]

  -- Only the first scope counts.
  unfoldable pub mongo_discover_context_availability : DiscoverReply
  unfolding associations_discover conventional_discover
  mongo_discover_context_availability = elim r.scopes [
    | [] ↦ conventional_discover
    | sco ∷ scos ↦
        if sco.type == scope_type_assoc
        then associations_discover sco.value
        else conventional_discover
  ]
