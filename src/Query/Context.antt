-- ===== src/Query/Context.antt =====
-- mongoQueryContext of src/lib/mongoBackend/mongoQueryContext.cpp. What the database gives, with the number of hits,
-- is a parameter (Source).
use fiware_orion.Base.{
  ℕ, Str, ◌++◌, str_eq, ◌&&◌, not, Bool, true, false, Option, none, some, List, [], ◌∷◌, codes,
  if◌then◌else◌,
}
use fiware_orion.Base.Int.{ℤ, pos, negsuc, ltb_ℤ}
use fiware_orion.Strings.Url.{atoi}
use fiware_orion.Strings.Bytes.{strcasecmp_eq}
use fiware_orion.Strings.Decimal.{decimal_int}
use fiware_orion.Update.{
  EntityId, StatusCode, scc_ok, scc_found, scc_context_element_not_found,
  scc_receiver_internal_error,
}
use fiware_orion.Update.Subscriptions.{DbResult, ok, failed}
use fiware_orion.Registry.{Regex, Registration, query_result}
use fiware_orion.Rest.{Params}
use fiware_orion.Rest.UriParams.{pagination_offset, pagination_limit, pagination_details}
use fiware_orion.Rest.Service.{Scope}
use fiware_orion.Query.{EntityToken, fill_query_entities, ScopeQuery, scope_query}
use fiware_orion.Query.Result.{QueryDoc, QueryResponse, entities_result}

-- The query of entitiesQuery. No names stand for no condition on the attributes.
pub record Search (Area : Type 0) : Type 0 where
  pub entities : List EntityToken
  pub service_paths : List Str
  pub attribute_names : List Str
  pub scopes : ScopeQuery Area
  pub offset : ℤ
  pub limit : ℤ
  pub tenant : Str

-- The query of registrationsQuery, for one registration at most.
pub record ProviderSearch : Type 0 where
  pub entities : List EntityId
  pub attributes : List Str
  pub tenant : Str
  pub service_paths : List Str

-- `count` is asked for where details are.
pub record Source (Area : Type 0) : Type 0 where
  pub process_area_scope : Scope → Option Area
  pub documents : Search Area → DbResult (List QueryDoc)
  pub count : Search Area → ℤ
  pub registrations : ProviderSearch → DbResult (List (List Registration))

-- QueryContextRequest, with what comes beside it.
pub record QueryRequest : Type 0 where
  pub entities : List EntityId
  pub attributes : List Str
  pub scopes : List Scope
  pub tenant : Str
  pub service_paths : List Str
  pub uri_params : Params

-- QueryContextResponse: `error_code` where the function fills it in
pub record QueryReply : Type 0 where
  pub responses : List QueryResponse
  pub error_code : Option StatusCode

abbrev pub error_reply : ℕ → Str → QueryReply
error_reply code details = record {
  responses = [];
  error_code = some (record { code = code; details = details });
}

unfoldable pub wants_details : QueryRequest → Bool
unfolding strcasecmp_eq
wants_details r = strcasecmp_eq (codes "on") (r.uri_params pagination_details)

module _ {Area : Type 0} (decimal : ℕ → Str) (R : Regex) (S : Source Area) where
  unfoldable pub search : QueryRequest → Search Area
  unfolding fill_query_entities scope_query atoi
  search r = record {
    entities = fill_query_entities r.entities;
    service_paths = r.service_paths;
    attribute_names = r.attributes;
    scopes = scope_query S.process_area_scope false r.scopes;
    offset = atoi (r.uri_params pagination_offset);
    limit = atoi (r.uri_params pagination_limit);
    tenant = r.tenant;
  }

  -- The number of hits, where it is known
  unfoldable pub hits : QueryRequest → ℤ
  unfolding wants_details
  hits r = if wants_details r then S.count (search r) else negsuc 0

  unfoldable pub nothing_found : QueryRequest → QueryReply
  unfolding wants_details search hits decimal_int
  nothing_found r =
      if wants_details r && (ltb_ℤ (pos 0) (hits r) && not (ltb_ℤ (search r).offset (hits r)))
      then error_reply scc_context_element_not_found (
          codes "Number of matching entities: "
          ++ (decimal_int (hits r) ++ (codes ". Offset is " ++ decimal_int (search r).offset)))
      else error_reply scc_context_element_not_found []

  -- No entity was found: a registration may name the application that has it.
  unfoldable pub ask_registrations : QueryRequest → QueryReply
  unfolding nothing_found query_result
  ask_registrations r =
      elim (S.registrations (record {
        entities = r.entities;
        attributes = r.attributes;
        tenant = r.tenant;
        service_paths = r.service_paths;
      })) [
        | failed text ↦ nothing_found r
        | ok docs ↦ elim (query_result R r.entities r.attributes docs) [
          | [] ↦ nothing_found r
          | crr ∷ crrs ↦ error_reply scc_found crr.providing_application
        ]
      ]

  unfoldable pub with_responses : QueryRequest → List QueryResponse → QueryReply
  unfolding ask_registrations
  with_responses r [] = ask_registrations r
  with_responses r (x ∷ xs) = record {
    responses = x ∷ xs;
    error_code =
        if wants_details r
        then some (record { code = scc_ok; details = codes "Count: " ++ decimal_int (hits r) })
        else none;
  }

  unfoldable pub mongo_query_context : QueryRequest → QueryReply
  unfolding search entities_result with_responses
  mongo_query_context r = elim (S.documents (search r)) [
    | failed text ↦ error_reply scc_receiver_internal_error text
    | ok docs ↦ with_responses r (entities_result decimal r.entities r.attributes true docs)
  ]
