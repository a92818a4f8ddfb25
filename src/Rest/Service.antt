-- ===== src/Rest/Service.antt =====
-- The choice of a service for a request: tenantCheck, commonFilters, scopeFilter, filterRelease and
-- restService of src/lib/rest/RestService.cpp. The parsers of the payload and the service routines
-- are parameters.
pub mod Laws
use fiware_orion.Base.{
  ℕ, zero, suc, ◌+◌, Str, ◌++◌, ◌==◌, str_eq, nat_eq, ◌&&◌, ◌||◌, not, Bool, true, false, Option,
  none, some, List, [], ◌∷◌, codes, all, any, ltb, if◌then◌else◌, length,
}
use fiware_orion.Strings.Bytes.{c_str, is_alnum, strcasecmp_eq}
use fiware_orion.Strings.Split.{string_split}
use fiware_orion.Update.{scc_ok}
use fiware_orion.Update.Subscriptions.{Format, no_format, xml, json}
use fiware_orion.Rest.{ErrorText, Params, scc_bad_request}

-- enum RequestType of src/lib/ngsi/Request.h: the requests that the filters tell apart
pub data RequestType : Type 0 where
  entity_types all_context_entities other : RequestType

-- RestService. `comp_v` is an array of ten texts, and an empty one stands where none is given.
pub record RestService : Type 0 where
  pub verb : Str
  pub request : RequestType
  pub components : ℕ
  pub comp_v : List Str
  pub payload_word : Str

-- class Scope, as far as the filters read it
pub record Scope : Type 0 where
  pub type : Str
  pub value : Str
  pub oper : Str

abbrev pub max_tenant_name_len : ℕ
max_tenant_name_len = 50

-- "OK", or why the tenant is refused
unfoldable pub tenant_check : Str → Str
unfolding is_alnum c_str
tenant_check tenant =
    if ltb max_tenant_name_len (length (c_str tenant))
    then codes "bad length - a tenant name can be max 50 characters long"
    else if all (λ c. is_alnum c || c == b'_') (c_str tenant)
    then codes "OK"
    else codes
        "bad character in tenant name - only underscore and alphanumeric characters are allowed"

abbrev pub filter_existence : Str
filter_existence = codes "FIWARE::Filter::Existence"

abbrev pub filter_not_existence : Str
filter_not_existence = codes "FIWARE::Filter::Not::Existence"

abbrev pub operator_not : Str
operator_not = codes "Not"

abbrev pub value_entity_type : Str
value_entity_type = codes "entity::type"

-- The requests that have a restriction to filter
unfoldable pub takes_filters : RequestType → Bool
takes_filters entity_types = true
takes_filters all_context_entities = true
takes_filters other = false

abbrev pub existence_scope : Str → Scope
existence_scope oper = record { type = filter_existence; value = value_entity_type; oper = oper }

-- commonFilters: the scopes of `qcr`. A request without filters ends the function at the first one.
unfoldable pub common_filters : Params → RequestType → List Scope → List Scope
unfolding takes_filters
common_filters params request scopes =
    let missing = params (codes "!exist") == value_entity_type in
    let present = params (codes "exist") == value_entity_type in
    if not (takes_filters request)
    then scopes
    else scopes
      ++ ((if missing then existence_scope operator_not ∷ [] else [])
          ++ (if present then existence_scope [] ∷ [] else []))

-- scopeFilter, on the scopes of the request that the payload word names
unfoldable pub scope_filter : List Scope → List Scope
scope_filter [] = []
scope_filter (s ∷ ss) =
    (if s.type == filter_not_existence
      then record s { type = filter_existence; oper = operator_not }
      else s)
    ∷ scope_filter ss

-- The scopes of a ParseData: one list for each request that has a restriction.
pub record Scopes : Type 0 where
  pub dcar : List Scope
  pub scar : List Scope
  pub ucas : List Scope
  pub qcr : List Scope
  pub scr : List Scope
  pub ucsr : List Scope

unfoldable pub scope_filters : Str → Scopes → Scopes
unfolding scope_filter
scope_filters word s =
    if word == codes "discoverContextAvailabilityRequest"
    then record s { dcar = scope_filter s.dcar }
    else if word == codes "subscribeContextAvailabilityRequest"
    then record s { scar = scope_filter s.scar }
    else if word == codes "updateContextAvailabilitySubscriptionRequest"
    then record s { ucas = scope_filter s.ucas }
    else if word == codes "queryContextRequest"
    then record s { qcr = scope_filter s.qcr }
    else if word == codes "subscribeContextRequest"
    then record s { scr = scope_filter s.scr }
    else if word == codes "updateContextSubscriptionRequest"
    then record s { ucsr = scope_filter s.ucsr }
    else s

-- The loop over the components of the URL; none where it reads behind the ten texts.
unfoldable pub match_components : List Str → List Str → Option Bool
unfolding strcasecmp_eq
match_components pattern [] = some true
match_components [] (c ∷ cs) = none
match_components (p ∷ ps) (c ∷ cs) = elim (p == codes "*" || strcasecmp_eq p c) [
  | true ↦ match_components ps cs
  | false ↦ some false
]

unfoldable pub verb_and_length : Str → ℕ → RestService → Bool
verb_and_length method components s =
    (s.components == 0 || s.components == components) && (method == s.verb || s.verb == codes "*")

-- What a look at one service finds.
pub data Look : Type 0 where
  out_of_range no_match match : Look

unfoldable pub look_at : Str → ℕ → List Str → RestService → Look
unfolding verb_and_length match_components
look_at method components comps s =
    if not (verb_and_length method components s)
    then no_match
    else elim (match_components s.comp_v comps) [
      | none ↦ out_of_range
      | some true ↦ match
      | some false ↦ no_match
    ]

-- What restService does with a request.
pub data Outcome (World : Type 0) : Type 0 where
  undefined : Outcome World
  empty_url : ErrorText → Outcome World
  not_parsed : Str → Outcome World
  bad_tenant : ErrorText → Outcome World
  treated : Str → World → Outcome World
  unrecognized : ℕ → ErrorText → Outcome World

pub record Request : Type 0 where
  pub url : Str
  pub method : Str
  pub payload : Option Str
  pub out_format : Format
  pub in_format : Format
  pub tenant : Str
  pub uri_params : Params

-- Whether there is a payload to parse: not NULL, and its first byte is not zero.
unfoldable pub has_payload : Option Str → Bool
has_payload none = false
has_payload (some []) = false
has_payload (some (c ∷ s)) = not (c == 0)

abbrev pub no_scopes : Scopes
no_scopes = record { dcar = []; scar = []; ucas = []; qcr = []; scr = []; ucsr = [] }

-- `Body` is the rest of a ParseData. `parse` gives "OK" and the parsed payload, or an error; `treat`
-- is the routine of a service.
pub record Handlers (World : Type 0) : Type 1 where
  pub Body : Type 0
  pub no_body : Body
  pub parse : Format → RestService → Str → Str × Scopes × Body
  pub treat : RestService → Request → List Str → Scopes → Body → World → Str × World

module _ {World : Type 0} (H : Handlers World) where
  open H use {Body, no_body, parse, treat}

  abbrev tenant_error : Format → ErrorText
  tenant_error format = record {
    format = format;
    request = [];
    code = scc_bad_request;
    details =
        codes
          "tenant name not accepted - a tenant string must not be longer than 50 characters and may only contain underscores and alphanumeric characters";
  }

  -- From the check of the tenant on
  unfoldable pub serve_parsed :
      RestService → Request → List Str → Scopes → Body → World → Outcome World
  unfolding tenant_check common_filters scope_filters
  serve_parsed s r comps scopes body w =
      if not (r.tenant == []) && not (tenant_check r.tenant == codes "OK")
      then bad_tenant (tenant_error r.out_format)
      else let filtered : Scopes = record scopes {
        qcr = common_filters r.uri_params s.request scopes.qcr;
      } in
        let (answer, w') = treat s r comps (scope_filters s.payload_word filtered) body w in
        treated answer w'

  unfoldable pub serve : RestService → Request → List Str → World → Outcome World
  unfolding serve_parsed has_payload
  serve s r comps w = elim r.payload [
    | none ↦ serve_parsed s r comps no_scopes no_body w
    | some p ↦
        let (result, scopes, body) = parse r.in_format s p in
        if has_payload (some p) && not (s.verb == codes "*")
        then (if result == codes "OK"
            then serve_parsed s r comps scopes body w
            else not_parsed result)
        else serve_parsed s r comps no_scopes no_body w
  ]

  -- The loop over the services. The last argument is the payload word of the last service that was
  -- looked at, by which the error is rendered; the status of that error is 200 again.
  unfoldable pub find_service :
      List RestService → Request → ℕ → List Str → Str → World → Outcome World
  unfolding serve
  find_service [] r n comps word w = unrecognized scc_ok (record {
    format = r.out_format;
    request = word;
    code = scc_bad_request;
    details = codes "unrecognized request";
  })
  find_service (s ∷ ss) r n comps word w =
      let later = find_service ss r n comps word w in
      let later' = find_service ss r n comps s.payload_word w in
      if not (verb_and_length r.method n s) then later else elim (look_at r.method n comps s) [
        | out_of_range ↦ undefined
        | no_match ↦ later'
        | match ↦ serve s r comps w
      ]

  unfoldable pub rest_service : List RestService → Request → World → Outcome World
  unfolding find_service string_split
  rest_service services r w =
      let (n, comps) = string_split r.url b'/' [] in
      if r.url == [] || r.url == codes "/"
      then empty_url (record {
        format = r.out_format;
        request = [];
        code = scc_bad_request;
        details = codes "The Orion Context Broker is a REST service, not a 'web page'";
      })
      else find_service services r n comps [] w
