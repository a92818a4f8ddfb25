-- ===== src/Rest/Samples.antt =====
-- Runs of the front end, and its theorems at concrete requests.
use fiware_orion.Base.{
  ℕ, ◌+◌, ◌≤◌, Str, ◌≡◌, refl, ◌↔◌, ◌++◌, true, false, Option, none, some, List, [], ◌∷◌, codes,
  length, All, all, arith, str_beq, replicate,
}
use fiware_orion.Strings.Bytes.{c_str}
use fiware_orion.Strings.Lower.{copy_lower}
use fiware_orion.Strings.Split.{string_split}
use fiware_orion.Update.{scc_ok}
use fiware_orion.Update.Subscriptions.{xml, json}
use fiware_orion.Rest.{store}
use fiware_orion.Rest.UriParams.{
  UriState, uri_arguments, uri_argument_get, verdict_on, limit_verdict, read_value, store_twin,
  pagination_limit,
}
use fiware_orion.Rest.UriParams.Laws.{IsValid, uri_arguments-IsValid}
use fiware_orion.Rest.Mime.{http_headers, http_header_get, accept_loop}
use fiware_orion.Rest.Mime.Laws.{elements, accept_loop_total}
use fiware_orion.Rest.ServicePath.{
  check_service_path, service_path_split, tidy_path, check_components, check_component, max_paths,
}
use fiware_orion.Rest.ServicePath.Laws.{IsLegal, IsTidy, service_path_split-IsLegal}
use fiware_orion.Rest.Connection.{
  Connection, Effect, Opening, new_connection, default_params, tenant_buffer_size, first_call,
  last_call,
}
use fiware_orion.Rest.Connection.Session.{start, next, opens, ends, closed}
use fiware_orion.Rest.Connection.Checked.{uri_state, default-IsValid}
use fiware_orion.Rest.Connection.Safe.{IsSafe, Reach-IsSafe}
use fiware_orion.Rest.Connection.Tenant.{tenant_header, first_call_undefined_iff}
use fiware_orion.Rest.Service.{RestService, other, Request, Handlers, no_scopes, rest_service}
use fiware_orion.Rest.Service.Laws.{IsFirst, rest_service-IsFirst}

abbrev defaults : UriState
defaults = record { uri_params = default_params; status = scc_ok; answer = none }

abbrev limit_of_five : List (Str × Option Str)
limit_of_five = (codes "limit", some (codes "5")) ∷ []

abbrev with_limit : UriState
with_limit = record {
  uri_params = store pagination_limit (codes "5") default_params;
  status = scc_ok;
  answer = none;
}

limit_accepted : uri_arguments xml limit_of_five defaults ≡ some with_limit
unfolding uri_arguments uri_argument_get verdict_on limit_verdict read_value store_twin str_beq all
limit_accepted = refl

uri_arguments-IsValid_example : IsValid with_limit.uri_params
uri_arguments-IsValid_example =
    uri_arguments-IsValid xml limit_of_five defaults with_limit limit_accepted default-IsValid

abbrev two_types : Str
two_types = codes "text/html, application/json;q=0.9"

accept_loop_total_example : accept_loop 40 two_types ≡ some (elements two_types)
accept_loop_total_example = accept_loop_total 40 two_types (omega arith)

abbrev two_paths : Str
two_paths = codes "/a/b/, /c"

two_paths_split : (service_path_split true two_paths).1 ≡ none
unfolding service_path_split check_service_path tidy_path str_beq check_components check_component
    all
two_paths_split = refl

service_path_split-IsLegal_example :
    All IsLegal (service_path_split true two_paths).0
    × All IsTidy (service_path_split true two_paths).0
    × (length (service_path_split true two_paths).0 ≤ max_paths)
service_path_split-IsLegal_example = service_path_split-IsLegal two_paths two_paths_split

-- GET /version, with a tenant
abbrev get_version : Opening
get_version = record {
  url = codes "/version";
  method = codes "GET";
  arguments = [];
  header_lines =
      (codes "accept", codes "application/json")
      ∷ (codes "Fiware-Service", codes "Smart")
      ∷ (codes "Fiware-ServicePath", codes "/a/b/")
      ∷ [];
  tenant_buffer = replicate 128 0;
}

abbrev or_start : Opening → Option (Connection × List Effect) → Connection × List Effect
or_start o none = (new_connection o, [])
or_start o (some x) = x

abbrev opened : Connection × List Effect
opened = or_start get_version (first_call false get_version)

version_opens : first_call false get_version ≡ some opened
unfolding first_call uri_arguments str_beq copy_lower http_headers http_header_get
version_opens = refl

Reach-IsSafe_example :
    IsSafe false (closed (last_call opened.0).0 (opened.1 ++ (last_call opened.0).1))
Reach-IsSafe_example =
    Reach-IsSafe false (λ n. [])
      (next (next start (opens get_version opened.0 opened.1 version_opens))
        (ends opened.0 opened.1))

no_arguments :
    uri_arguments xml [] (uri_state (new_connection get_version))
    ≡ some (uri_state (new_connection get_version))
unfolding uri_arguments
no_arguments = refl

started : (uri_state (new_connection get_version)).status ≡ scc_ok
unfolding new_connection
started = refl

first_call_undefined_iff_example :
    (first_call false get_version ≡ none)
    ↔ (tenant_buffer_size ≤ length (c_str (tenant_header get_version)))
first_call_undefined_iff_example =
    first_call_undefined_iff false get_version (uri_state (new_connection get_version)) no_arguments
      started refl

abbrev two_services : List RestService
two_services =
    record {
      verb = codes "GET";
      request = other;
      components = 1;
      comp_v = codes "version" ∷ replicate 9 [];
      payload_word = [];
    }
    ∷ record {
      verb = codes "*";
      request = other;
      components = 0;
      comp_v = replicate 6 (codes "*") ++ replicate 4 [];
      payload_word = [];
    }
    ∷ []

abbrev version_request : Request
version_request = record {
  url = codes "/Version";
  method = codes "GET";
  payload = none;
  out_format = json;
  in_format = json;
  tenant = [];
  uri_params = default_params;
}

-- The world is the number of requests that were treated.
abbrev counting : Handlers ℕ
counting = record {
  Body = Unit;
  no_body = tt;
  parse = λ format s payload. (codes "OK", no_scopes, tt);
  treat = λ s r comps scopes body n. (codes "done", n + 1);
}

few_components : length (string_split version_request.url b'/' []).1 ≤ 10
unfolding string_split
few_components = omega arith

rest_service-IsFirst_example :
    IsFirst counting version_request 0 two_services
      (string_split version_request.url b'/' []).0
      (string_split version_request.url b'/' []).1
      (rest_service counting two_services version_request 0)
rest_service-IsFirst_example =
    rest_service-IsFirst counting version_request 0 two_services (λ e. cc e) (λ e. cc e)
      few_components (refl, (refl, tt))
