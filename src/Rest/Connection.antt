-- ===== src/Rest/Connection.antt =====
-- connectionTreat of src/lib/rest/rest.cpp, which the HTTP library calls once when the headers are
-- read, then with the payload, and at last when all of it is there. ConnectionInfo of
-- src/lib/rest/ConnectionInfo.h is its state.
pub mod Session
pub mod Checked
pub mod Safe
pub mod Tenant
use fiware_orion.Base.{
  ℕ, zero, suc, ◌+◌, ◌*◌, Str, ◌++◌, ◌==◌, str_eq, nat_eq, ◌&&◌, ◌||◌, not, Bool, true, false,
  Option, none, some, List, [], ◌∷◌, codes, leb, ltb, if◌then◌else◌, length,
}
use fiware_orion.Strings.Bytes.{c_str, has_prefix_nocase}
use fiware_orion.Strings.Checks.{forbidden_chars}
use fiware_orion.Strings.Lower.{str_to_lower}
use fiware_orion.Update.{scc_ok}
use fiware_orion.Update.Subscriptions.{Format, no_format, xml, json}
use fiware_orion.Rest.{
  ErrorText, Verb, post, put, get, delete, no_verb, Params, store, HttpHeaders, scc_bad_request,
  scc_not_acceptable, scc_length_required, scc_request_entity_too_large, scc_unsupported_media_type,
}
use fiware_orion.Rest.UriParams.{
  UriState, uri_arguments, notify_format, pagination_offset, pagination_limit, pagination_details,
}
use fiware_orion.Rest.Mime.{http_headers, wanted_format, format_parse, content_type_error}
use fiware_orion.Rest.ServicePath.{Fault, service_path_split, default_service_path}

pub record Connection : Type 0 where
  pub url : Str
  pub verb : Verb
  pub in_format : Format
  pub out_format : Format
  pub status : ℕ
  pub answer : Option ErrorText
  pub uri_params : Params
  pub headers : HttpHeaders
  pub tenant_from_header : Str
  pub service_path : Str
  pub service_paths : List Str
  pub payload : Option Str
  pub buffer_size : ℕ
  pub payload_size : ℕ

-- What the broker does to the outside: restReply with a status and a text, or the call of the service.
pub data Effect : Type 0 where
  replied : ℕ → ErrorText → Effect
  served : Effect

-- What the HTTP library has when it calls for the first time. An argument of the URI may have no
-- value. `tenant_buffer` is what the local variable `tenant` holds before it is written.
pub record Opening : Type 0 where
  pub url : Str
  pub method : Str
  pub arguments : List (Str × Option Str)
  pub header_lines : List (Str × Str)
  pub tenant_buffer : Str

abbrev pub tenant_buffer_size : ℕ
tenant_buffer_size = 128

abbrev pub payload_max_size : ℕ
payload_max_size = 1 * 1024 * 1024

abbrev pub static_buffer_size : ℕ
static_buffer_size = 32 * 1024

unfoldable pub verb_of : Str → Verb
verb_of method =
    if method == codes "POST"
    then post
    else if method == codes "PUT"
    then put
    else if method == codes "GET"
    then get
    else if method == codes "DELETE"
    then delete
    else no_verb

abbrev pub no_headers : HttpHeaders
no_headers = record {
  user_agent = [];
  host = [];
  accept = [];
  expect = [];
  connection = [];
  content_type = [];
  content_length = 0;
  tenant = [];
  xauth_token = [];
  service_path = [];
  service_path_received = false;
  got_headers = false;
}

-- The defaults of the four parameters
unfoldable pub default_params : Params
unfolding store
default_params = store pagination_details (codes "off") (
    store pagination_limit (codes "20")
      (store pagination_offset (codes "0") (store notify_format [] (λ key. []))))

-- The constructor of ConnectionInfo, and the default parameters
unfoldable pub new_connection : Opening → Connection
unfolding verb_of default_params
new_connection o = record {
  url = o.url;
  verb = verb_of o.method;
  in_format = xml;
  out_format = xml;
  status = scc_ok;
  answer = none;
  uri_params = default_params;
  headers = no_headers;
  tenant_from_header = [];
  service_path = [];
  service_paths = [];
  payload = none;
  buffer_size = 0;
  payload_size = 0;
}

abbrev pub error_text : Format → Str → ℕ → Str → ErrorText
error_text format request code details = record {
  format = format;
  request = request;
  code = code;
  details = details;
}

-- restReply (ciP, ciP->answer)
unfoldable pub reply : Connection → List Effect
reply c = elim c.answer [ none ↦ [] | some text ↦ replied c.status text ∷ [] ]

-- The headers, and the service path where there is none among them
unfoldable pub read_headers : Opening → Connection → Connection
read_headers o c =
    let h = http_headers o.header_lines c.headers in
    record c {
      headers =
          if h.service_path_received
          then h
          else record h { service_path = default_service_path o.url o.method };
    }

-- none where strToLower writes past the end of its buffer
unfoldable pub read_tenant : Opening → Connection → Option Connection
unfolding str_to_lower c_str
read_tenant o c = elim (str_to_lower o.tenant_buffer c.headers.tenant tenant_buffer_size) [
  | none ↦ none
  | some buffer ↦ some (record c { tenant_from_header = c_str buffer })
]

unfoldable pub read_accept : Bool → Connection → Connection
read_accept text_xml c = record c {
  out_format = elim (wanted_format text_xml c.headers.accept) [
    | no_format ↦ xml
    | xml ↦ xml
    | json ↦ json
  ];
}

-- urlCheck
unfoldable pub url_check : Connection → Bool × Connection
unfolding forbidden_chars
url_check c =
    if forbidden_chars (some c.url)
    then (
      false,
      record c {
        status = scc_bad_request;
        answer =
            some (error_text c.out_format [] scc_bad_request (codes "invalid character in URI"));
      },
    )
    else (true, c)

-- The status of the connection stays what it is.
unfoldable pub read_service_paths : Connection → Connection × List Effect
unfolding reply
read_service_paths c =
    let (paths, fault) =
      service_path_split c.headers.service_path_received c.headers.service_path in
    let c' : Connection = record c {
      service_path = c.headers.service_path;
      service_paths = paths;
    } in
    elim fault [
      | none ↦ (c', [])
      | some (_, details) ↦
          let c'' : Connection = record c' {
            answer = some (error_text c.out_format [] scc_bad_request details);
          } in
          (c'', reply c'')
    ]

-- contentTypeCheck, else outFormatCheck, else the format of the payload
unfoldable pub read_types : Bool → Connection → Connection × List Effect
unfolding reply content_type_error
read_types text_xml c = elim (content_type_error text_xml c.headers) [
  | some details ↦
      let c' : Connection = record c {
        status = scc_unsupported_media_type;
        answer =
            some (error_text c.out_format (codes "OrionError") scc_unsupported_media_type details);
      } in
      (c', reply c')
  | none ↦ elim (wanted_format text_xml c.headers.accept) [
    | no_format ↦
        let c' : Connection = record c {
          out_format = xml;
          status = scc_not_acceptable;
          answer = some (
              error_text xml (codes "OrionError") scc_not_acceptable (
                codes
                  "acceptable MIME types: application/xml, application/json. Accept header in request: "
                ++ c.headers.accept));
        } in
        (c', reply c')
    | xml ↦ (record c { out_format = xml; in_format = format_parse c.headers.content_type }, [])
    | json ↦ (record c { out_format = json; in_format = format_parse c.headers.content_type }, [])
  ]
]

unfoldable pub notify_format_of : Format → Str
notify_format_of json = codes "JSON"
notify_format_of _ = codes "XML"

unfoldable pub default_notify_format : Connection → Connection
unfolding store notify_format_of
default_notify_format c =
    if c.uri_params notify_format == []
    then record c { uri_params = store notify_format (notify_format_of c.out_format) c.uri_params }
    else c

-- From the check of the URL on
unfoldable pub check_request : Bool → Connection → Connection × List Effect
unfolding url_check read_service_paths read_types default_notify_format reply
check_request text_xml c =
    let (fine, c1) = url_check c in
    let (c2, log) = read_service_paths c1 in
    let (c3, more) = read_types text_xml c2 in
    if not fine then (c1, reply c1) else (default_notify_format c3, log ++ more)

-- The first call; none for undefined behaviour.
unfoldable pub first_call : Bool → Opening → Option (Connection × List Effect)
unfolding new_connection read_headers read_tenant read_accept check_request reply
first_call text_xml o =
    let c = new_connection o in
    elim (uri_arguments c.out_format o.arguments
      (record { uri_params = c.uri_params; status = c.status; answer = c.answer })) [
        | none ↦ none
        | some st ↦
            let c' : Connection = record c {
              uri_params = st.uri_params;
              status = st.status;
              answer = st.answer;
            } in
            if not (st.status == scc_ok)
            then some (c', reply c')
            else elim (read_tenant o (read_headers o c')) [
              | none ↦ none
              | some c'' ↦ some (check_request text_xml (read_accept text_xml c''))
            ]
      ]

-- A call with data: a block of all the payload is taken, and any other left where it is. The decimals
-- of the size stand for "%d" of the error text.
unfoldable pub data_call : (ℕ → Str) → Str → Connection → Connection × Bool
data_call decimal upload c =
    let n = length upload in
    if n == c.headers.content_length
    then (
      if leb c.headers.content_length payload_max_size
          then record c {
            payload = some upload;
            buffer_size =
                if ltb static_buffer_size c.headers.content_length
                then c.headers.content_length + 1
                else static_buffer_size + 1;
            payload_size = n;
          }
          else record c {
            status = scc_request_entity_too_large;
            answer = some (
                error_text c.out_format c.url scc_request_entity_too_large (
                  codes "payload size: "
                  ++ (decimal c.headers.content_length
                      ++ (codes ", max size supported: " ++ decimal payload_max_size))));
          },
      true,
    )
    else (c, false)

unfoldable pub wants_payload : Verb → Bool
wants_payload post = true
wants_payload put = true
wants_payload _ = false

-- A POST or PUT without payload, but for the URLs of the log
unfoldable pub lacks_payload : Connection → Bool
unfolding wants_payload has_prefix_nocase
lacks_payload c =
    wants_payload c.verb
    && (c.headers.content_length == 0 && not (has_prefix_nocase (codes "/log/") c.url))

-- The last call
unfoldable pub last_call : Connection → Connection × List Effect
unfolding lacks_payload
last_call c =
    if lacks_payload c
    then (
      record c { status = scc_length_required },
      replied scc_length_required (
            error_text c.out_format c.url scc_length_required
              (codes "Zero/No Content-Length in PUT/POST request"))
          ∷ [],
    )
    else elim c.answer [ none ↦ (c, served ∷ []) | some text ↦ (c, replied c.status text ∷ []) ]
