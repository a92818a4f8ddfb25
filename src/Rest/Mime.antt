-- ===== src/Rest/Mime.antt =====
-- The media types of a request: httpHeaderGet, wantedOutputSupported and contentTypeCheck of
-- src/lib/rest/rest.cpp, and formatParse of src/lib/common/Format.cpp. A C string is the text before
-- its zero byte.
pub mod Laws
use fiware_orion.Base.{
  ℕ, zero, suc, ◌-◌, ◌%◌, ◌^◌, Str, ◌++◌, ◌==◌, str_eq, nat_eq, ◌&&◌, ◌||◌, not, Bool, true, false,
  Option, none, some, List, [], ◌∷◌, codes, any, if◌then◌else◌, length,
}
use fiware_orion.Base.Int.{ℤ, pos, negsuc}
use fiware_orion.Strings.Bytes.{split_at, after_prefix, strcasecmp_eq}
use fiware_orion.Strings.Strip.{ws_strip}
use fiware_orion.Strings.Url.{atoi}
use fiware_orion.Update.Subscriptions.{Format, no_format, xml, json}
use fiware_orion.Rest.{ErrorText, HttpHeaders, scc_unsupported_media_type}

-- strstr (s, ";"), and the zero byte in its place
unfoldable pub before_semicolon : Str → Str
unfolding split_at
before_semicolon s = elim (split_at b';' s) [ none ↦ s | some (a, b) ↦ a ]

-- an int as an unsigned int
unfoldable pub unsigned_int : ℤ → ℕ
unsigned_int (pos n) = n % 2 ^ 32
unsigned_int (negsuc n) = (2 ^ 32 - 1) - n % 2 ^ 32

-- Which member of HttpHeaders a header sets.
unfoldable pub set_header : Str → Str → HttpHeaders → HttpHeaders
unfolding strcasecmp_eq unsigned_int
set_header key value h =
    if strcasecmp_eq key (codes "User-Agent")
    then record h { user_agent = value }
    else if strcasecmp_eq key (codes "Host")
    then record h { host = value }
    else if strcasecmp_eq key (codes "Accept")
    then record h { accept = value }
    else if strcasecmp_eq key (codes "Expect")
    then record h { expect = value }
    else if strcasecmp_eq key (codes "Connection")
    then record h { connection = value }
    else if strcasecmp_eq key (codes "Content-Type")
    then record h { content_type = value }
    else if strcasecmp_eq key (codes "Content-Length")
    then record h { content_length = unsigned_int (atoi value) }
    else if strcasecmp_eq key (codes "Fiware-Service")
    then record h { tenant = value }
    else if strcasecmp_eq key (codes "X-Auth-Token")
    then record h { xauth_token = value }
    else if strcasecmp_eq key (codes "Fiware-Servicepath")
    then record h { service_path = value; service_path_received = true }
    else h

-- The parameters of the content type are cut off at each header.
unfoldable pub http_header_get : Str → Str → HttpHeaders → HttpHeaders
unfolding set_header before_semicolon
http_header_get key value h =
    let h' = set_header key value h in
    record h' { content_type = before_semicolon h'.content_type; got_headers = true }

unfoldable pub http_headers : List (Str × Str) → HttpHeaders → HttpHeaders
http_headers [] h = h
http_headers ((key, value) ∷ headers) h = http_headers headers (http_header_get key value h)

-- The loop of wantedOutputSupported over the commas; none where the rounds run out.
unfoldable pub accept_loop : ℕ → Str → Option (List Str)
unfolding split_at ws_strip
accept_loop zero s = none
accept_loop (suc n) s = elim (split_at b',' s) [
  | none ↦ some (elim (ws_strip s) [ [] ↦ [] | c ∷ r ↦ (c ∷ r) ∷ [] ])
  | some (piece, []) ↦ some (ws_strip piece ∷ [])
  | some (piece, c ∷ rest) ↦ elim (accept_loop n (c ∷ rest)) [
    | none ↦ none
    | some pieces ↦ some (ws_strip piece ∷ pieces)
  ]
]

-- A missing Accept header stands for any type.
unfoldable pub accept_text : Str → Str
accept_text [] = codes "*/*"
accept_text (c ∷ s) = c ∷ s

-- The two flags after one more element of the list. What is read of the charset is emptied again.
unfoldable pub note_media_type : Bool → Bool × Bool → Str → Bool × Bool
unfolding before_semicolon
note_media_type text_xml (has_xml, has_json) element =
    let format = before_semicolon element in
    (
      has_xml
          || (any (λ t. format == t)
                (codes "*/*" ∷ codes "*/xml" ∷ codes "application/*" ∷ codes "application/xml" ∷ [])
              || text_xml && format == codes "text/xml"),
      has_json || (format == codes "application/json" || format == codes "*/json"),
    )

unfoldable pub note_media_types : Bool → Bool × Bool → List Str → Bool × Bool
note_media_types text_xml flags [] = flags
note_media_types text_xml flags (e ∷ es) =
    note_media_types text_xml (note_media_type text_xml flags e) es

unfoldable pub format_of_flags : Bool × Bool → Format
format_of_flags (has_xml, has_json) = if has_xml then xml else if has_json then json else no_format

-- none where the rounds run out
unfoldable pub wanted_output_supported : ℕ → Bool → Str → Option Format
wanted_output_supported rounds text_xml accept = elim (accept_loop rounds (accept_text accept)) [
  | none ↦ none
  | some pieces ↦ some (format_of_flags (note_media_types text_xml (false, false) pieces))
]

-- One round more than the header has bytes is enough: accept_loop_total of Rest/Mime/Laws.antt.
unfoldable pub wanted_format : Bool → Str → Format
wanted_format text_xml accept =
    elim (wanted_output_supported (suc (length (accept_text accept))) text_xml accept) [
      | none ↦ no_format
      | some format ↦ format
    ]

-- What formatParse returns
unfoldable pub format_parse : Str → Format
unfolding before_semicolon ws_strip
format_parse s =
    let format = ws_strip (before_semicolon s) in
    if any (λ t. format == t) (codes "*/*" ∷ codes "application/xml" ∷ codes "text/xml" ∷ [])
    then xml
    else if any (λ t. format == t) (codes "text/json" ∷ codes "application/json" ∷ [])
    then json
    else xml

-- The details of the error of contentTypeCheck, or none where it returns 0.
unfoldable pub content_type_error : Bool → HttpHeaders → Option Str
content_type_error text_xml h =
    if h.content_length == 0
    then none
    else if h.content_type == []
    then some
        (codes "Content-Type header not used, default application/octet-stream is not supported")
    else if text_xml && h.content_type == codes "text/xml"
    then none
    else if not (h.content_type == codes "application/xml")
        && not (h.content_type == codes "application/json")
    then some (codes "not supported content type: " ++ h.content_type)
    else none
