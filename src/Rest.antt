-- ===== src/Rest.antt =====
-- The HTTP front end: src/lib/rest. A connection, its headers, and what the broker replies.
pub mod UriParams
pub mod Mime
pub mod ServicePath
pub mod Connection
pub mod Service
mod Samples
use fiware_orion.Base.{ℕ, Str, ◌==◌, str_eq, Bool, Option, List, if◌then◌else◌}
use fiware_orion.Update.Subscriptions.{Format}

-- enum HttpStatusCode of src/lib/rest/HttpStatusCode.h, the codes that the front end fills in
abbrev pub scc_bad_request : ℕ
scc_bad_request = 400

abbrev pub scc_not_acceptable : ℕ
scc_not_acceptable = 406

abbrev pub scc_length_required : ℕ
scc_length_required = 411

abbrev pub scc_request_entity_too_large : ℕ
scc_request_entity_too_large = 413

abbrev pub scc_unsupported_media_type : ℕ
scc_unsupported_media_type = 415

-- What an error text is rendered from, by OrionError::render or, for a request that has a response
-- of its own, by restErrorReplyGet. No such text is empty.
pub record ErrorText : Type 0 where
  pub format : Format
  pub request : Str
  pub code : ℕ
  pub details : Str

-- enum Verb
pub data Verb : Type 0 where
  post put get delete no_verb : Verb

-- std::map<string, string>: operator[] finds the empty string for a missing key.
abbrev pub Params : Type 0
Params = Str → Str

unfoldable pub store : Str → Str → Params → Params
store k v params j = if j == k then v else params j

-- class HttpHeaders
pub record HttpHeaders : Type 0 where
  pub user_agent : Str
  pub host : Str
  pub accept : Str
  pub expect : Str
  pub connection : Str
  pub content_type : Str
  pub content_length : ℕ
  pub tenant : Str
  pub xauth_token : Str
  pub service_path : Str
  pub service_path_received : Bool
  pub got_headers : Bool
