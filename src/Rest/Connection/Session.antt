-- ===== src/Rest/Connection/Session.antt =====
-- The calls that the HTTP library makes of connectionTreat for one request, as a step relation.
use fiware_orion.Base.{
  ℕ, ◌<◌, ◌≤◌, Str, ◌≡◌, ◌⊎◌, ◌++◌, str_eq, nat_eq, Bool, false, none, some, List, length, All,
}
use fiware_orion.Strings.Checks.{forbidden_chars}
use fiware_orion.Rest.{ErrorText}
use fiware_orion.Rest.UriParams.Laws.{IsValid}
use fiware_orion.Rest.Mime.{content_type_error}
use fiware_orion.Rest.ServicePath.{max_paths}
use fiware_orion.Rest.ServicePath.Laws.{IsLegal}
use fiware_orion.Rest.Connection.{
  Connection, Effect, Opening, payload_max_size, first_call, data_call, last_call,
}

-- Nothing wrong was found in the request.
pub record IsChecked (text_xml : Bool) (c : Connection) : Type 0 where
  pub params : IsValid c.uri_params
  pub url : forbidden_chars (some c.url) ≡ false
  pub paths :
      (c.headers.service_path_received ≡ false)
      ⊎ (All IsLegal c.service_paths × (length c.service_paths ≤ max_paths))
  pub type : content_type_error text_xml c.headers ≡ none

-- The payload is as long as the header says, and its buffer has room for the zero byte behind it.
abbrev pub HasRoom : Connection → Type 0
HasRoom c =
    (c.payload ≡ none)
    ⊎ ((p : Str) × (c.payload ≡ some p)
        × (length p ≡ c.headers.content_length)
        × (c.payload_size ≡ length p)
        × (length p ≤ payload_max_size)
        × (length p < c.buffer_size))

abbrev pub HasAnswer : Connection → Type 0
HasAnswer c = (text : ErrorText) × (c.answer ≡ some text)

pub record IsSound (text_xml : Bool) (c : Connection) : Type 0 where
  pub room : HasRoom c
  pub checked : HasAnswer c ⊎ IsChecked text_xml c

-- What a connection is on its way, with the effects so far.
pub data Session : Type 0 where
  fresh : Session
  active : Connection → List Effect → Session
  closed : Connection → List Effect → Session

pub data Step (text_xml : Bool) (decimal : ℕ → Str) : Session → Session → Type 0 where
  opens :
      (o : Opening) (c : Connection) (log : List Effect)
      → first_call text_xml o ≡ some (c, log)
      → Step text_xml decimal fresh (active c log)
  uploads :
      (c : Connection) (log : List Effect) (upload : Str)
      → Step text_xml decimal (active c log) (active (data_call decimal upload c).0 log)
  ends :
      (c : Connection) (log : List Effect)
      → Step text_xml decimal (active c log) (closed (last_call c).0 (log ++ (last_call c).1))

pub data Reach (text_xml : Bool) (decimal : ℕ → Str) : Session → Type 0 where
  start : Reach text_xml decimal fresh
  next :
      {s t : Session}
      → Reach text_xml decimal s
      → Step text_xml decimal s t
      → Reach text_xml decimal t
