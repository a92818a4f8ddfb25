-- ===== src/Rest/UriParams.antt =====
-- uriArgumentGet of src/lib/rest/rest.cpp, the callback for one argument of a URI. A key or a value is
-- a C string: the text before its zero byte.
pub mod Laws
use fiware_orion.Base.{
  ℕ, Str, ◌++◌, ◌==◌, str_eq, nat_eq, ◌&&◌, ◌||◌, ◌^◌, not, Bool, true, false, Option, none, some,
  List, [], ◌∷◌, codes, all, ltb, if◌then◌else◌,
}
use fiware_orion.Strings.Bytes.{is_digit, strcasecmp_eq}
use fiware_orion.Strings.Url.{leading_digits}
use fiware_orion.Update.Subscriptions.{Format}
use fiware_orion.Rest.{ErrorText, Params, store, scc_bad_request}

abbrev pub notify_format : Str
notify_format = codes "notifyFormat"

abbrev pub pagination_offset : Str
pagination_offset = codes "offset"

abbrev pub pagination_limit : Str
pagination_limit = codes "limit"

abbrev pub pagination_details : Str
pagination_details = codes "details"

abbrev pub attributes_format : Str
attributes_format = codes "attributesFormat"

abbrev pub attribute_format : Str
attribute_format = codes "attributeFormat"

abbrev pub max_pagination_limit : ℕ
max_pagination_limit = 1000

-- What the callback changes in the ConnectionInfo.
pub record UriState : Type 0 where
  pub uri_params : Params
  pub status : ℕ
  pub answer : Option ErrorText

-- What is to be stored for an argument: the value, or the details of an error. `undefined` is for a
-- value that is NULL and read, and for a number that no `int` can hold.
pub data Verdict : Type 0 where
  undefined : Verdict
  bad : Str → Verdict
  good : Str → Verdict

unfoldable pub notify_format_verdict : Str → Verdict
notify_format_verdict val =
    if strcasecmp_eq val (codes "xml")
    then good (codes "XML")
    else if strcasecmp_eq val (codes "json")
    then good (codes "JSON")
    else bad
        (codes "Bad notification format: /" ++ (val ++ codes "/. Valid values: /XML/ and /JSON/"))

unfoldable pub offset_verdict : Str → Verdict
unfolding is_digit
offset_verdict val =
    if all is_digit val
    then good val
    else bad (codes "Bad pagination offset: /" ++ (val ++ codes "/ [must be a decimal number]"))

-- atoi of digits
unfoldable pub limit_verdict : Str → Verdict
unfolding is_digit leading_digits
limit_verdict val =
    let limit = leading_digits 0 val in
    let prefix = codes "Bad pagination limit: /" in
    if not (all is_digit val)
    then bad (prefix ++ (val ++ codes "/ [must be a decimal number]"))
    else if not (ltb limit (2 ^ 31))
    then undefined
    else if ltb max_pagination_limit limit
    then bad (prefix ++ (val ++ codes "/ [max: 1000]"))
    else if limit == 0
    then bad (prefix ++ (val ++ codes "/ [a value of ZERO is unaccepted]"))
    else good val

unfoldable pub details_verdict : Str → Verdict
details_verdict val =
    if not (strcasecmp_eq val (codes "on")) && not (strcasecmp_eq val (codes "off"))
    then bad (
        codes "Bad value for /details/: /"
        ++ (val ++ codes "/ [accepted: /on/, /ON/, /off/, /OFF/. Default is /off/]"))
    else good val

-- `val` may be NULL: `value` is then the empty string, and "SET" is stored.
unfoldable pub value_or_empty : Option Str → Str
value_or_empty none = []
value_or_empty (some val) = val

unfoldable pub value_or_set : Option Str → Str
value_or_set none = codes "SET"
value_or_set (some val) = val

unfoldable pub read_value : (Str → Verdict) → Option Str → Verdict
read_value verdict none = undefined
read_value verdict (some val) = verdict val

unfoldable pub verdict_on : Str → Option Str → Verdict
unfolding value_or_empty value_or_set read_value
verdict_on key val =
    if key == notify_format
    then read_value notify_format_verdict val
    else if key == pagination_offset
    then read_value offset_verdict val
    else if key == pagination_limit
    then read_value limit_verdict val
    else if key == pagination_details
    then details_verdict (value_or_empty val)
    else good (value_or_set val)

-- The other spelling of the parameter is set as well.
unfoldable pub store_twin : Str → Str → Params → Params
store_twin key value params =
    if key == attributes_format
    then store attribute_format value params
    else if key == attribute_format
    then store attributes_format value params
    else params

-- none for undefined behaviour
unfoldable pub uri_argument_get : Format → Str → Option Str → UriState → Option UriState
unfolding value_or_empty
uri_argument_get out_format key val st = elim (verdict_on key val) [
  | undefined ↦ none
  | bad details ↦ some (record st {
    status = scc_bad_request;
    answer =
        some
          (record { format = out_format; request = []; code = scc_bad_request; details = details });
  })
  | good value ↦ some (record st {
    uri_params = store key value (store_twin key (value_or_empty val) st.uri_params);
  })
]

-- MHD_get_connection_values: the callback for each argument of the URI.
unfoldable pub uri_arguments : Format → List (Str × Option Str) → UriState → Option UriState
uri_arguments out_format [] st = some st
uri_arguments out_format ((key, val) ∷ args) st = elim (uri_argument_get out_format key val st) [
  | none ↦ none
  | some st' ↦ uri_arguments out_format args st'
]
