-- ===== src/Strings/Url.antt =====
-- checkGroupIPv6, isIPv6, getIPv6Port and parseUrl of src/lib/common/string.cpp, and atoi of the C
-- library.
pub mod Laws
use fiware_orion.Base.{
  ℕ, zero, suc, ◌+◌, ◌-◌, ◌*◌, Str, ◌==◌, str_eq, nat_eq, ◌&&◌, ◌||◌, not, Bool, true, false,
  Option, none, some, List, [], ◌∷◌, ◌++◌, codes, get_elem?, drop, all, ltb, leb, if◌then◌else◌,
  length,
}
use fiware_orion.Base.Int.{ℤ, pos, negate}
use fiware_orion.Strings.Bytes.{c_str, is_digit, is_xdigit}
use fiware_orion.Strings.Split.{string_split}

-- All bytes but the last are hexadecimal digits.
unfoldable pub all_but_last : Str → Bool
all_but_last [] = true
all_but_last (c ∷ []) = true
all_but_last (c ∷ (d ∷ s)) = is_xdigit c && all_but_last (d ∷ s)

unfoldable pub check_group_ipv6 : Str → Bool
check_group_ipv6 s =
    if s == []
    then false
    else if s == codes ":"
    then true
    else if ltb 5 (length s)
    then false
    else all_but_last s

-- The loop of isIPv6: the groups up to each colon are checked, and counted. `group` is what has been
-- read of the current one.
unfoldable pub count_groups : Str → Str → Option ℕ
count_groups group [] = some 0
count_groups group (c ∷ s) =
    let rest = count_groups (if c == b':' then [] else group ++ c ∷ []) s in
    if c == b':'
    then (if check_group_ipv6 (group ++ c ∷ [])
        then elim rest [ none ↦ none | some n ↦ some (suc n) ]
        else none)
    else rest

unfoldable pub is_ipv6 : Str → Bool
is_ipv6 s = elim (count_groups [] s) [ none ↦ false | some n ↦ ltb 1 n && ltb n 8 ]

-- What stands before the last colon, and behind it.
unfoldable pub last_colon : Str → Option (Str × Str)
last_colon [] = none
last_colon (c ∷ s) = elim (last_colon s) [
  | some (a, b) ↦ some (c ∷ a, b)
  | none ↦ if c == b':' then some ([], s) else none
]

-- getIPv6Port: the address and the port where it returns true.
unfoldable pub get_ipv6_port : Str → Option (Str × Str)
get_ipv6_port s = elim (last_colon s) [
  | none ↦ none
  | some (ip, port) ↦ if is_ipv6 (ip ++ codes ":") then some (ip, port) else none
]

unfoldable pub is_space : ℕ → Bool
is_space c = c == b' ' || (leb 0x09 c && leb c 0x0d)

unfoldable pub skip_space : Str → Str
skip_space [] = []
skip_space (c ∷ s) = if is_space c then skip_space s else c ∷ s

-- The digits at the start of a text.
unfoldable pub leading_digits : ℕ → Str → ℕ
leading_digits n [] = n
leading_digits n (c ∷ s) = if is_digit c then leading_digits (n * 10 + (c - b'0')) s else n

unfoldable pub signed_digits : Str → ℤ
signed_digits [] = pos 0
signed_digits (c ∷ s) =
    if c == b'-'
    then negate (leading_digits 0 s)
    else if c == b'+'
    then pos (leading_digits 0 s)
    else pos (leading_digits 0 (c ∷ s))

-- atoi, of a number that an `int` can hold
unfoldable pub atoi : Str → ℤ
atoi s = signed_digits (skip_space (c_str s))

-- DEFAULT_HTTP_PORT and DEFAULT_HTTPS_PORT
abbrev pub default_http_port : ℕ
default_http_port = 80

abbrev pub default_https_port : ℕ
default_https_port = 443

pub record Url : Type 0 where
  pub host : Str
  pub port : ℤ
  pub path : Str
  pub protocol : Str

-- parseUrl returns false, or reads an element that its vector of tokens does not have, or returns
-- true and sets its four arguments.
pub data UrlResult : Type 0 where
  rejected : UrlResult
  out_of_range : UrlResult
  parsed : Url → UrlResult

-- The loop over the tokens from the fourth on.
unfoldable pub url_path : List Str → Str
url_path [] = []
url_path (t ∷ ts) = codes "/" ++ (t ++ url_path ts)

-- Minimum path is always "/".
unfoldable pub min_path : Str → Str
min_path p = if p == [] then codes "/" else p

unfoldable pub host_and_port : Str → Str → ℕ × List Str → UrlResult
host_and_port protocol path (n, []) = if ltb 2 n then rejected else out_of_range
host_and_port protocol path (n, host ∷ ts) =
    if ltb 2 n
    then rejected
    else parsed (record {
      host = host;
      port = elim ts [
        | port ∷ rest ↦ atoi port
        | [] ↦ pos (if protocol == codes "https:" then default_https_port else default_http_port)
      ];
      path = path;
      protocol = protocol;
    })

-- The third token is an IPv6 address and a port, or a host and possibly a port.
unfoldable pub parse_host : Str → Str → Str → UrlResult
parse_host protocol path token = elim (get_ipv6_port token) [
  | some (ip, port) ↦
      parsed (record { host = ip; port = atoi port; path = path; protocol = protocol })
  | none ↦ host_and_port protocol path (string_split token b':' [])
]

-- From the tokens of the first split on.
unfoldable pub parse_tokens : List Str → UrlResult
parse_tokens [] = out_of_range
parse_tokens (protocol ∷ []) = rejected
parse_tokens (protocol ∷ (t ∷ [])) = rejected
parse_tokens (protocol ∷ (t ∷ ([] ∷ []))) = rejected
parse_tokens (protocol ∷ (t ∷ (token ∷ ts))) = parse_host protocol (min_path (url_path ts)) token

unfoldable pub parse_url : Str → UrlResult
parse_url url = if url == [] then rejected else parse_tokens (string_split url b'/' []).1
