-- ===== src/Strings/Url/Laws.antt =====
-- parseUrl of src/lib/common/string.cpp on well-formed URLs, and on those that it reads past the end.
use fiware_orion.Base.{
  ℕ, Str, ◌≡◌, ◌≢◌, refl, ◌∙◌, ap, ◌==◌, str_eq, str_beq, nat_eq, false, Option, none, some, List,
  [], ◌∷◌, ◌++◌, codes, if◌then◌else◌, arith, All, All-append, ◌⊎◌,
}
use fiware_orion.Base.Int.{ℤ, pos}
use fiware_orion.Strings.Bytes.{Lacks, c_str}
use fiware_orion.Strings.Split.{string_split, skip, components_of}
use fiware_orion.Strings.Split.Laws.{join, string_split-join}
use fiware_orion.Strings.Url.{
  count_groups, is_ipv6, last_colon, get_ipv6_port, atoi, out_of_range, parsed, url_path, min_path,
  host_and_port, parse_host, parse_tokens, parse_url,
}

last_colon-none : (s : Str) → Lacks b':' s → last_colon s ≡ none
unfolding last_colon
last_colon-none [] h = refl
last_colon-none (c ∷ s) h = rw (last_colon-none s h.1) (ground (arith, h.0))

last_colon-some : (h p : Str) → Lacks b':' p → last_colon (h ++ (b':' ∷ p)) ≡ some (h, p)
unfolding last_colon
last_colon-some [] p l = rw (last_colon-none p l) refl
last_colon-some (c ∷ h) p l = rw (last_colon-some h p l) refl

-- One colon is not enough for an IPv6 address.
one_group :
    (g h : Str)
    → Lacks b':' h
    → (count_groups g (h ++ codes ":") ≡ none) ⊎ (count_groups g (h ++ codes ":") ≡ some 1)
unfolding count_groups
one_group g [] l = ground arith
one_group g (c ∷ h) l = ground (arith, l.0, one_group (g ++ c ∷ []) h l.1)

not_ipv6 : (h : Str) → Lacks b':' h → is_ipv6 (h ++ codes ":") ≡ false
unfolding is_ipv6
not_ipv6 h l = ground (arith, one_group [] h l)

-- A host and a port, none of them with a colon, are no IPv6 address and port.
not_ipv6_port : (h p : Str) → Lacks b':' h → Lacks b':' p → get_ipv6_port (h ++ (b':' ∷ p)) ≡ none
unfolding get_ipv6_port
not_ipv6_port h p l k = ground (arith, last_colon-some h p k, not_ipv6 h l)

not_port : (h : Str) → Lacks b':' h → get_ipv6_port h ≡ none
unfolding get_ipv6_port
not_port h l = ground (arith, last_colon-none h l)

-- A host, and a port behind a colon if there is one.
abbrev pub spell : Str → Option Str → Str
spell h none = h
spell h (some p) = h ++ (b':' ∷ p)

abbrev pub port_of : Str → Option Str → ℤ
port_of protocol none = pos (if protocol == codes "https:" then 443 else 80)
port_of protocol (some p) = atoi p

abbrev pub PortLacks : ℕ → Option Str → Type 0
PortLacks d none = Unit
PortLacks d (some p) = Lacks d p

spelled_host :
    (protocol path : Str) (x : ℕ) (h : Str) (port : Option Str)
    → Lacks b':' (x ∷ h)
    → PortLacks b':' port
    → Lacks 0 (x ∷ h)
    → PortLacks 0 port
    → parse_host protocol path (spell (x ∷ h) port)
      ≡ parsed
          (record { host = x ∷ h; port = port_of protocol port; path = path; protocol = protocol })
unfolding parse_host host_and_port join
spelled_host protocol path x h none l k z y =
    let split : string_split (x ∷ h) b':' [] ≡ (1, (x ∷ h) ∷ []) =
      string_split-join b':' x h [] (omega arith) (l, tt) (z, tt) in
    ground (arith, not_port (x ∷ h) l, split)
spelled_host protocol path x h (some p) l k z y =
    let split : string_split (x ∷ (h ++ (b':' ∷ p))) b':' [] ≡ (2, (x ∷ h) ∷ (p ∷ [])) =
      string_split-join b':' x h (p ∷ []) (omega arith) (l, (k, tt)) (z, (y, tt)) in
    ground (arith, not_ipv6_port (x ∷ h) p l k, split)

spell-Lacks :
    (d : ℕ) (h : Str) (port : Option Str)
    → b':' ≢ d
    → Lacks d h
    → PortLacks d port
    → Lacks d (spell h port)
spell-Lacks d h none ne l k = l
spell-Lacks d h (some p) ne l k = All-append (λ c. c ≢ d) h (b':' ∷ p) l (ne, k)

tokens_spelled :
    (protocol : Str) (x : ℕ) (h : Str) (port : Option Str) (segments : List Str)
    → parse_tokens (protocol ∷ ([] ∷ (spell (x ∷ h) port ∷ segments)))
      ≡ parse_host protocol (min_path (url_path segments)) (spell (x ∷ h) port)
unfolding parse_tokens
tokens_spelled protocol x h none segments = refl
tokens_spelled protocol x h (some p) segments = refl

parse_url-cons :
    (c : ℕ) (s : Str) → parse_url (c ∷ s) ≡ parse_tokens (string_split (c ∷ s) b'/' []).1
unfolding parse_url str_beq
parse_url-cons c s = refl

joined :
    (c : ℕ) (p q : Str) (ps : List Str)
    → parse_url (join b'/' ((c ∷ p) ∷ (q ∷ ps)))
      ≡ parse_tokens (string_split (join b'/' ((c ∷ p) ∷ (q ∷ ps))) b'/' []).1
unfolding join
joined c p q ps = parse_url-cons c (p ++ (b'/' ∷ join b'/' (q ∷ ps)))

-- A URL of a protocol, a host without colon that is not empty, a port if there is one, and path
-- segments, none of them with a slash or a zero byte, is parsed into them: the port as atoi reads it, or that of
-- the protocol; and "/" for an empty path.
pub parse_url_lem :
    (c : ℕ) (p : Str) (x : ℕ) (h : Str) (port : Option Str) (segments : List Str)
    → All (Lacks b'/') ((c ∷ p) ∷ (x ∷ h) ∷ segments)
    → All (Lacks 0) ((c ∷ p) ∷ (x ∷ h) ∷ segments)
    → Lacks b':' (x ∷ h)
    → PortLacks b':' port × PortLacks b'/' port × PortLacks 0 port
    → parse_url (join b'/' ((c ∷ p) ∷ ([] ∷ (spell (x ∷ h) port ∷ segments))))
      ≡ parsed (record {
        host = x ∷ h;
        port = port_of (c ∷ p) port;
        path = min_path (url_path segments);
        protocol = c ∷ p;
      })
parse_url_lem c p x h port segments l z k (pc, ps, pz) =
    let split =
      string_split-join b'/' c p ([] ∷ (spell (x ∷ h) port ∷ segments)) (omega arith)
        (l.0, (tt, (spell-Lacks b'/' (x ∷ h) port (omega arith) l.1.0 ps, l.1.1)))
        (z.0, (tt, (spell-Lacks 0 (x ∷ h) port (omega arith) z.1.0 pz, z.1.1))) in
    joined c p [] (spell (x ∷ h) port ∷ segments)
    ∙ (ap (λ (r : ℕ × List Str). parse_tokens r.1) split
        ∙ (tokens_spelled (c ∷ p) x h port segments
            ∙ spelled_host (c ∷ p) (min_path (url_path segments)) x h port k pc z.1.0 pz))

skip_all : (s : Str) → All (λ c. c ≡ b'/') s → skip b'/' (c_str s) ≡ []
unfolding skip c_str
skip_all [] h = refl
skip_all (c ∷ s) h = ground (arith, h.0, skip_all s h.1)

split-slashes : (s : Str) → All (λ c. c ≡ b'/') s → string_split s b'/' [] ≡ (0, [])
unfolding string_split components_of
split-slashes s h = rw (skip_all s h) refl

-- A URL of slashes only is read past the end of its tokens.
pub parse_url-slashes : (s : Str) → All (λ c. c ≡ b'/') s → parse_url (b'/' ∷ s) ≡ out_of_range
unfolding parse_tokens
parse_url-slashes s h =
    parse_url-cons b'/' s
    ∙ ap (λ (r : ℕ × List Str). parse_tokens r.1) (split-slashes (b'/' ∷ s) (refl, h))
