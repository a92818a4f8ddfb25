-- ===== src/Strings/Buffer.antt =====
-- slashEscape of src/lib/mongoBackend/MongoGlobal.cpp: slashes escaped into a buffer of `to_len`
-- bytes.
use fiware_orion.Base.{
  ℕ, Str, ◌≡◌, refl, ◌+◌, ◌-◌, ◌<◌, ◌==◌, nat_eq, Option, none, some, [], ◌∷◌, ◌++◌, codes, leb,
  ltb, if◌then◌else◌, arith, length, length-append,
}
use fiware_orion.Strings.Bytes.{c_str}

-- the bytes that one byte becomes
unfoldable pub escaped : ℕ → Str
escaped c = if c == b'/' then 0x5c ∷ c ∷ [] else c ∷ []

unfoldable pub slashes : Str → ℕ
slashes [] = 0
slashes (c ∷ s) = (if c == b'/' then 1 else 0) + slashes s

-- The third step, from the position `ix` of the buffer on.
unfoldable pub copy_escaped : ℕ → ℕ → Str → Str
copy_escaped to_len ix [] = []
copy_escaped to_len ix (c ∷ s) =
    let rest = copy_escaped to_len (ix + length (escaped c)) s in
    if leb (to_len - 2) ix then [] else escaped c ++ rest

-- What the buffer holds after the call, or none where it is as before: for an empty string.
unfoldable pub slash_escape : Str → ℕ → Option Str
slash_escape from to_len =
    if ltb to_len (length (c_str from) + slashes (c_str from) + 1)
    then some (codes "ERROR")
    else elim (c_str from) [ [] ↦ none | c ∷ s ↦ some (copy_escaped to_len 0 (c ∷ s)) ]

-- Every slash escaped.
abbrev pub escape_all : Str → Str
escape_all [] = []
escape_all (c ∷ s) = escaped c ++ escape_all s

length-escaped : (c : ℕ) → length (escaped c) ≡ 1 + (if c == b'/' then 1 else 0)
unfolding escaped
length-escaped c = ground arith

length-escape_all : (s : Str) → length (escape_all s) ≡ length s + slashes s
unfolding slashes
length-escape_all [] = omega arith
length-escape_all (c ∷ s) =
    omega (arith, length-append (escaped c) (escape_all s), length-escaped c, length-escape_all s)

copy_whole :
    (to_len ix : ℕ) (s : Str)
    → ix + length s + slashes s + 1 < to_len
    → copy_escaped to_len ix s ≡ escape_all s
unfolding copy_escaped slashes
copy_whole to_len ix [] h = refl
copy_whole to_len ix (c ∷ s) h =
    ground (arith, length-escaped c, copy_whole to_len (ix + length (escaped c)) s)

-- Where the escaped text and its final zero leave at least one byte of the buffer free, a string
-- that is not empty is escaped in full.
pub slash_escape_lem :
    (c : ℕ) (s : Str) (to_len : ℕ)
    → c_str (c ∷ s) ≡ c ∷ s
    → length (escape_all (c ∷ s)) + 1 < to_len
    → slash_escape (c ∷ s) to_len ≡ some (escape_all (c ∷ s))
unfolding slash_escape
slash_escape_lem c s to_len e h =
    rw e (ground (arith, length-escape_all (c ∷ s), copy_whole to_len 0 (c ∷ s)))
