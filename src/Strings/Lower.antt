-- ===== src/Strings/Lower.antt =====
-- strToLower of src/lib/common/string.cpp. The buffer that `to` points to is a list of bytes.
use fiware_orion.Base.{
  ℕ, zero, suc, Str, ◌≡◌, refl, ap, ◌+◌, ◌-◌, ◌<◌, ◌≤◌, ◌&&◌, Option, none, some, [], ◌∷◌, ◌++◌,
  leb, ltb, if◌then◌else◌, arith, length, map, drop,
}
use fiware_orion.Strings.Bytes.{c_str}

unfoldable pub lower_byte : ℕ → ℕ
lower_byte c = if leb b'A' c && leb c b'Z' then c + (b'a' - b'A') else c

-- `*to = c`, followed by what writes the bytes after it
abbrev put : ℕ → Option Str → Option Str
put c none = none
put c (some mem) = some (c ∷ mem)

-- The loop on `n` bytes and the zero after it: the buffer, or none where the code reads or writes
-- past an end.
unfoldable pub copy_lower : ℕ → Str → Str → Option Str
copy_lower n from [] = none
copy_lower zero from (m ∷ to) = some (0 ∷ to)
copy_lower (suc n) [] (m ∷ to) = none
copy_lower (suc n) (c ∷ from) (m ∷ to) = put (lower_byte c) (copy_lower n from to)

unfoldable pub str_to_lower : Str → Str → ℕ → Option Str
str_to_lower to from to_size =
    let from_size = length (c_str from) in
    copy_lower (if ltb to_size (from_size + 1) then to_size else from_size) (c_str from) to

copy_fits :
    (from to : Str)
    → length from < length to
    → copy_lower (length from) from to
      ≡ some (map lower_byte from ++ 0 ∷ drop (suc (length from)) to)
unfolding copy_lower
copy_fits from [] h = absurd (omega (arith, h))
copy_fits [] (m ∷ to) h = refl
copy_fits (c ∷ from) (m ∷ to) h = ap (put (lower_byte c)) (copy_fits from to (omega (arith, h)))

copy_past : (from to : Str) → length to ≤ length from → copy_lower (length to) from to ≡ none
unfolding copy_lower
copy_past from [] h = refl
copy_past [] (m ∷ to) h = absurd (omega (arith, h))
copy_past (c ∷ from) (m ∷ to) h = ap (put (lower_byte c)) (copy_past from to (omega (arith, h)))

-- strToLower, told the size of its buffer, leaves in it the text in lower case, the final zero and
-- what was behind them, where the text and the zero fit. Where they do not fit, it writes past the
-- end of the buffer.
pub str_to_lower_lem :
    (from to : Str)
    → str_to_lower to from (length to) ≡ (
        if ltb (length (c_str from)) (length to)
        then some (map lower_byte (c_str from) ++ 0 ∷ drop (suc (length (c_str from))) to)
        else none)
unfolding str_to_lower
str_to_lower_lem from to = ground (arith, copy_fits (c_str from) to, copy_past (c_str from) to)
