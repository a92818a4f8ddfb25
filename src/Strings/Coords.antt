-- ===== src/Strings/Coords.antt =====
-- atoF and string2coords of src/lib/common/string.cpp. `double` and `atof` are the platform's.
pub mod Laws
use fiware_orion.Base.{
  ℕ, Str, ◌+◌, ◌==◌, str_eq, nat_eq, ◌||◌, not, Bool, true, false, Option, none, some, [], ◌∷◌,
  codes, ltb, all, if◌then◌else◌,
}
use fiware_orion.Strings.Bytes.{c_str, is_digit}
use fiware_orion.Strings.Strip.{ws_strip}

-- double: `above x n` is x > n and `below x n` is x < -n.
pub record Double : Type 1 where
  pub Carrier : Type 0
  pub zero : Carrier
  pub atof : Str → Carrier
  pub above : Carrier → ℕ → Bool
  pub below : Carrier → ℕ → Bool

-- The loop over the dots: their number, or none where the last byte is one.
unfoldable pub count_dots : Str → Option ℕ
count_dots [] = some 0
count_dots (c ∷ []) = if c == b'.' then none else some 0
count_dots (c ∷ (d ∷ s)) = elim (count_dots (d ∷ s)) [
  | none ↦ none
  | some n ↦ some (if c == b'.' then n + 1 else n)
]

unfoldable pub is_digit_or_dot : ℕ → Bool
unfolding is_digit
is_digit_or_dot c = c == b'.' || is_digit c

unfoldable pub is_sign : ℕ → Bool
is_sign c = c == b'-' || c == b'+'

unfoldable pub starts_number : Str → Bool
starts_number [] = false
starts_number (c ∷ s) = is_digit_or_dot c

-- The checks after the sign, an error message or the empty string.
unfoldable pub check_number : Str → Str
check_number s = elim (count_dots s) [
  | none ↦ codes "last character in a double cannot be a dot"
  | some n ↦
      if ltb 1 n
      then codes "more than one dot"
      else if not (all is_digit_or_dot s)
      then codes "invalid characters in string to convert"
      else []
]

unfoldable pub check_a_to_f : Str → Str
check_a_to_f [] = codes "empty string"
check_a_to_f (c ∷ s) =
    if is_sign c
    then (if not (starts_number s)
        then codes "non-digit after unary minus/plus"
        else check_number s)
    else check_number (c ∷ s)

-- strchr (s, ',') and the two strings on its sides
unfoldable pub split_comma : Str → Option (Str × Str)
split_comma [] = none
split_comma (c ∷ s) =
    if c == b','
    then some ([], s)
    else elim (split_comma s) [ none ↦ none | some (a, b) ↦ some (c ∷ a, b) ]

module _ (D : Double) where
  open D use {Carrier, zero, atof, above, below}

  -- atoF: `*errorMsg` and the value
  unfoldable pub a_to_f : Str → Str × Carrier
  a_to_f s = let err = check_a_to_f s in if err == [] then (err, atof s) else (err, zero)

  pub record Coords : Type 0 where
    pub latitude : Carrier
    pub longitude : Carrier

  unfoldable pub in_range : Coords → Bool
  in_range c =
      if above c.latitude 90 || below c.latitude 90
      then false
      else if above c.longitude 180 || below c.longitude 180
      then false
      else true

  -- The result, and what the two reference arguments hold after the call.
  unfoldable pub string2coords : Str → Coords → Bool × Coords
  string2coords s old = elim (split_comma (ws_strip (c_str s))) [
    | none ↦ (false, old)
    | some (left, right) ↦
        let (err1, latitude) = a_to_f (ws_strip left) in
        let (err2, longitude) = a_to_f (ws_strip right) in
        if not (err1 == []) then (false, old) else if not (err2 == []) then (false, old) else (
          in_range (record { latitude = latitude; longitude = longitude }),
          record { latitude = latitude; longitude = longitude },
        )
  ]
