-- ===== src/Strings/Bytes.antt =====
-- C strings and the functions of the C library that the program calls on them.
use fiware_orion.Base.{
  ℕ, Str, ◌≢◌, ◌≡◌, refl, ◌==◌, nat_eq, ◌&&◌, ◌||◌, Bool, true, false, Option, none, some, [], ◌∷◌,
  All, leb, to_lower, if◌then◌else◌, arith,
}

-- std::string::c_str read as a C string: up to the first zero byte.
unfoldable pub c_str : Str → Str
c_str [] = []
c_str (c ∷ s) = if c == 0 then [] else c ∷ c_str s

-- isdigit of the C locale
unfoldable pub is_digit : ℕ → Bool
is_digit c = leb b'0' c && leb c b'9'

-- isxdigit of the C locale
unfoldable pub is_xdigit : ℕ → Bool
unfolding is_digit
is_xdigit c = is_digit c || ((leb b'a' c && leb c b'f') || (leb b'A' c && leb c b'F'))

-- strcasecmp (a, b) == 0
unfoldable pub strcasecmp_eq : Str → Str → Bool
unfolding to_lower
strcasecmp_eq [] [] = true
strcasecmp_eq (a ∷ s) (b ∷ t) = to_lower a == to_lower b && strcasecmp_eq s t
strcasecmp_eq _ _ = false

-- isalnum of the C locale
unfoldable pub is_alnum : ℕ → Bool
unfolding is_digit
is_alnum c = is_digit c || ((leb b'a' c && leb c b'z') || (leb b'A' c && leb c b'Z'))

-- strchr (s, d): what stands before the first `d`, and behind it.
unfoldable pub split_at : ℕ → Str → Option (Str × Str)
split_at d [] = none
split_at d (c ∷ s) =
    if c == d
    then some ([], s)
    else elim (split_at d s) [ none ↦ none | some (a, b) ↦ some (c ∷ a, b) ]

-- strncmp (s, p, strlen (p)) == 0: what stands behind `p`.
unfoldable pub after_prefix : Str → Str → Option Str
after_prefix [] s = some s
after_prefix (a ∷ p) [] = none
after_prefix (a ∷ p) (c ∷ s) = if a == c then after_prefix p s else none

-- strncasecmp (s, p, strlen (p)) == 0
unfoldable pub has_prefix_nocase : Str → Str → Bool
unfolding to_lower
has_prefix_nocase [] s = true
has_prefix_nocase (a ∷ p) [] = false
has_prefix_nocase (a ∷ p) (c ∷ s) = to_lower a == to_lower c && has_prefix_nocase p s

-- strcasestr (s, p) != NULL
unfoldable pub contains_nocase : Str → Str → Bool
unfolding has_prefix_nocase
contains_nocase p [] = has_prefix_nocase p []
contains_nocase p (c ∷ s) = has_prefix_nocase p (c ∷ s) || contains_nocase p s

-- None of the bytes is `d`.
abbrev pub Lacks : ℕ → Str → Type 0
Lacks d s = All (λ c. c ≢ d) s

pub c_str-eq_self : (s : Str) → Lacks 0 s → c_str s ≡ s
unfolding c_str
c_str-eq_self [] h = refl
c_str-eq_self (c ∷ s) h = ground (arith, h.0, c_str-eq_self s h.1)

pub Lacks-c_str : (s : Str) → Lacks 0 (c_str s)
unfolding c_str
Lacks-c_str [] = tt
Lacks-c_str (c ∷ s) = ground (arith, Lacks-c_str s)
