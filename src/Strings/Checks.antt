-- ===== src/Strings/Checks.antt =====
-- The checks of texts that come from outside: servicePathCheck of src/lib/common/string.cpp, idCheck
-- of src/lib/common/idCheck.cpp and forbiddenChars of src/lib/parse/forbiddenChars.cpp.
use fiware_orion.Base.{
  ℕ, Str, ◌≡◌, refl, sym, subst, ◌↔◌, ◌⊎◌, ◌≢◌, ◌≤◌, ◌==◌, str_eq, nat_eq, ◌&&◌, ◌||◌, not, Bool,
  true, false, Option, none, some, [], ◌∷◌, codes, any, all, leb, length, if◌then◌else◌, arith, All,
}
use fiware_orion.Strings.Bytes.{c_str, is_digit, is_xdigit}

unfoldable pub is_service_path_byte : ℕ → Bool
is_service_path_byte c =
    (leb b'A' c && leb c b'Z')
    || ((leb b'a' c && leb c b'z') || (is_digit c || (c == b'_' || c == b'/')))

-- of a C string
unfoldable pub service_path_check : Option Str → Str
service_path_check none = codes "No Service Path"
service_path_check (some []) = codes "Empty Service Path"
service_path_check (some (c ∷ s)) =
    if all is_service_path_byte (c ∷ s) then codes "OK" else codes "Bad Character in Service-Path"

unfoldable pub id_check : Str → Str
id_check s =
    if not (length s == 24)
    then codes "bad length - 24 chars expected"
    else if all is_xdigit (c_str s)
    then codes "OK"
    else codes "invalid char in ID string"

unfoldable pub is_forbidden : ℕ → Bool
is_forbidden c = any (λ d. c == d) (codes "<>\"'=;()")

-- of a C string, which may be NULL
unfoldable pub forbidden_chars : Option Str → Bool
forbidden_chars none = false
forbidden_chars (some s) = any is_forbidden (c_str s)

-- A letter, a digit, an underscore or a slash.
abbrev pub IsPathByte : ℕ → Type 0
IsPathByte c =
    ((b'A' ≤ c) × (c ≤ b'Z'))
    ⊎ ((b'a' ≤ c) × (c ≤ b'z'))
    ⊎ ((b'0' ≤ c) × (c ≤ b'9'))
    ⊎ (c ≡ b'_')
    ⊎ (c ≡ b'/')

abbrev pub IsHexDigit : ℕ → Type 0
IsHexDigit c = ((b'0' ≤ c) × (c ≤ b'9')) ⊎ ((b'a' ≤ c) × (c ≤ b'f')) ⊎ ((b'A' ≤ c) × (c ≤ b'F'))

is_service_path_byte_iff : (c : ℕ) → (is_service_path_byte c ≡ true) ↔ IsPathByte c
unfolding is_service_path_byte is_digit
is_service_path_byte_iff c = ground arith

is_xdigit_iff : (c : ℕ) → (is_xdigit c ≡ true) ↔ IsHexDigit c
unfolding is_xdigit is_digit
is_xdigit_iff c = ground arith

all_iff :
    (p : ℕ → Bool) (P : ℕ → Type 0) (f : (c : ℕ) → (p c ≡ true) ↔ P c) (s : Str)
    → (all p s ≡ true) ↔ All P s
unfolding all
all_iff p P f [] = ground arith
all_iff p P f (c ∷ s) = ground (arith, f c, all_iff p P f s)

-- A service path passes the check exactly if there is one, it is not empty, and all its bytes are
-- letters, digits, underscores or slashes.
pub service_path_check_iff :
    (path : Option Str)
    → (service_path_check path ≡ codes "OK")
      ↔ ((s : Str) × (path ≡ some s) × (s ≢ []) × All IsPathByte s)
unfolding service_path_check
service_path_check_iff none = ((λ h. ground arith), (λ (s, e, ne, k). ground arith))
service_path_check_iff (some []) = ((λ h. ground arith), (λ (s, e, ne, k). ground arith))
service_path_check_iff (some (c ∷ s)) =
    let all_ok = all_iff is_service_path_byte IsPathByte is_service_path_byte_iff (c ∷ s) in
    (
      (λ h. (c ∷ s, refl, (λ e. ground arith), all_ok.0 (ground (arith, h)))),
      (λ (t, e, ne, k).
          let same : c ∷ s ≡ t = ground (arith, e) in
          rw (all_ok.1 (subst (All IsPathByte) (sym same) k)) refl),
    )

-- An identifier passes the check exactly if it has 24 bytes and all up to its first zero byte are
-- hexadecimal digits.
pub id_check_iff :
    (s : Str) → (id_check s ≡ codes "OK") ↔ ((length s ≡ 24) × All IsHexDigit (c_str s))
unfolding id_check
id_check_iff s = ground (arith, all_iff is_xdigit IsHexDigit is_xdigit_iff (c_str s))
