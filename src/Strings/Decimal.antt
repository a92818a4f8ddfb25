-- ===== src/Strings/Decimal.antt =====
-- printf of "%d" and "%lld" of the C library.
use fiware_orion.Base.{
  ℕ, zero, suc, ◌+◌, ◌/◌, ◌%◌, Str, ◌++◌, str_eq, [], ◌∷◌, codes, ltb, if◌then◌else◌,
}
use fiware_orion.Base.Int.{ℤ, pos, negsuc}

unfoldable digits : ℕ → ℕ → Str
digits zero n = []
digits (suc rounds) n =
    let rest = digits rounds (n / 10) ++ (b'0' + n % 10) ∷ [] in
    if ltb n 10 then (b'0' + n) ∷ [] else rest

-- printf of "%d". A number has fewer digits than it has units.
unfoldable pub decimal_int : ℤ → Str
unfolding digits
decimal_int (pos n) = digits (n + 1) n
decimal_int (negsuc n) = codes "-" ++ digits (n + 2) (n + 1)
