-- ===== src/Strings/Strip.antt =====
-- src/lib/common/wsStrip.cpp, and onlyWs of src/lib/common/string.cpp, on C strings.
pub mod Laws
use fiware_orion.Base.{
  ℕ, Str, ◌==◌, nat_eq, ◌&&◌, ◌||◌, not, Bool, true, false, [], ◌∷◌, if◌then◌else◌,
}

unfoldable pub is_ws : ℕ → Bool
is_ws c = c == b' ' || (c == 0x09 || c == 0x0a)

-- the first loop
unfoldable pub skip_ws : Str → Str
unfolding is_ws
skip_ws [] = []
skip_ws (c ∷ s) = if is_ws c then skip_ws s else c ∷ s

unfoldable pub is_empty : Str → Bool
is_empty [] = true
is_empty (c ∷ s) = false

-- the second loop, from the end
unfoldable pub strip_end : Str → Str
unfolding is_ws is_empty
strip_end [] = []
strip_end (c ∷ s) = let rest = strip_end s in if is_ws c && is_empty rest then [] else c ∷ rest

-- The byte at `s` itself is never overwritten.
unfoldable pub ws_strip : Str → Str
unfolding skip_ws strip_end
ws_strip s = elim (skip_ws s) [ [] ↦ [] | c ∷ r ↦ c ∷ strip_end r ]

unfoldable pub only_ws : Str → Bool
unfolding is_ws
only_ws [] = true
only_ws (c ∷ s) = if not (is_ws c) then false else only_ws s
