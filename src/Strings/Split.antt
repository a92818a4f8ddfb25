-- ===== src/Strings/Split.antt =====
-- stringSplit of src/lib/common/string.cpp.
pub mod Laws
use fiware_orion.Base.{ℕ, zero, suc, Str, ◌+◌, ◌==◌, nat_eq, List, [], ◌∷◌, ◌++◌, if◌then◌else◌}
use fiware_orion.Strings.Bytes.{c_str}

-- 1. Skip leading delimiters
unfoldable pub skip : ℕ → Str → Str
skip d [] = []
skip d (c ∷ s) = if c == d then skip d s else c ∷ s

-- 3. Every delimiter becomes a zero byte, and is counted.
unfoldable pub blank : ℕ → Str → Str
blank d [] = []
blank d (c ∷ s) = (if c == d then 0 else c) ∷ blank d s

unfoldable pub count : ℕ → Str → ℕ
count d [] = 0
count d (c ∷ s) = (if c == d then 1 else 0) + count d s

-- &start[strlen (start) + 1]
unfoldable pub after_zero : Str → Str
after_zero [] = []
after_zero (c ∷ s) = if c == 0 then s else after_zero s

-- 4. Pick up all components
unfoldable pub pick_up : ℕ → Str → List Str
unfolding c_str after_zero
pick_up zero start = []
pick_up (suc n) start = c_str start ∷ pick_up n (after_zero start)

-- Steps 2 to 4 on what the first step leaves
unfoldable pub components_of : ℕ → Str → List Str → ℕ × List Str
unfolding count pick_up blank after_zero
components_of d [] out = (0, out)
components_of d (c ∷ s) out =
    let n = suc (count d (c ∷ s)) in (n, out ++ pick_up n (blank d (c ∷ s)))

-- The number of components, and `outV` after the call.
unfoldable pub string_split : Str → ℕ → List Str → ℕ × List Str
unfolding components_of skip c_str
string_split s d out = components_of d (skip d (c_str s)) out
