-- ===== src/Base/Text.antt =====
-- Text as the program sees it: a sequence of bytes. `codes` turns a literal into one.
use Prim.Native.Nat.{ℕ, ◌+◌}
use Prim.Native.Char.{code}
use Prim.Native.String.{String}
use mathlib.Core.Path.{◌≡◌, refl}
use mathlib.Core.Logic.{◌↔◌}
use mathlib.Core.Bool.{Bool, true, false, ◌&&◌}
use mathlib.Core.List.{List, [], ◌∷◌}
use native.Mathlib.Omega.{arith}
use fiware_orion.Base.Tests.{leb, nat_beq, nat_beq_iff, if◌then◌else◌}

abbrev pub Str : Type 0
Str = List ℕ

abbrev pub codes : String → Str
codes String.[] = []
codes (String.◌∷◌ c s) = code c ∷ codes s

-- std::string's operator==
unfoldable pub str_beq : Str → Str → Bool
str_beq [] [] = true
str_beq (a ∷ s) (b ∷ t) = nat_beq a b && str_beq s t
str_beq _ _ = false

pub str_beq_iff : (s t : Str) → (str_beq s t ≡ true) ↔ (s ≡ t)
unfolding str_beq
str_beq_iff [] [] = ground arith
str_beq_iff [] (b ∷ t) = ground arith
str_beq_iff (a ∷ s) [] = ground arith
str_beq_iff (a ∷ s) (b ∷ t) = ground (arith, str_beq_iff s t)

pub str_beq_refl : (s : Str) → str_beq s s ≡ true
str_beq_refl s = (str_beq_iff s s).1 refl

pub str_sound : (s t : Str) → str_beq s t ≡ true → s ≡ t
str_sound s t = (str_beq_iff s t).0

pub nat_sound : (m n : ℕ) → nat_beq m n ≡ true → m ≡ n
nat_sound m n = (nat_beq_iff m n).0

pub nat_beq_refl : (n : ℕ) → nat_beq n n ≡ true
nat_beq_refl n = (nat_beq_iff n n).1 refl

-- The types whose values the program compares, for one operator on all of them.
pub record Comparable {ℓ} (T : Type ℓ) : Type ℓ where
  pub same : T → T → Bool
  pub same-refl : (x : T) → same x x ≡ true
  pub same_sound : (x y : T) → same x y ≡ true → x ≡ y

instance abbrev pub str_eq : Comparable Str
str_eq = record { same = str_beq; same-refl = str_beq_refl; same_sound = str_sound }

instance abbrev pub nat_eq : Comparable ℕ
nat_eq = record { same = nat_beq; same-refl = nat_beq_refl; same_sound = nat_sound }

infix 50 ◌==◌
abbrev pub ◌==◌ {κ} : {T : Type κ} ⦃c : Comparable T⦄ → T → T → Bool
◌==◌ ⦃c⦄ x y = c.same x y

-- tolower of the C locale
unfoldable pub to_lower : ℕ → ℕ
to_lower c = if leb b'A' c && leb c b'Z' then c + 32 else c
