-- ===== src/Base/Lists.antt =====
-- Lists measured by native numbers, predicates over all members, Boolean searches.
use Prim.Native.Nat.{ℕ, zero, suc, ◌+◌}
use mathlib.Core.Path.{◌≡◌, refl, ap}
use mathlib.Core.Bool.{Bool, true, false, ◌&&◌, ◌||◌}
use mathlib.Core.List.{List, [], ◌∷◌, ◌++◌, map}
use mathlib.Core.Option.{Option, none, some}
use native.Mathlib.Omega.{arith}
use fiware_orion.Base.Tests.{if◌then◌else◌}

module _ {ℓ} {A : Type ℓ} where
  abbrev pub length : List A → ℕ
  length [] = 0
  length (x ∷ xs) = suc (length xs)

  abbrev pub get_elem? : List A → ℕ → Option A
  get_elem? [] i = none
  get_elem? (x ∷ xs) zero = some x
  get_elem? (x ∷ xs) (suc i) = get_elem? xs i

  abbrev pub drop : ℕ → List A → List A
  drop zero xs = xs
  drop (suc n) [] = []
  drop (suc n) (x ∷ xs) = drop n xs

  abbrev pub replicate : ℕ → A → List A
  replicate zero a = []
  replicate (suc n) a = a ∷ replicate n a

  pub length-append : (xs ys : List A) → length (xs ++ ys) ≡ length xs + length ys
  length-append [] ys = omega arith
  length-append (x ∷ xs) ys = omega (arith, length-append xs ys)

  -- Boolean searches and filters that run in a test.
  unfoldable pub any : (A → Bool) → List A → Bool
  any p [] = false
  any p (x ∷ xs) = p x || any p xs

  unfoldable pub all : (A → Bool) → List A → Bool
  all p [] = true
  all p (x ∷ xs) = p x && all p xs

  unfoldable pub keep : (A → Bool) → List A → List A
  keep p [] = []
  keep p (x ∷ xs) = let rest = keep p xs in if p x then x ∷ rest else rest

pub length-map {ℓ κ} :
    {A : Type ℓ} {B : Type κ} (xs : List A) (f : A → B) → length (map f xs) ≡ length xs
length-map [] f = refl
length-map (x ∷ xs) f = ap suc (length-map xs f)

-- A predicate by recursion computes to tuples.
module _ {ℓ κ} {A : Type ℓ} where
  abbrev pub All : (A → Type κ) → List A → Type κ
  All Q [] = Unit
  All Q (a ∷ l) = Q a × All Q l

  pub All-map : (P Q : A → Type κ) (f : (a : A) → P a → Q a) (l : List A) → All P l → All Q l
  All-map P Q f [] h = tt
  All-map P Q f (a ∷ l) h = (f a h.0, All-map P Q f l h.1)

  pub All-append : (Q : A → Type κ) (l r : List A) → All Q l → All Q r → All Q (l ++ r)
  All-append Q [] r h k = k
  All-append Q (a ∷ l) r h k = (h.0, All-append Q l r h.1 k)

-- The pairs of a list with a list, read the other way round.
pub All-nil {ℓ κ μ} :
    {A : Type ℓ} {B : Type κ} (P : A → B → Type μ) (xs : List A) → All (λ x. All (P x) []) xs
All-nil P [] = tt
All-nil P (x ∷ xs) = (tt, All-nil P xs)

pub All-cons {ℓ κ μ} :
    {A : Type ℓ} {B : Type κ} (P : A → B → Type μ) (y : B) (ys : List B) (xs : List A)
    → All (λ x. P x y) xs
    → All (λ x. All (P x) ys) xs
    → All (λ x. All (P x) (y ∷ ys)) xs
All-cons P y ys [] h k = tt
All-cons P y ys (x ∷ xs) h k = ((h.0, k.0), All-cons P y ys xs h.1 k.1)

pub All-swap {ℓ κ μ} :
    {A : Type ℓ} {B : Type κ} (P : A → B → Type μ) (xs : List A) (ys : List B)
    → All (λ x. All (P x) ys) xs
    → All (λ y. All (λ x. P x y) xs) ys
All-swap P [] ys h = All-nil (λ y x. P x y) ys
All-swap P (x ∷ xs) ys h = All-cons (λ y x. P x y) x xs ys h.0 (All-swap P xs ys h.1)

pub All-zip {ℓ κ} :
    {A : Type ℓ} (P Q R : A → Type κ) (f : (x : A) → P x → Q x → R x) (xs : List A)
    → All P xs
    → All Q xs
    → All R xs
All-zip P Q R f [] h k = tt
All-zip P Q R f (x ∷ xs) h k = (f x h.0 k.0, All-zip P Q R f xs h.1 k.1)
