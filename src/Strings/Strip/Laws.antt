-- ===== src/Strings/Strip/Laws.antt =====
-- What wsStrip of src/lib/common/wsStrip.cpp takes off a text.
use fiware_orion.Base.{
  ℕ, Str, ◌≡◌, refl, ap, ◌∙◌, inl, inr, true, false, [], ◌∷◌, ◌++◌, All, arith, Bool-cases,
  if◌then◌else◌, ◌&&◌,
}
use fiware_orion.Strings.Strip.{is_ws, skip_ws, is_empty, strip_end, ws_strip}

abbrev pub AllWs : Str → Type 0
AllWs s = All (λ c. is_ws c ≡ true) s

-- Neither the first nor the last byte is white space.
abbrev pub StartsInk : Str → Type 0
StartsInk [] = Unit
StartsInk (c ∷ s) = is_ws c ≡ false

abbrev pub EndsInk : Str → Type 0
EndsInk [] = Unit
EndsInk (c ∷ []) = is_ws c ≡ false
EndsInk (c ∷ (d ∷ s)) = EndsInk (d ∷ s)

skip_ws_lem : (s : Str) → (pre : Str) × (s ≡ pre ++ skip_ws s) × AllWs pre × StartsInk (skip_ws s)
unfolding skip_ws
skip_ws_lem [] = ([], refl, tt, tt)
skip_ws_lem (c ∷ s) = elim (Bool-cases (is_ws c)) [
  | inl y ↦ rw y (let (pre, e, h, k) = skip_ws_lem s in (c ∷ pre, ap (◌∷◌ c) e, (y, h), k))
  | inr n ↦ rw n ([], refl, tt, n)
]

abbrev IsCut : Str → Str → Type 0
IsCut s u = (post : Str) × (s ≡ u ++ post) × AllWs post × EndsInk u

IsCut-cons :
    (c : ℕ) (s rest : Str)
    → IsCut s rest
    → IsCut (c ∷ s) (if is_ws c && is_empty rest then [] else c ∷ rest)
unfolding is_empty
IsCut-cons c s [] (post, e, h, k) = elim (Bool-cases (is_ws c)) [
  | inl y ↦ rw y (c ∷ post, ap (◌∷◌ c) e, (y, h), tt)
  | inr n ↦ rw n (post, ap (◌∷◌ c) e, h, n)
]
IsCut-cons c s (d ∷ r) (post, e, h, k) = elim (Bool-cases (is_ws c)) [
  | inl y ↦ rw y (post, ap (◌∷◌ c) e, h, k)
  | inr n ↦ rw n (post, ap (◌∷◌ c) e, h, k)
]

strip_end_lem : (s : Str) → IsCut s (strip_end s)
unfolding strip_end
strip_end_lem [] = ([], refl, tt, tt)
strip_end_lem (c ∷ s) = IsCut-cons c s (strip_end s) (strip_end_lem s)

EndsInk-cons : (c : ℕ) (s : Str) → is_ws c ≡ false → EndsInk s → EndsInk (c ∷ s)
EndsInk-cons c [] n k = n
EndsInk-cons c (d ∷ s) n k = k

-- The second step of wsStrip, on what the first one leaves.
abbrev second : Str → Str
second [] = []
second (c ∷ r) = c ∷ strip_end r

second_lem :
    (t : Str)
    → StartsInk t
    → (post : Str) × (t ≡ second t ++ post) × AllWs post × StartsInk (second t) × EndsInk (second t)
second_lem [] n = ([], refl, tt, tt, tt)
second_lem (c ∷ r) n =
    let (post, e, h, k) = strip_end_lem r in
    (post, ap (◌∷◌ c) e, h, n, EndsInk-cons c (strip_end r) n k)

ws_strip-second : (s : Str) → ws_strip s ≡ second (skip_ws s)
unfolding ws_strip
ws_strip-second s = ground arith

-- wsStrip takes white space off both ends, and nothing else: the text is what it returns between two
-- texts of white space, and what it returns neither starts nor ends with white space.
pub ws_strip_lem :
    (s : Str)
    → (pre : Str) × (post : Str) × (s ≡ pre ++ (ws_strip s ++ post))
      × AllWs pre
      × AllWs post
      × StartsInk (ws_strip s)
      × EndsInk (ws_strip s)
ws_strip_lem s =
    let (pre, e, h, k) = skip_ws_lem s in
    let (post, f, g, starts, ends) = second_lem (skip_ws s) k in
    rw (ws_strip-second s) (pre, post, e ∙ ap (λ x. pre ++ x) f, h, g, starts, ends)
