-- ===== src/Rest/Mime/Laws.antt =====
-- What wantedOutputSupported makes of an Accept header.
use fiware_orion.Base.{
  ℕ, zero, suc, ◌<◌, Str, ◌≡◌, refl, ◌≢◌, ◌==◌, str_eq, nat_eq, Bool, false, none, some, List, [],
  ◌∷◌, length, map, arith, Bool-cases, Option-cases, inl, inr,
}
use fiware_orion.Strings.Bytes.{split_at}
use fiware_orion.Strings.Strip.{ws_strip}
use fiware_orion.Strings.Split.Laws.{cut, cut-ne-nil}
use fiware_orion.Rest.Mime.{accept_loop, note_media_type}

-- The elements of a list with commas, stripped, without a last one that is empty.
abbrev pub without_empty_last : List Str → List Str
without_empty_last [] = []
without_empty_last ([] ∷ []) = []
without_empty_last ((c ∷ p) ∷ []) = (c ∷ p) ∷ []
without_empty_last (p ∷ (q ∷ ps)) = p ∷ without_empty_last (q ∷ ps)

abbrev pub elements : Str → List Str
elements s = without_empty_last (map ws_strip (cut b',' s))

cut-split_at-none : (s : Str) → split_at b',' s ≡ none → cut b',' s ≡ s ∷ []
unfolding cut split_at
cut-split_at-none [] h = refl
cut-split_at-none (c ∷ s) h = ground (arith, h, cut-split_at-none s)

cut-split_at-some :
    (s a b : Str)
    → split_at b',' s ≡ some (a, b)
    → (cut b',' s ≡ a ∷ cut b',' b) × (length b < length s)
unfolding cut split_at
cut-split_at-some [] a b h = cc
cut-split_at-some (c ∷ s) a b h = elim (Bool-cases (c == b',')) [
  | inl y ↦ ground (arith, h, y)
  | inr n ↦ elim (Option-cases (split_at b',' s)) [
    | inl e ↦ ground (arith, h, n, e)
    | inr ((a', b'), e) ↦ ground (arith, h, n, e, cut-split_at-some s a' b' e)
  ]
]

-- The last element, as the loop treats it.
abbrev last_element : Str → List Str
last_element [] = []
last_element (c ∷ r) = (c ∷ r) ∷ []

last_element_lem : (p : Str) → without_empty_last (p ∷ []) ≡ last_element p
last_element_lem [] = refl
last_element_lem (c ∷ r) = refl

loop_end :
    (n : ℕ) (s : Str)
    → split_at b',' s ≡ none
    → accept_loop (suc n) s ≡ some (last_element (ws_strip s))
unfolding accept_loop
loop_end n s e = rw (accept_loop, e) (ground arith)

keep_first :
    (p : Str) (l : List Str)
    → l ≢ []
    → without_empty_last (p ∷ map ws_strip l) ≡ p ∷ without_empty_last (map ws_strip l)
keep_first p [] ne = absurd (ne refl)
keep_first [] (q ∷ l) ne = refl
keep_first (c ∷ p) (q ∷ l) ne = refl

elements_cons : (s a b : Str) → split_at b',' s ≡ some (a, b) → elements s ≡ ws_strip a ∷ elements b
elements_cons s a b e =
    rw ((cut-split_at-some s a b e).0) (keep_first (ws_strip a) (cut b',' b) (cut-ne-nil b',' b))

-- With more rounds than the header has bytes, the loop ends, with the elements of the list.
pub accept_loop_total : (n : ℕ) (s : Str) → length s < n → accept_loop n s ≡ some (elements s)
unfolding accept_loop cut
accept_loop_total zero s h = absurd (omega (arith, h))
accept_loop_total (suc n) s h = elim (Option-cases (split_at b',' s)) [
  | inl e ↦ rw (loop_end n s e, cut-split_at-none s e, last_element_lem (ws_strip s)) refl
  | inr ((a, []), e) ↦ rw (elements_cons s a [] e, accept_loop, e) refl
  | inr ((a, c ∷ b), e) ↦
      let shorter = (cut-split_at-some s a (c ∷ b) e).1 in
      let rest = accept_loop_total n (c ∷ b) (omega (arith, h, shorter)) in
      rw (elements_cons s a (c ∷ b) e, accept_loop, e, rest) refl
]

-- An element that asks for XML, for JSON.
abbrev pub asks_xml : Bool → Str → Bool
asks_xml text_xml e = (note_media_type text_xml (false, false) e).0

abbrev pub asks_json : Str → Bool
asks_json e = (note_media_type false (false, false) e).1
