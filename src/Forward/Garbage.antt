-- ===== src/Forward/Garbage.antt =====
-- The responses that postUpdateContext of src/lib/serviceRoutines/postUpdateContext.cpp takes out.
use fiware_orion.Base.{
  ℕ, ◌≡◌, refl, ap, ◌∙◌, ◌==◌, nat_eq, not, Option, none, some, List, [], ◌∷◌, ◌≢◌, length,
  if◌then◌else◌, arith, map, All,
}
use fiware_orion.Update.{scc_found, scc_context_element_not_found, scc_invalid_parameter}
use fiware_orion.Update.Element.{ElementResponse}

abbrev code : ElementResponse → ℕ
code r = r.status.code

-- The loop from the index at which the list starts. It ends before the last response, and after a
-- 404 that is taken out it steps over one response more.
unfoldable pub garbage_loop : List ElementResponse → List ElementResponse
garbage_loop [] = []
garbage_loop (a ∷ []) = a ∷ []
garbage_loop (a ∷ (b ∷ [])) =
    if not (code a == scc_invalid_parameter)
    then a ∷ (b ∷ [])
    else if code b == scc_found
    then b ∷ []
    else if code b == scc_context_element_not_found
    then a ∷ []
    else a ∷ (b ∷ [])
garbage_loop (a ∷ (b ∷ (c ∷ rest))) =
    let next = a ∷ garbage_loop (b ∷ (c ∷ rest)) in
    let after_found = b ∷ garbage_loop (c ∷ rest) in
    let after_lost = a ∷ (c ∷ garbage_loop rest) in
    if not (code a == scc_invalid_parameter)
    then next
    else if code b == scc_found
    then after_found
    else if code b == scc_context_element_not_found
    then after_lost
    else next

-- The whole of it, for a number of context elements in the request. Of no responses the loop takes one
-- less than none as its bound, and reads the first.
unfoldable pub remove_garbage : ℕ → List ElementResponse → Option (List ElementResponse)
unfolding garbage_loop
remove_garbage elements responses =
    if length responses == elements
    then some responses
    else elim responses [ [] ↦ none | r ∷ rs ↦ some (garbage_loop (r ∷ rs)) ]

-- What one context element is answered with: one response, or a 472 and what the registrations gave.
pub data Group : Type 0 where
  alone : ElementResponse → Group
  found : ElementResponse → ElementResponse → Group
  lost : ElementResponse → ElementResponse → Group

abbrev pub flat : List Group → List ElementResponse
flat [] = []
flat (alone r ∷ gs) = r ∷ flat gs
flat (found a b ∷ gs) = a ∷ (b ∷ flat gs)
flat (lost a b ∷ gs) = a ∷ (b ∷ flat gs)

abbrev pub survivor : Group → ElementResponse
survivor (alone r) = r
survivor (found a b) = b
survivor (lost a b) = a

abbrev pub IsGroup : Group → Type 0
IsGroup (alone r) = r.status.code ≢ scc_invalid_parameter
IsGroup (found a b) = (a.status.code ≡ scc_invalid_parameter) × (b.status.code ≡ scc_found)
IsGroup (lost a b) =
    (a.status.code ≡ scc_invalid_parameter) × (b.status.code ≡ scc_context_element_not_found)

abbrev pub IsSpaced : List Group → Type 0
IsSpaced [] = Unit
IsSpaced (alone r ∷ gs) = IsSpaced gs
IsSpaced (found a b ∷ gs) = IsSpaced gs
IsSpaced (lost a b ∷ []) = Unit
IsSpaced (lost a b ∷ (alone r ∷ gs)) = IsSpaced gs
IsSpaced (lost a b ∷ (found c d ∷ gs)) = ⊥
IsSpaced (lost a b ∷ (lost c d ∷ gs)) = ⊥

step_other :
    (a : ElementResponse) (rs : List ElementResponse)
    → code a ≢ scc_invalid_parameter
    → garbage_loop (a ∷ rs) ≡ a ∷ garbage_loop rs
unfolding garbage_loop
step_other a [] h = refl
step_other a (b ∷ []) h = ground arith
step_other a (b ∷ (c ∷ rest)) h = ground arith

step_found :
    (a b : ElementResponse) (rs : List ElementResponse)
    → code a ≡ scc_invalid_parameter
    → code b ≡ scc_found
    → garbage_loop (a ∷ (b ∷ rs)) ≡ b ∷ garbage_loop rs
unfolding garbage_loop
step_found a b [] h k = rw h (rw k refl)
step_found a b (c ∷ rest) h k = rw h (rw k refl)

step_lost :
    (a b c : ElementResponse) (rest : List ElementResponse)
    → code a ≡ scc_invalid_parameter
    → code b ≡ scc_context_element_not_found
    → garbage_loop (a ∷ (b ∷ (c ∷ rest))) ≡ a ∷ (c ∷ garbage_loop rest)
unfolding garbage_loop
step_lost a b c rest h k = rw h (rw k refl)

last_lost :
    (a b : ElementResponse)
    → code a ≡ scc_invalid_parameter
    → code b ≡ scc_context_element_not_found
    → garbage_loop (a ∷ (b ∷ [])) ≡ a ∷ []
unfolding garbage_loop
last_lost a b h k = rw h (rw k refl)

-- Where each context element has one response that is no 472, or a 472 followed by a 302 or by a 404,
-- and no element with a pair comes directly behind a pair of 472 and 404, what is left is one response for each
-- element, in their order: of a pair with a 302 the 302, of a pair with a 404 the 472.
pub garbage_loop-flat :
    (gs : List Group) → All IsGroup gs → IsSpaced gs → garbage_loop (flat gs) ≡ map survivor gs
unfolding garbage_loop
garbage_loop-flat [] hs s = refl
garbage_loop-flat (alone r ∷ gs) hs s =
    step_other r (flat gs) hs.0 ∙ ap (◌∷◌ r) (garbage_loop-flat gs hs.1 s)
garbage_loop-flat (found a b ∷ gs) hs s =
    step_found a b (flat gs) hs.0.0 hs.0.1 ∙ ap (◌∷◌ b) (garbage_loop-flat gs hs.1 s)
garbage_loop-flat (lost a b ∷ []) hs s = last_lost a b hs.0.0 hs.0.1
garbage_loop-flat (lost a b ∷ (alone r ∷ gs)) hs s =
    step_lost a b r (flat gs) hs.0.0 hs.0.1
    ∙ ap (λ rs. a ∷ (r ∷ rs)) (garbage_loop-flat gs hs.1.1 s)
garbage_loop-flat (lost a b ∷ (found c d ∷ gs)) hs s = absurd s
garbage_loop-flat (lost a b ∷ (lost c d ∷ gs)) hs s = absurd s
