-- ===== src/Update/Context.antt =====
-- mongoUpdateContext of src/lib/mongoBackend/mongoUpdateContext.cpp: the elements of an updateContext
-- request, one after the other.
use fiware_orion.Base.{
  ℕ, suc, ◌≤◌, ◌<◌, ◌≡◌, refl, ◌⊎◌, inl, inr, Bool-cases, false, Option, none, some, List, [], ◌∷◌,
  ◌++◌, All, arith, if◌then◌else◌, codes, length, length-append, ltb,
}
use fiware_orion.Strings.Coords.{Double}
use fiware_orion.Registry.{Regex, is_nil}
use fiware_orion.Update.{StatusCode}
use fiware_orion.Update.Subscriptions.{Origin}
use fiware_orion.Update.Backend.{Backend, Call}
use fiware_orion.Update.Keeps.{Keeps}
use fiware_orion.Update.Element.{ContextElement, ElementResponse}
use fiware_orion.Update.Element.Process.{process_context_element}
use fiware_orion.Update.Element.Laws.{CreatesConsistent, process_context_element-keeps}
use fiware_orion.Update.Element.Answers.{process_context_element-answers}

-- SccBadRequest of src/lib/rest/HttpStatusCode.h
abbrev scc_bad_request : ℕ
scc_bad_request = 400

-- class UpdateContextResponse: `error_code` where the function fills it in
pub record UpdateResponse {D : Double} (B : Backend D) : Type 0 where
  pub error_code : Option StatusCode
  pub responses : List ElementResponse
  pub world : B.World

module _ {D : Double} (R : Regex) (B : Backend D) (o : Origin) (call : Call) where
  unfoldable pub process_elements : List ContextElement → B.World → List ElementResponse × B.World
  process_elements [] w = ([], w)
  process_elements (ce ∷ ces) w =
      let (here, w1) = process_context_element D R B o call ce w in
      let (rest, w2) = process_elements ces w1 in (here ++ rest, w2)

  unfoldable pub mongo_update_context : List ContextElement → B.World → UpdateResponse B
  mongo_update_context ces w =
      if ltb 1 (length o.service_paths)
      then record {
        error_code = some (record {
          code = scc_bad_request;
          details = codes "service path length greater than one in update";
        });
        responses = [];
        world = w;
      }
      else (let (responses, w1) = process_elements ces w in
          record { error_code = none; responses = responses; world = w1 })

  nonempty : (l r : List ElementResponse) → is_nil l ≡ false → suc (length r) ≤ length (l ++ r)
  unfolding is_nil
  nonempty [] r h = ground arith
  nonempty (x ∷ l) r h = omega (arith, length-append l r)

  elements-answers :
      (ces : List ContextElement) (w : B.World) → length ces ≤ length (process_elements ces w).0
  unfolding process_elements
  elements-answers [] w = omega arith
  elements-answers (ce ∷ ces) w =
      let here = process_context_element D R B o call ce w in
      omega (
        arith,
        nonempty here.0 (process_elements ces here.1).0
            (process_context_element-answers R B o call ce w),
        elements-answers ces here.1,
      )

  elements-keeps :
      (P : B.World → Type 0) (K : Keeps B P) (ces : List ContextElement)
      → All (CreatesConsistent R B P K o call) ces
      → (w : B.World) → P w
      → P (process_elements ces w).1
  unfolding process_elements
  elements-keeps P K [] c w p = p
  elements-keeps P K (ce ∷ ces) c w p =
      elements-keeps P K ces c.1 _ (process_context_element-keeps R B P K o call ce c.0 w p)

  -- A request with more than one service path is refused with code 400, without responses, and leaves the
  -- world as it was; one with one service path or none has no error code and gets at least as many responses as it has context elements.
  pub mongo_update_context-answers :
      (ces : List ContextElement) (w : B.World)
      → ((length o.service_paths ≤ 1)
          × ((mongo_update_context ces w).error_code ≡ none)
          × (length ces ≤ length (mongo_update_context ces w).responses))
        ⊎ ((1 < length o.service_paths)
            × (s : StatusCode) × ((mongo_update_context ces w).error_code ≡ some s)
            × (s.code ≡ scc_bad_request)
            × ((mongo_update_context ces w).responses ≡ [])
            × ((mongo_update_context ces w).world ≡ w))
  unfolding mongo_update_context
  mongo_update_context-answers ces w = elim (Bool-cases (ltb 1 (length o.service_paths))) [
    | inl y ↦
        (let many : 1 < length o.service_paths = ground arith in
          rw y (inr (many, _, refl, refl, refl, refl)))
    | inr n ↦
        (let few : length o.service_paths ≤ 1 = ground arith in
          rw n (inl (few, refl, elements-answers ces w)))
  ]

  -- A whole request keeps a property of the database in the sense of the interface Keeps, if each of
  -- its elements creates nothing or repeats no attribute.
  pub mongo_update_context-keeps :
      (P : B.World → Type 0) (K : Keeps B P) (ces : List ContextElement)
      → All (CreatesConsistent R B P K o call) ces
      → (w : B.World) → P w
      → P (mongo_update_context ces w).world
  unfolding mongo_update_context
  mongo_update_context-keeps P K ces c w p = ground (arith, elements-keeps P K ces c w p)
