-- ===== src/Update/Element/Refused.antt =====
-- Why processContextElement of src/lib/mongoBackend/MongoCommonUpdate.cpp refuses a context element, and with what.
use fiware_orion.Base.{
  Str, ◌≡◌, refl, sym, ap, ◌⊎◌, ◌↔◌, All, codes, inl, inr, str_eq, true, false, none, some, List,
  [], ◌∷◌, arith, Bool-cases,
}
use fiware_orion.Strings.Coords.{Double}
use fiware_orion.Entity.{ContextAttribute}
use fiware_orion.Registry.{Regex, is_true, is_nil}
use fiware_orion.Update.{scc_invalid_parameter, scc_not_implemented, scc_receiver_internal_error}
use fiware_orion.Update.Subscriptions.{Origin, failed}
use fiware_orion.Update.Backend.{Backend, Call}
use fiware_orion.Update.Element.{
  ContextElement, ElementResponse, entity_query, general_error, is_empty_attribute, find_empty,
}
use fiware_orion.Update.Element.Process.{
  after_query, after_check, empty_refused, process_context_element,
}
use fiware_orion.Strings.Bytes.{strcasecmp_eq}

module _ {D : Double} (R : Regex) (B : Backend D) (o : Origin) (call : Call)
    (ce : ContextElement) where
  -- An UPDATE or an APPEND, in whatever case of letters.
  abbrev NeedsValues : Type 0
  NeedsValues =
      (strcasecmp_eq call.action (codes "update") ≡ true)
      ⊎ (strcasecmp_eq call.action (codes "append") ≡ true)

  -- Neither a text that is not empty nor a compound value.
  abbrev IsEmpty : ContextAttribute → Type 0
  IsEmpty ca = (ca.compound ≡ none) × (ca.value ≡ [])

  -- The attribute is empty, and those before it are not.
  abbrev IsFirstEmpty : ContextAttribute → List ContextAttribute → Type 0
  IsFirstEmpty ca [] = ⊥
  IsFirstEmpty ca (a ∷ l) = (IsEmpty a × (ca ≡ a)) ⊎ ((IsEmpty a → ⊥) × IsFirstEmpty ca l)

  -- Why an element is refused: a pattern; else an empty attribute where values are needed, the
  -- first one; else a query that failed, with its text.
  pub data Cause (w : B.World) : Type 0 where
    a_pattern : is_true ce.entity.is_pattern ≡ true → Cause w
    an_empty :
        (ca : ContextAttribute)
        → is_true ce.entity.is_pattern ≡ false
        → NeedsValues
        → IsFirstEmpty ca ce.attributes
        → Cause w
    a_failure :
        (err : Str)
        → is_true ce.entity.is_pattern ≡ false
        → (NeedsValues → All (λ a. IsEmpty a → ⊥) ce.attributes)
        → B.entities w o.tenant (entity_query o call ce.entity) ≡ failed err
        → Cause w

  -- What a cause is answered with: code 501, code 472 with the attribute, or code 500 with the text.
  abbrev pub AnswersFor : {w : B.World} → Cause w → ElementResponse → Type 0
  AnswersFor (a_pattern p) r = (r.status.code ≡ scc_not_implemented) × (r.attributes ≡ [])
  AnswersFor (an_empty ca p n f) r =
      (r.status.code ≡ scc_invalid_parameter) × (r.attributes ≡ ca ∷ [])
  AnswersFor (a_failure err p n q) r =
      (r.status.code ≡ scc_receiver_internal_error) × (r.attributes ≡ []) × (r.status.details ≡ err)

  is_empty_attribute_iff : (a : ContextAttribute) → (is_empty_attribute a ≡ true) ↔ IsEmpty a
  unfolding is_empty_attribute is_nil
  is_empty_attribute_iff a = ground arith

  find_empty-first :
      (ca : ContextAttribute) (l : List ContextAttribute)
      → IsFirstEmpty ca l
      → find_empty l ≡ some ca
  unfolding find_empty
  find_empty-first ca [] h = absurd h
  find_empty-first ca (a ∷ l) (inl (e, same)) =
      rw ((is_empty_attribute_iff a).1 e) (ap some (sym same))
  find_empty-first ca (a ∷ l) (inr (ne, h)) =
      let m : is_empty_attribute a ≡ false = ground (arith, is_empty_attribute_iff a, ne) in
      rw m (find_empty-first ca l h)

  find_empty-none : (l : List ContextAttribute) → All (λ a. IsEmpty a → ⊥) l → find_empty l ≡ none
  unfolding find_empty
  find_empty-none [] h = refl
  find_empty-none (a ∷ l) h =
      let m : is_empty_attribute a ≡ false = ground (arith, is_empty_attribute_iff a, h.0) in
      rw m (find_empty-none l h.1)

  empty_refused-some :
      (ca : ContextAttribute)
      → NeedsValues
      → IsFirstEmpty ca ce.attributes
      → empty_refused D R B o call ce ≡ some ca
  unfolding empty_refused
  empty_refused-some ca n f = ground (arith, n, find_empty-first ca ce.attributes f)

  empty_refused-none :
      (NeedsValues → All (λ a. IsEmpty a → ⊥) ce.attributes) → empty_refused D R B o call ce ≡ none
  unfolding empty_refused
  empty_refused-none h = elim (Bool-cases (strcasecmp_eq call.action (codes "update"))) [
    | inl y ↦ ground (arith, y, find_empty-none ce.attributes (h (inl y)))
    | inr n ↦ elim (Bool-cases (strcasecmp_eq call.action (codes "append"))) [
      | inl y ↦ ground (arith, y, find_empty-none ce.attributes (h (inr y)))
      | inr m ↦ ground (arith, n, m)
    ]
  ]

  -- An element is refused for a pattern; or else for an empty attribute, in an UPDATE or an APPEND; or else for a
  -- failed query. It then has exactly one response, for its own entity, and the world is as before. The response has the code
  -- 501 for a pattern; 472 for an empty attribute, with the first such attribute; and 500 for a failed query, with the
  -- text of the failure.
  pub process_context_element-refused :
      (w : B.World) (why : Cause w)
      → (r : ElementResponse) × (process_context_element D R B o call ce w ≡ (r ∷ [], w))
        × (r.entity ≡ ce.entity)
        × AnswersFor why r
  unfolding process_context_element after_check after_query general_error
  process_context_element-refused w (a_pattern p) = rw p (_, refl, refl, (refl, refl))
  process_context_element-refused w (an_empty ca p n f) =
      let e = empty_refused-some ca n f in rw (p, e) (_, refl, refl, (refl, refl))
  process_context_element-refused w (a_failure err p n q) =
      let e = empty_refused-none n in rw (p, e, q) (_, refl, refl, (refl, refl, refl))
