-- ===== src/Update/Element/Answers.antt =====
-- The responses of processContextElement of src/lib/mongoBackend/MongoCommonUpdate.cpp.
use fiware_orion.Base.{
  ◌≤◌, ◌≡◌, refl, sym, ap, ap₂, ◌∙◌, ◌⊎◌, inl, inr, str_eq, not, false, Option, none, some, List,
  [], ◌∷◌, ◌++◌, map, arith, if_both, Option-cases, length, length-append, length-map,
}
use fiware_orion.Strings.Coords.{Double}
use fiware_orion.Entity.{ContextAttribute}
use fiware_orion.Registry.{Regex, is_true, is_nil}
use fiware_orion.Update.{EntityId}
use fiware_orion.Update.Subscriptions.{Origin, DbResult, ok, failed}
use fiware_orion.Update.Process.{Run}
use fiware_orion.Update.Backend.{Backend, Call, DocId, EntityDoc}
use fiware_orion.Update.Element.{ContextElement, ElementResponse, Answer}
use fiware_orion.Update.Element.Found.{
  write_entity, remove_doc, update_doc, process_doc, process_docs, doc_entity, removes_entity,
  counted, processed, doc_response,
}
use fiware_orion.Update.Element.Missing.{no_entity}
use fiware_orion.Update.Element.Process.{
  after_docs, after_query, after_check, process_context_element,
}

map_append {ℓ κ} :
    {A : Type ℓ} {B : Type κ} (f : A → B) (xs ys : List A) → map f (xs ++ ys) ≡ map f xs ++ map f ys
map_append f [] ys = refl
map_append f (x ∷ xs) ys = ap (◌∷◌ (f x)) (map_append f xs ys)

nil_append_right {ℓ} : {A : Type ℓ} (l r : List A) → is_nil r ≡ false → is_nil (l ++ r) ≡ false
unfolding is_nil
nil_append_right [] r h = h
nil_append_right (a ∷ l) r h = refl

nil_of_length {ℓ} : {A : Type ℓ} (l : List A) → 1 ≤ length l → is_nil l ≡ false
unfolding is_nil
nil_of_length [] h = ground arith
nil_of_length (a ∷ l) h = refl

module _ {D : Double} (R : Regex) (B : Backend D) (o : Origin) (call : Call)
    (ce : ContextElement) where
  -- The response of a document with `_id`: for its entity, and counted once at most.
  record IsAnswered (id : DocId) (a : Answer B) : Type 0 where
    entity : map (λ r. r.entity) a.responses ≡ doc_entity D B o call ce id ∷ []
    once : a.docs ≤ 1

  write-IsAnswered :
      (id : DocId) (run : Run D) (w : B.World) → IsAnswered id (write_entity D B o call ce id run w)
  unfolding write_entity doc_response
  write-IsAnswered id run w = record { entity = ground arith; once = ground arith }

  remove-IsAnswered : (id : DocId) (w : B.World) → IsAnswered id (remove_doc D B o call ce id w)
  unfolding remove_doc
  remove-IsAnswered id w = record { entity = refl; once = omega arith }

  update-IsAnswered :
      (id : DocId) (doc : EntityDoc D) (w : B.World)
      → IsAnswered id (update_doc D B o call ce id doc w)
  unfolding update_doc doc_response counted
  update-IsAnswered id doc w =
      if_both {A = Answer B} (IsAnswered id) (not (processed D B o call ce w id doc).0) _ _
        (record { entity = refl; once = ground arith })
        (write-IsAnswered id (processed D B o call ce w id doc).1 w)

  -- The entities of the documents that have an `_id`.
  pub found_entities : List (EntityDoc D) → List EntityId
  found_entities [] = []
  found_entities (doc ∷ docs) = elim doc.doc_id [
    | none ↦ found_entities docs
    | some id ↦ doc_entity D B o call ce id ∷ found_entities docs
  ]

  doc-cases :
      (doc : EntityDoc D) (w : B.World)
      → ((doc.doc_id ≡ none)
          × (process_doc D B o call ce doc w ≡ record { responses = []; docs = 0; world = w }))
        ⊎ ((id : DocId) × (doc.doc_id ≡ some id) × IsAnswered id (process_doc D B o call ce doc w))
  unfolding process_doc
  doc-cases doc w = elim (Option-cases doc.doc_id) [
    | inl e ↦ inl (e, rw e refl)
    | inr (id, e) ↦ inr (
      id,
      e,
      rw e (
          if_both {A = Answer B} (IsAnswered id) (removes_entity D B o call ce) _ _
            (remove-IsAnswered id w) (update-IsAnswered id _ w)),
    )
  ]

  found_none :
      (doc : EntityDoc D) (docs : List (EntityDoc D))
      → doc.doc_id ≡ none
      → found_entities (doc ∷ docs) ≡ found_entities docs
  unfolding found_entities
  found_none doc docs e = rw e refl

  found_some :
      (doc : EntityDoc D) (docs : List (EntityDoc D)) (id : DocId)
      → doc.doc_id ≡ some id
      → found_entities (doc ∷ docs) ≡ doc_entity D B o call ce id ∷ found_entities docs
  unfolding found_entities
  found_some doc docs id e = rw e refl

  -- The responses of the loop over the documents found are for the entities of these documents, in their order, one
  -- for each document that has an `_id`; and no more of them are counted.
  pub process_docs-entities :
      (docs : List (EntityDoc D)) (w : B.World)
      → (map (λ r. r.entity) (process_docs D B o call ce docs w).responses ≡ found_entities docs)
        × ((process_docs D B o call ce docs w).docs
            ≤ length (process_docs D B o call ce docs w).responses)
  unfolding process_docs found_entities
  process_docs-entities [] w = (refl, omega arith)
  process_docs-entities (doc ∷ docs) w =
      let here = process_doc D B o call ce doc w in
      let rest = process_docs D B o call ce docs here.world in
      let (ih, counted_once) = process_docs-entities docs here.world in
      elim (doc-cases doc w) [
        | inl (e, f) ↦ (
          map_append (λ r. r.entity) here.responses rest.responses
              ∙ ap (λ x. map (λ r. r.entity) x ++ map (λ r. r.entity) rest.responses)
                  (ap (λ (a : Answer B). a.responses) f)
              ∙ ih
              ∙ sym (found_none doc docs e),
          omega (
            arith,
            counted_once,
            length-append here.responses rest.responses,
            ap (λ (a : Answer B). a.docs) f,
          ),
        )
        | inr (id, e, a) ↦ (
          map_append (λ r. r.entity) here.responses rest.responses
              ∙ ap₂ ◌++◌ a.entity ih
              ∙ sym (found_some doc docs id e),
          omega (
            arith,
            a.once,
            counted_once,
            length-append here.responses rest.responses,
            length-map here.responses (λ r. r.entity),
            ap length a.entity,
          ),
        )
      ]

  no_entity-answers : (w : B.World) → is_nil (no_entity D R B o call ce w).0 ≡ false
  unfolding no_entity is_nil
  no_entity-answers w = ground arith

  after_docs-answers :
      (a : Answer B) → a.docs ≤ length a.responses → is_nil (after_docs D R B o call ce a).0 ≡ false
  unfolding after_docs is_nil
  after_docs-answers a h = ground (
    arith,
    h,
    nil_append_right a.responses (no_entity D R B o call ce a.world).0,
    no_entity-answers a.world,
    nil_of_length a.responses,
  )

  after_query-answers :
      (r : DbResult (List (EntityDoc D))) (w : B.World)
      → is_nil (after_query D R B o call ce r w).0 ≡ false
  unfolding after_query is_nil
  after_query-answers (failed err) w = refl
  after_query-answers (ok docs) w = after_docs-answers _ (process_docs-entities docs w).1

  after_check-answers :
      (x : Option ContextAttribute) (w : B.World)
      → is_nil (after_check D R B o call ce x w).0 ≡ false
  unfolding after_check is_nil
  after_check-answers (some ca) w = refl
  after_check-answers none w = after_query-answers _ w

  -- Each context element of a request is answered: at least one response is added, whatever the
  -- action, the database and the notifier do.
  pub process_context_element-answers :
      (w : B.World) → is_nil (process_context_element D R B o call ce w).0 ≡ false
  unfolding process_context_element
  process_context_element-answers w =
      if_both {A = List ElementResponse × B.World} (λ a. is_nil a.0 ≡ false)
        (is_true ce.entity.is_pattern) _ _ (unfold is_nil in refl) (after_check-answers _ w)
