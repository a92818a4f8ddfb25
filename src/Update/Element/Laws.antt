-- ===== src/Update/Element/Laws.antt =====
-- What processContextElement of src/lib/mongoBackend/MongoCommonUpdate.cpp keeps true of the database,
-- and that it answers.
use fiware_orion.Base.{
  Str, ◌≡◌, refl, sym, subst, ◌⊎◌, inl, inr, str_eq, not, false, Option, none, some, List, [], ◌∷◌,
  map, All, arith, if_both, Option-cases, codes,
}
use fiware_orion.Strings.Bytes.{strcasecmp_eq}
use fiware_orion.Strings.Coords.{Double}
use fiware_orion.Entity.{ContextAttribute}
use fiware_orion.Entity.Keys.{keys, target}
use fiware_orion.Entity.Consistent.{IsConsistent}
use fiware_orion.Registry.{Regex, is_true}
use fiware_orion.Update.Subscriptions.{Origin, SubMap, DbResult, ok, failed}
use fiware_orion.Update.Process.{Run}
use fiware_orion.Update.Process.Invariant.{process-IsConsistent}
use fiware_orion.Update.Backend.{Backend, Call, DocId, EntityDoc}
use fiware_orion.Update.Keeps.{Keeps}
use fiware_orion.Update.Create.{
  NewResult, refused, created, new_entity, insert_new, create_entity, remove_entity, remove_query,
}
use fiware_orion.Update.Create.Laws.{new_entity-IsNewEntity}
use fiware_orion.Update.Notify.Laws.{process_subscriptions-keeps}
use fiware_orion.Update.Element.{
  ContextElement, ElementResponse, Answer, entity_query, update_query,
}
use fiware_orion.Update.Element.Found.{
  start_run, processed, entity_update, write_entity, remove_doc, update_doc, process_doc,
  process_docs, doc_entity, removes_entity,
}
use fiware_orion.Update.Element.Missing.{after_creation, notify_created, append_entity, no_entity}
use fiware_orion.Update.Element.Process.{
  after_docs, after_query, after_check, process_context_element,
}

module _ {D : Double} (R : Regex) (B : Backend D) (P : B.World → Type 0) (K : Keeps B P)
    (o : Origin) (call : Call) (ce : ContextElement) where
  remove-keeps :
      (tenant id type path : Str) (w : B.World)
      → P w
      → P (remove_entity D B tenant id type path w).1
  unfolding remove_entity
  remove-keeps tenant id type path w p = K.remove tenant (remove_query id type path) w p

  write-keeps :
      (id : DocId) (run : Run D) (w : B.World)
      → IsConsistent (keys run.attrs)
      → P w
      → P (write_entity D B o call ce id run w).world
  unfolding write_entity
  write-keeps id run w c p =
      let q =
        K.update o.tenant (update_query o id) (entity_update D B o call ce run) w
          (unfold entity_update in c) p in
      ground (
        arith,
        q,
        process_subscriptions-keeps B o ce.entity call.token P K run.subs
            (B.update o.tenant (update_query o id) (entity_update D B o call ce run) w).1 q,
      )

  update_doc-keeps :
      (id : DocId) (doc : EntityDoc D) (w : B.World)
      → IsConsistent (keys doc.attrs)
      → P w
      → P (update_doc D B o call ce id doc w).world
  unfolding update_doc processed start_run
  update_doc-keeps id doc w c p =
      if_both {A = Answer B} (λ a. P a.world) (not (processed D B o call ce w id doc).0) _ _ p
        (write-keeps id (processed D B o call ce w id doc).1 w
          (process-IsConsistent D (B.subscriptions w) o (doc_entity D B o call ce id) call.action
            ce.attributes (start_run D B o call ce doc) c)
          p)

  doc-keeps :
      (doc : EntityDoc D) (w : B.World)
      → IsConsistent (keys doc.attrs)
      → P w
      → P (process_doc D B o call ce doc w).world
  unfolding process_doc remove_doc
  doc-keeps doc w c p = elim (Option-cases doc.doc_id) [
    | inl e ↦ rw e p
    | inr (id, e) ↦ rw e (
        if_both {A = Answer B} (λ a. P a.world) (removes_entity D B o call ce)
          (remove_doc D B o call ce id w) _ (remove-keeps o.tenant id.id _ _ w p)
          (update_doc-keeps id (record doc { doc_id = some id }) w c p))
  ]

  docs-keeps :
      (docs : List (EntityDoc D)) (w : B.World)
      → All (λ d. IsConsistent (keys d.attrs)) docs
      → P w
      → P (process_docs D B o call ce docs w).world
  unfolding process_docs
  docs-keeps [] w c p = p
  docs-keeps (doc ∷ docs) w c p = docs-keeps docs _ c.1 (doc-keeps doc w c.0 p)

  module _ (distinct : IsConsistent (map target ce.attributes)) where
    insert_new-keeps :
        (x : NewResult D) (w : B.World)
        → new_entity D o ce.entity ce.attributes ≡ x
        → P w
        → P (insert_new D B o.tenant x w).1
    unfolding insert_new
    insert_new-keeps (refused err) w e p = p
    insert_new-keeps (created d) w e p =
        K.insert o.tenant d w
          (subst IsConsistent (sym (new_entity-IsNewEntity D o ce.entity ce.attributes d e).keyed)
            distinct)
          p

    create-keeps : (w : B.World) → P w → P (create_entity D B o ce.entity ce.attributes w).1
    unfolding create_entity
    create-keeps w p =
        insert_new-keeps _ (B.ensure_location_index o.tenant w) refl (K.index o.tenant w p)

    notify_created-keeps :
        (x : DbResult SubMap) (w : B.World) → P w → P (notify_created D R B o call ce x w).1
    unfolding notify_created
    notify_created-keeps (failed text) w p = p
    notify_created-keeps (ok subs) w p =
        process_subscriptions-keeps B o ce.entity call.token P K subs w p

    after_creation-keeps :
        (err : Option Str) (w : B.World) → P w → P (after_creation D R B o call ce err w).1
    unfolding after_creation
    after_creation-keeps (some text) w p = p
    after_creation-keeps none w p = notify_created-keeps _ w p

    append-keeps : (w : B.World) → P w → P (append_entity D R B o call ce w).1
    unfolding append_entity
    append-keeps w p = after_creation-keeps _ _ (create-keeps w p)

  -- Either nothing is created, or the request repeats no attribute.
  abbrev pub CreatesConsistent : Type 0
  CreatesConsistent =
      (strcasecmp_eq call.action (codes "append") ≡ false) ⊎ IsConsistent (map target ce.attributes)

  no_entity-keeps : CreatesConsistent → (w : B.World) → P w → P (no_entity D R B o call ce w).1
  unfolding no_entity
  no_entity-keeps (inl other) w p = rw other p
  no_entity-keeps (inr distinct) w p =
      if_both {A = List ElementResponse × B.World} (λ a. P a.1)
        (not (strcasecmp_eq call.action (codes "append"))) _ _ p (append-keeps distinct w p)

  after_docs-keeps :
      CreatesConsistent → (a : Answer B) → P a.world → P (after_docs D R B o call ce a).1
  unfolding after_docs
  after_docs-keeps c a p = ground (arith, no_entity-keeps c a.world p)

  found-keeps :
      CreatesConsistent
      → (r : DbResult (List (EntityDoc D))) (w : B.World)
      → B.entities w o.tenant (entity_query o call ce.entity) ≡ r
      → P w
      → P (after_query D R B o call ce r w).1
  unfolding after_query
  found-keeps c (failed err) w e p = p
  found-keeps c (ok docs) w e p =
      after_docs-keeps c _ (docs-keeps docs w (K.found w o.tenant _ docs p e) p)

  checked-keeps :
      CreatesConsistent
      → (x : Option ContextAttribute) (w : B.World) → P w
      → P (after_check D R B o call ce x w).1
  unfolding after_check
  checked-keeps c (some ca) w p = p
  checked-keeps c none w p = found-keeps c _ w refl p

  -- A property of the database that holds where all stored attributes are consistent, in the sense of
  -- the interface Keeps, is kept by one context element of an updateContext request, whatever its
  -- action, wherever it fails, and whatever the notifier answers: provided that the action is not
  -- APPEND, or that the request itself repeats no attribute and mixes no name with and without
  -- identifier.
  pub process_context_element-keeps :
      CreatesConsistent → (w : B.World) → P w → P (process_context_element D R B o call ce w).1
  unfolding process_context_element
  process_context_element-keeps c w p =
      if_both {A = List ElementResponse × B.World} (λ a. P a.1) (is_true ce.entity.is_pattern) _ _ p
        (checked-keeps c _ w p)
