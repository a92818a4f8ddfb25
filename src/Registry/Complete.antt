-- ===== src/Registry/Complete.antt =====
-- When registrationsQuery of src/lib/mongoBackend/MongoGlobal.cpp returns anything.
use fiware_orion.Base.{
  Str, ◌≡◌, refl, ◌↔◌, ◌⊎◌, inl, inr, str_eq, true, false, List, [], ◌∷◌, ◌++◌, arith, Bool-cases,
}
use fiware_orion.Update.{EntityId}
use fiware_orion.Registry.{
  Regex, is_nil, plain_entity, included_attribute, RegAttribute, Registration, included_entity,
  registered_entities, registered_attributes, registration_element, registration_elements,
  query_result,
}
use fiware_orion.Registry.Laws.{
  Some, IsAsked, included_attribute_iff, Matches, included_entity_iff, nil_of_is_nil,
}

pub nil_append_iff {ℓ} :
    {A : Type ℓ} (l r : List A)
    → (is_nil (l ++ r) ≡ false) ↔ ((is_nil l ≡ false) ⊎ (is_nil r ≡ false))
unfolding is_nil
nil_append_iff [] r = ground arith
nil_append_iff (a ∷ l) r = ground arith

module _ (R : Regex) (ens : List EntityId) (attrs : List Str) where
  entities_iff :
      (es : List EntityId)
      → (is_nil (registered_entities R ens es) ≡ false)
        ↔ Some (λ e. Some (Matches R (plain_entity e)) ens) es
  unfolding registered_entities is_nil
  entities_iff [] = ground arith
  entities_iff (e ∷ es) = elim (Bool-cases (included_entity R (plain_entity e) ens)) [
    | inl y ↦ rw y ((λ h. inl ((included_entity_iff R (plain_entity e) ens).0 y)), (λ h. refl))
    | inr n ↦ rw n (ground (arith, n, entities_iff es, included_entity_iff R (plain_entity e) ens))
  ]

  attributes_iff :
      (l : List RegAttribute)
      → (is_nil (registered_attributes R attrs l) ≡ false) ↔ Some (λ a. IsAsked attrs a.name) l
  unfolding registered_attributes is_nil
  attributes_iff [] = ground arith
  attributes_iff (a ∷ l) = elim (Bool-cases (included_attribute a.name attrs)) [
    | inl y ↦ rw y ((λ h. inl ((included_attribute_iff attrs a.name).0 y)), (λ h. refl))
    | inr n ↦ rw n (ground (arith, n, attributes_iff l, included_attribute_iff attrs a.name))
  ]

  -- A registration that answers: with a requested entity, and an attribute asked for, if any was.
  abbrev pub HasAnswer : Registration → Type 0
  HasAnswer cr =
      Some (λ e. Some (Matches R (plain_entity e)) ens) cr.entities
      × ((attrs ≡ []) ⊎ Some (λ a. IsAsked attrs a.name) cr.attributes)

  nil_attrs_iff : (is_nil attrs ≡ true) ↔ (attrs ≡ [])
  unfolding is_nil
  nil_attrs_iff = (nil_of_is_nil attrs, λ e. rw e refl)

  pub element_iff :
      (cr : Registration) → (is_nil (registration_element R ens attrs cr) ≡ false) ↔ HasAnswer cr
  unfolding registration_element is_nil
  element_iff cr =
      ground (arith, entities_iff cr.entities, attributes_iff cr.attributes, nil_attrs_iff)

  pub elements_iff :
      (crs : List Registration)
      → (is_nil (registration_elements R ens attrs crs) ≡ false) ↔ Some HasAnswer crs
  unfolding registration_elements is_nil
  elements_iff [] = ground arith
  elements_iff (cr ∷ crs) = ground (
    arith,
    nil_append_iff (registration_element R ens attrs cr) (registration_elements R ens attrs crs),
    element_iff cr,
    elements_iff crs,
  )

  -- The loops over the documents that the database query returned, which are what its conditions, its offset and
  -- its limit left of the registrations, return something exactly if one of the registrations in these documents has an entity
  -- that matches a requested one and, where attributes were asked for, one of those attributes.
  pub query_result_iff :
      (docs : List (List Registration))
      → (is_nil (query_result R ens attrs docs) ≡ false) ↔ Some (Some HasAnswer) docs
  unfolding query_result is_nil
  query_result_iff [] = ground arith
  query_result_iff (doc ∷ docs) = ground (
    arith,
    nil_append_iff (registration_elements R ens attrs doc) (query_result R ens attrs docs),
    elements_iff doc,
    query_result_iff docs,
  )
