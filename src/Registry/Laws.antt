-- ===== src/Registry/Laws.antt =====
-- What a context registration answers: the functions of src/lib/mongoBackend/MongoGlobal.cpp on
-- registrations against a description of a match.
use fiware_orion.Base.{
  Str, ◌≡◌, refl, ◌↔◌, ◌⊎◌, inl, inr, ◌==◌, str_eq, Bool, true, false, List, [], ◌∷◌, any, arith,
  All, All-append, str_beq_iff, Bool-cases,
}
use fiware_orion.Update.{EntityId}
use fiware_orion.Registry.{
  is_true, Regex, is_nil, plain_entity, included_attribute, RegAttribute, Registration,
  entity_matches, included_entity, registered_entities, registered_attributes, registration_element,
  registration_elements, query_result,
}

-- Some member of the list has the property.
abbrev pub Some {ℓ} : {A : Type ℓ} → (A → Type 0) → List A → Type 0
Some P [] = ⊥
Some P (a ∷ l) = P a ⊎ Some P l

pub any_iff {ℓ} :
    {A : Type ℓ} (p : A → Bool) (P : A → Type 0) (f : (a : A) → (p a ≡ true) ↔ P a) (l : List A)
    → (any p l ≡ true) ↔ Some P l
unfolding any
any_iff p P f [] = ground arith
any_iff p P f (a ∷ l) = ground (arith, f a, any_iff p P f l)

-- The name is one of those asked for, or none was asked for.
abbrev pub IsAsked : List Str → Str → Type 0
IsAsked attrs name = (attrs ≡ []) ⊎ Some (λ a. a ≡ name) attrs

pub included_attribute_iff :
    (attrs : List Str) (name : Str) → (included_attribute name attrs ≡ true) ↔ IsAsked attrs name
unfolding included_attribute is_nil
included_attribute_iff [] name = ground arith
included_attribute_iff (a ∷ attrs) name =
    ground (arith, any_iff (λ x. x == name) (λ x. x ≡ name) (λ x. str_beq_iff x name) (a ∷ attrs))

pub nil_of_is_nil {ℓ} : {A : Type ℓ} (l : List A) → is_nil l ≡ true → l ≡ []
unfolding is_nil
nil_of_is_nil [] h = refl
nil_of_is_nil (a ∷ l) h = ground arith

module _ (R : Regex) where
  -- The identifier of a requested entity is a pattern that matches, or the same.
  abbrev pub HasIdMatch : EntityId → EntityId → Type 0
  HasIdMatch en asked =
      ((is_true asked.is_pattern ≡ true)
        × (R.compiles asked.id ≡ true)
        × (R.matches asked.id en.id ≡ true))
      ⊎ ((is_true asked.is_pattern ≡ false) × (asked.id ≡ en.id))

  -- An empty type stands for any.
  abbrev pub HasTypeMatch : EntityId → EntityId → Type 0
  HasTypeMatch en asked = (en.type ≡ []) ⊎ ((asked.type ≡ []) ⊎ (asked.type ≡ en.type))

  abbrev pub Matches : EntityId → EntityId → Type 0
  Matches en asked = HasIdMatch en asked × HasTypeMatch en asked

  entity_matches_iff : (en asked : EntityId) → (entity_matches R en asked ≡ true) ↔ Matches en asked
  unfolding entity_matches
  entity_matches_iff en asked = ground (
    arith,
    str_beq_iff asked.id en.id,
    str_beq_iff en.type [],
    str_beq_iff asked.type [],
    str_beq_iff asked.type en.type,
  )

  -- includedEntity finds an entity exactly if one of the requested entities matches it: by its
  -- pattern, where that compiles, or by its identifier, and by its type, where none of the two types is empty.
  pub included_entity_iff :
      (en : EntityId) (ens : List EntityId)
      → (included_entity R en ens ≡ true) ↔ Some (Matches en) ens
  unfolding included_entity
  included_entity_iff en ens =
      any_iff (entity_matches R en) (Matches en) (entity_matches_iff en) ens

  module _ (ens : List EntityId) (attrs : List Str) where
    -- What is returned for a registration: some entities, all requested, and attributes, all asked for.
    pub record IsAnswer (r : Registration) : Type 0 where
      pub entities : All (λ en. Some (Matches en) ens) r.entities
      pub some_entity : is_nil r.entities ≡ false
      pub attributes : All (λ a. IsAsked attrs a.name) r.attributes
      pub some_attribute : (attrs ≡ []) ⊎ (is_nil r.attributes ≡ false)

    entities-All :
        (es : List EntityId) → All (λ en. Some (Matches en) ens) (registered_entities R ens es)
    unfolding registered_entities
    entities-All [] = tt
    entities-All (e ∷ es) = elim (Bool-cases (included_entity R (plain_entity e) ens)) [
      | inl y ↦ rw y ((included_entity_iff (plain_entity e) ens).0 y, entities-All es)
      | inr n ↦ rw n (entities-All es)
    ]

    attributes-All :
        (l : List RegAttribute) → All (λ a. IsAsked attrs a.name) (registered_attributes R attrs l)
    unfolding registered_attributes
    attributes-All [] = tt
    attributes-All (a ∷ l) = elim (Bool-cases (included_attribute a.name attrs)) [
      | inl y ↦ rw y ((included_attribute_iff attrs a.name).0 y, attributes-All l)
      | inr n ↦ rw n (attributes-All l)
    ]

    answer :
        (cr : Registration)
        → is_nil (registered_entities R ens cr.entities) ≡ false
        → (attrs ≡ []) ⊎ (is_nil (registered_attributes R attrs cr.attributes) ≡ false)
        → IsAnswer (record {
          entities = registered_entities R ens cr.entities;
          attributes = registered_attributes R attrs cr.attributes;
          providing_application = cr.providing_application;
        })
    answer cr n some_asked = record {
      entities = entities-All cr.entities;
      some_entity = n;
      attributes = attributes-All cr.attributes;
      some_attribute = some_asked;
    }

    element-All : (cr : Registration) → All IsAnswer (registration_element R ens attrs cr)
    unfolding registration_element is_nil
    element-All cr =
        let found = registered_entities R ens cr.entities in
        let found_attrs = registered_attributes R attrs cr.attributes in
        elim (Bool-cases (is_nil found)) [
          | inl y ↦ rw y tt
          | inr n ↦ elim (Bool-cases (is_nil found_attrs)) [
            | inl ya ↦ elim (Bool-cases (is_nil attrs)) [
              | inl none_asked ↦
                  rw (n, ya, none_asked) (answer cr n (inl (nil_of_is_nil attrs none_asked)), tt)
              | inr asked ↦ rw (n, ya, asked) tt
            ]
            | inr na ↦ rw (n, na) (answer cr n (inr na), tt)
          ]
        ]

    elements-All : (crs : List Registration) → All IsAnswer (registration_elements R ens attrs crs)
    unfolding registration_elements
    elements-All [] = tt
    elements-All (cr ∷ crs) = All-append IsAnswer _ _ (element-All cr) (elements-All crs)

    -- Whatever registrations the database holds, each one that the query returns is an answer: it has
    -- an entity, each of its entities matches a requested one, each of its attributes was asked for,
    -- and it has an attribute unless none was asked for.
    pub query_result-IsAnswer :
        (docs : List (List Registration)) → All IsAnswer (query_result R ens attrs docs)
    unfolding query_result
    query_result-IsAnswer [] = tt
    query_result-IsAnswer (doc ∷ docs) =
        All-append IsAnswer _ _ (elements-All doc) (query_result-IsAnswer docs)
