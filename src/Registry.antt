-- ===== src/Registry.antt =====
-- Which part of a context registration answers a request: includedEntity, includedAttribute,
-- processEntity, processAttribute, processContextRegistrationElement, registrationsQuery and
-- isCondValueInContextElementResponse of src/lib/mongoBackend/MongoGlobal.cpp, and isTrue of
-- src/lib/common/globals.cpp. The regular expressions of the C library are a parameter, and so is
-- what the database finds.
pub mod Laws
pub mod Complete
pub mod First
pub mod Samples
use fiware_orion.Base.{
  ℕ, Str, ◌==◌, str_eq, ◌&&◌, ◌||◌, not, Bool, true, false, Option, none, some, List, [], ◌∷◌, ◌++◌,
  codes, any, if◌then◌else◌,
}
use fiware_orion.Entity.{ContextAttribute}
use fiware_orion.Update.{EntityId}

unfoldable pub is_true : Str → Bool
is_true s = if s == codes "true" || s == codes "1" then true else false

-- regcomp and regexec: whether a pattern compiles, and whether it matches a text.
pub record Regex : Type 0 where
  pub compiles : Str → Bool
  pub matches : Str → Str → Bool

unfoldable pub is_nil {ℓ} : {A : Type ℓ} → List A → Bool
is_nil [] = true
is_nil (a ∷ l) = false

-- includedAttribute compares the names only. No list of names stands for all of them.
unfoldable pub included_attribute : Str → List Str → Bool
included_attribute name attrs = if is_nil attrs then true else any (λ a. a == name) attrs

unfoldable pub is_cond_value_in : List Str → List (List ContextAttribute) → Bool
is_cond_value_in conds responses =
    any (λ cond. any (λ attrs. any (λ ca. ca.name == cond) attrs) responses) conds

pub record RegAttribute : Type 0 where
  pub name : Str
  pub type : Str
  pub is_domain : Str

-- One context registration: of a document, and of a response.
pub record Registration : Type 0 where
  pub entities : List EntityId
  pub attributes : List RegAttribute
  pub providing_application : Str

-- processEntity: the entity as the response holds it
abbrev pub plain_entity : EntityId → EntityId
plain_entity e = record { id = e.id; type = e.type; is_pattern = codes "false" }

module _ (R : Regex) where
  open R use {compiles, matches}

  -- One round of includedEntity. A pattern that does not compile is passed over.
  unfoldable pub entity_matches : EntityId → EntityId → Bool
  entity_matches en en2 =
      (if is_true en2.is_pattern then compiles en2.id && matches en2.id en.id else en2.id == en.id)
      && (en.type == [] || (en2.type == [] || en2.type == en.type))

  unfoldable pub included_entity : EntityId → List EntityId → Bool
  included_entity en ens = any (entity_matches en) ens

  -- The loop over the entities of a registration: `isPattern` becomes "false".
  unfoldable pub registered_entities : List EntityId → List EntityId → List EntityId
  registered_entities ens [] = []
  registered_entities ens (e ∷ es) =
      let rest = registered_entities ens es in
      if included_entity (plain_entity e) ens then plain_entity e ∷ rest else rest

  unfoldable pub registered_attributes : List Str → List RegAttribute → List RegAttribute
  registered_attributes attrs [] = []
  registered_attributes attrs (a ∷ l) =
      let rest = registered_attributes attrs l in
      if included_attribute a.name attrs then a ∷ rest else rest

  -- processContextRegistrationElement: what it pushes to the response vector
  unfoldable pub registration_element : List EntityId → List Str → Registration → List Registration
  registration_element ens attrs cr =
      let found = registered_entities ens cr.entities in
      let found_attrs = if is_nil found then [] else registered_attributes attrs cr.attributes in
      if is_nil found
      then []
      else if not (is_nil found_attrs) || (is_nil found_attrs && is_nil attrs)
      then record {
        entities = found;
        attributes = found_attrs;
        providing_application = cr.providing_application;
      }
        ∷ []
      else []

  unfoldable pub registration_elements :
      List EntityId → List Str → List Registration → List Registration
  registration_elements ens attrs [] = []
  registration_elements ens attrs (cr ∷ crs) =
      registration_element ens attrs cr ++ registration_elements ens attrs crs

  -- The loop over the documents that the query of registrationsQuery found.
  unfoldable pub query_result :
      List EntityId → List Str → List (List Registration) → List Registration
  query_result ens attrs [] = []
  query_result ens attrs (doc ∷ docs) =
      registration_elements ens attrs doc ++ query_result ens attrs docs
