-- ===== src/Discover/Laws.antt =====
-- How discoverContextAvailability of src/lib/mongoBackend reads an association that registerContext stored.
use fiware_orion.Base.{Str, ◌≡◌, refl, sym, ap, ap₂, ◌∙◌, str_eq, str_beq, [], ◌∷◌, codes}
use fiware_orion.Bson.{str_field}
use fiware_orion.Register.Store.{RegistrationMetadata}
use fiware_orion.Register.Operations.{association_doc, stored_entity}
use fiware_orion.Discover.{association_metadata}

stored_type : (id type : Str) → str_field (stored_entity id type).type ≡ type
unfolding stored_entity str_field str_beq
stored_type id [] = refl
stored_type id (b ∷ s) = refl

-- An association that registerContext stores is read by discoverContextAvailability as it was registered: with its
-- name, the identifiers and the types of both entities, which may be empty, and its attributes.
pub association_metadata-association_doc :
    (md : RegistrationMetadata)
    → md.type ≡ codes "Association"
    → association_metadata (association_doc md) ≡ md
unfolding association_metadata association_doc
association_metadata-association_doc md h =
    ap₂ (λ a b. record md { type = codes "Association"; source_type = a; target_type = b })
      (stored_type md.source_id md.source_type) (stored_type md.target_id md.target_type)
    ∙ ap (λ t. record md { type = t }) (sym h)
