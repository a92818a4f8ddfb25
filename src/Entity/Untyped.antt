-- ===== src/Entity/Untyped.antt =====
-- Metadata without a type: appendAttribute and updateAttribute of
-- src/lib/mongoBackend/MongoCommonUpdate.cpp store it in two ways.
use fiware_orion.Base.{ℕ, Str, ◌≡◌, str_eq, str_beq, false, none, [], ◌∷◌, arith, str_beq_refl, any}
use fiware_orion.Bson.{str_field, bson_string}
use fiware_orion.Entity.{ContextAttribute}
use fiware_orion.Entity.CustomMetadata.{
  get_id, find_metadata, is_not_custom_metadata, custom_metadata, context_attribute_custom_metadata,
  request_metadata, kept_metadata, has_metadata, md_doc, md_field, match_metadata,
  first_match_differs, equal_metadata_vectors,
}
use fiware_orion.Entity.Attribute.{
  update_attribute, update_loop, check_and_update, append_attribute, new_attribute,
  is_actual_update, updated_metadata, stored_metadata, is_some, value_bson,
}

module _ (now later : ℕ) (name type value md_name : Str)
    (custom : is_not_custom_metadata md_name ≡ false) where
  -- A request for the attribute, with one metadata without type.
  abbrev pub with_metadata : Str → ContextAttribute
  with_metadata v = record {
    name = name;
    type = type;
    value = value;
    metadata = record { name = md_name; type = []; value = v } ∷ [];
    compound = none;
  }

  no_id : (v : Str) → get_id (with_metadata v) ≡ []
  unfolding get_id find_metadata is_not_custom_metadata
  no_id v = ground (arith, custom)

  same_length_and_equal :
      (old new : Str)
      → is_actual_update (new_attribute now (with_metadata old)) (with_metadata new) ≡ false
  unfolding is_actual_update new_attribute context_attribute_custom_metadata custom_metadata
      md_field value_bson bson_string is_some str_field updated_metadata stored_metadata
      request_metadata kept_metadata has_metadata md_doc equal_metadata_vectors first_match_differs
      match_metadata any str_beq
  same_length_and_equal old new =
      rw custom (ground (arith, str_beq_refl value, str_beq_refl type, str_beq_refl md_name))

  -- An attribute that was appended with a metadata without type, and is updated with another value
  -- of that metadata and nothing else changed, does not count as actually updated: its caller
  -- neither writes it to the database nor notifies.
  pub append-update_untyped :
      (old new : Str)
      → (update_attribute later
          (append_attribute now [] (with_metadata old)).0
          (with_metadata new)).actual
        ≡ false
  unfolding update_attribute update_loop append_attribute check_and_update
  append-update_untyped old new = ground (arith, same_length_and_equal old new)
