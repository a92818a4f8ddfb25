-- ===== src/Entity/Samples.antt =====
-- Runs of the attribute functions, and their theorems at a concrete entity: a room with a
-- temperature, and with a position whose value is an object.
use fiware_orion.Base.{
  Str, ◌≡◌, refl, ◌≢◌, true, false, none, some, List, [], ◌∷◌, codes, All, arith, any, str_beq,
}
use fiware_orion.Bson.{text, object, no_field, field, str_field, bson_string}
use fiware_orion.Entity.{ContextAttribute, AttrDoc}
use fiware_orion.Entity.CustomMetadata.{
  get_id, request_metadata, is_not_custom_metadata, md_doc, match_metadata, equal_metadata_vectors,
  kept_metadata, has_metadata, bson_custom_metadata, md_field, find_metadata, custom_metadata,
  context_attribute_custom_metadata,
}
use fiware_orion.Entity.Attribute.{
  value_bson, is_actual_update, updated_metadata, update_attribute, update_loop, check_and_update,
  append_attribute, new_attribute, delete_attribute, delete_loop, check_and_delete, is_match,
  smart_attr_match, copied_id, copied_value, updated_type, stored_metadata, is_some, legal_id_usage,
}
use fiware_orion.Entity.Keys.{Key, keys, target}
use fiware_orion.Entity.Stored.{find, IsStored}
use fiware_orion.Entity.Consistent.{IsConsistent}
use fiware_orion.Entity.Update.{
  IsEffect, update_attribute-target, update_attribute-frame, append_attribute-frame,
  append_attribute-target,
}
use fiware_orion.Entity.Delete.{rewritten, delete_attribute-others}
use fiware_orion.Entity.Repeat.{IsUnambiguous}

abbrev pub temperature : AttrDoc
temperature = record {
  name = some (codes "temperature");
  id = none;
  type = some (codes "degree");
  value = some (text (codes "20"));
  md = some (record { name = codes "unit"; type = none; value = codes "C" } ∷ []);
  cre_date = some 100;
  mod_date = some 100;
}

abbrev pub position : AttrDoc
position = record {
  name = some (codes "position");
  id = none;
  type = none;
  value = some (object (field (codes "floor") (text (codes "3")) no_field));
  md = none;
  cre_date = some 100;
  mod_date = some 100;
}

abbrev pub room : List AttrDoc
room = temperature ∷ position ∷ []

abbrev pub warmer : ContextAttribute
warmer = record {
  name = codes "temperature";
  type = codes "";
  value = codes "25";
  metadata = record { name = codes "unit"; type = []; value = codes "C" } ∷ [];
  compound = none;
}

-- What the functions of the tests call.
unfoldable pub all_of_it : Unit {0}
unfolding str_beq find update_attribute update_loop check_and_update append_attribute
    delete_attribute delete_loop check_and_delete is_match smart_attr_match copied_id copied_value
    updated_type stored_metadata is_some value_bson is_actual_update updated_metadata get_id
    find_metadata request_metadata is_not_custom_metadata md_doc kept_metadata has_metadata
    bson_custom_metadata md_field str_field bson_string equal_metadata_vectors match_metadata any
    legal_id_usage new_attribute context_attribute_custom_metadata custom_metadata
all_of_it = tt

update_room : (update_attribute 500 room warmer).actual ≡ true
unfolding all_of_it
update_room = refl

found : find (target warmer) room ≡ some temperature
unfolding all_of_it
found = refl

found_position : find (codes "position", []) room ≡ some position
unfolding all_of_it
found_position = refl

other_key : ◌≢◌ {A = Key} (codes "position", []) (target warmer)
unfolding all_of_it
other_key = ground arith

pub room-IsStored : All IsStored room
room-IsStored = ground arith

pub room-IsConsistent : IsConsistent (keys room)
unfolding str_field
room-IsConsistent = ground arith

update_attribute-target_example :
    ((update_attribute 500 room warmer).updated ≡ true)
    × ((b : AttrDoc) × (find (target warmer) (update_attribute 500 room warmer).attrs ≡ some b)
        × IsEffect 500 warmer temperature b)
update_attribute-target_example = update_attribute-target 500 room warmer temperature found

update_attribute-frame_example :
    (keys (update_attribute 500 room warmer).attrs ≡ keys room)
    × (find (codes "position", []) (update_attribute 500 room warmer).attrs
        ≡ find (codes "position", []) room)
update_attribute-frame_example =
    update_attribute-frame 500 room warmer room-IsStored (codes "position", []) other_key

append_attribute-frame_example :
    find (codes "position", []) (append_attribute 500 room warmer).0
    ≡ find (codes "position", []) room
append_attribute-frame_example =
    append_attribute-frame 500 room warmer room-IsStored (codes "position", []) other_key

append_attribute-target_example :
    (b : AttrDoc) × (find (target warmer) (append_attribute 500 [] warmer).0 ≡ some b)
    × (b.value ≡ value_bson warmer)
append_attribute-target_example = append_attribute-target 500 [] warmer

-- The object of the position is gone.
delete_attribute-others_example :
    find (codes "position", []) (delete_attribute room warmer).0 ≡ some (rewritten position)
delete_attribute-others_example =
    delete_attribute-others room warmer room-IsConsistent (codes "position", []) position other_key
      found_position

unambiguous : IsUnambiguous warmer room
unfolding all_of_it
unambiguous = ground arith

abbrev unit_name : Str
unit_name = codes "unit"

unit_custom : is_not_custom_metadata unit_name ≡ false
unfolding all_of_it
unit_custom = refl
