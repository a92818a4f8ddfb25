-- ===== src/Entity/Repeat.antt =====
-- Repeating an update: updateAttribute of MongoCommonUpdate.cpp, and what its test for an actual
-- update misses.
use fiware_orion.Base.{
  ℕ, ◌≡◌, refl, ◌∙◌, inl, inr, str_eq, true, false, none, some, List, [], ◌∷◌, All, arith,
  str_beq_iff, Bool-cases,
}
use fiware_orion.Bson.{text, str_field, bson_string}
use fiware_orion.Entity.{ContextAttribute, AttrDoc}
use fiware_orion.Entity.Attribute.{
  is_match, value_bson, updated_type, updated_metadata, is_actual_update, check_and_update,
  update_loop, update_attribute,
}
use fiware_orion.Entity.CustomMetadata.{equal_metadata_vectors, request_metadata}
use fiware_orion.Entity.Attribute.{stored_metadata, is_some}
use fiware_orion.Entity.Keys.{key, target, is_match_iff, key-check_and_update}
use fiware_orion.Entity.Stored.{
  IsStored, check_and_update-IsStored, copied_id-eq_self, name-eq_self, copied_value-eq_self,
  md-eq_self,
}
use fiware_orion.Entity.Update.{IsUpdated, check_and_update-IsUpdated}
use fiware_orion.Entity.Agreement.{
  HasOneValue, HasOneValue-update, equal_of_Agrees, updated_metadata_again, stored-md_field,
}

-- The metadata of one name and type agree, in the request and in each stored attribute.
abbrev pub IsUnambiguous : ContextAttribute → List AttrDoc → Type 0
IsUnambiguous ca attrs =
    HasOneValue (request_metadata ca.metadata) × All (λ a. HasOneValue (stored_metadata a)) attrs

value_bson_simple :
    (ca : ContextAttribute) → ca.compound ≡ none → value_bson ca ≡ some (text ca.value)
unfolding value_bson
value_bson_simple ca simple = ground arith

module _ (now : ℕ) (ca : ContextAttribute) (a b : AttrDoc) (u : IsUpdated now ca a b) where
  same_md : updated_metadata b ca ≡ updated_metadata a ca
  same_md = updated_metadata_again a b ca (stored-md_field b (updated_metadata a ca) u.md)

  module _ (one : HasOneValue (request_metadata ca.metadata))
      (one_a : HasOneValue (stored_metadata a)) where
    agree_self : equal_metadata_vectors (updated_metadata a ca) (updated_metadata a ca) ≡ true
    unfolding updated_metadata
    agree_self = equal_of_Agrees _ _ (HasOneValue-update ca (stored_metadata a) one one_a)

    agree : equal_metadata_vectors (stored_metadata b) (updated_metadata b ca) ≡ true
    agree = rw (same_md, stored-md_field b (updated_metadata a ca) u.md) agree_self

    -- What has just been updated is not actually updated again.
    not_actual : ca.compound ≡ none → is_actual_update b ca ≡ false
    unfolding is_actual_update is_some bson_string str_field
    not_actual simple = ground (
      arith,
      agree,
      same_md,
      stored-md_field b (updated_metadata a ca) u.md,
      u.value,
      u.type,
      value_bson_simple ca simple,
      str_beq_iff ca.value ca.value,
      str_beq_iff ca.type ca.type,
      str_beq_iff ca.type [],
    )

    not_actual-mod_date :
        ca.compound ≡ none
        → is_actual_update b ca ≡ false
        → (later : ℕ) → IsStored b
        → key b ≡ target ca
        → check_and_update later b ca ≡ record { new_attr = b; updated = true; actual = false }
    unfolding check_and_update updated_type
    not_actual-mod_date simple n later h e = ground (
      arith,
      is_match_iff b ca,
      n,
      same_md,
      u.md,
      u.value,
      u.type,
      copied_id-eq_self b h,
      name-eq_self b h,
    )

updated_of_match :
    (now : ℕ) (a : AttrDoc) (ca : ContextAttribute)
    → (check_and_update now a ca).updated ≡ is_match a ca
unfolding check_and_update
updated_of_match now a ca = ground arith

untouched :
    (now : ℕ) (a : AttrDoc) (ca : ContextAttribute)
    → IsStored a
    → is_match a ca ≡ false
    → check_and_update now a ca ≡ record { new_attr = a; updated = false; actual = false }
unfolding check_and_update
untouched now a ca h n =
    ground
      (arith, n, copied_id-eq_self a h, copied_value-eq_self a h, md-eq_self a h, name-eq_self a h)

module _ (now later : ℕ) (ca : ContextAttribute) (simple : ca.compound ≡ none)
    (one : HasOneValue (request_metadata ca.metadata)) where
  check_again :
      (a : AttrDoc)
      → IsStored a
      → HasOneValue (stored_metadata a)
      → check_and_update later (check_and_update now a ca).new_attr ca ≡ record {
        new_attr = (check_and_update now a ca).new_attr;
        updated = (check_and_update now a ca).updated;
        actual = false;
      }
  check_again a h one_a = elim (Bool-cases (is_match a ca)) [
    | inl y ↦
        let e = (is_match_iff a ca).0 y in
        let b = (check_and_update now a ca).new_attr in
        let u = check_and_update-IsUpdated now a ca e in
        cc (
          not_actual-mod_date now ca a b u one one_a simple
              (not_actual now ca a b u one one_a simple) later
              (check_and_update-IsStored now a ca h) (key-check_and_update now a ca ∙ e),
          updated_of_match now a ca,
          y,
        )
    | inr n ↦ cc (untouched now a ca h n, untouched later a ca h n)
  ]

  update_again :
      (attrs : List AttrDoc)
      → All IsStored attrs
      → All (λ a. HasOneValue (stored_metadata a)) attrs
      → update_loop later (update_loop now attrs ca).attrs ca ≡ record {
        attrs = (update_loop now attrs ca).attrs;
        updated = (update_loop now attrs ca).updated;
        actual = false;
      }
  unfolding update_loop
  update_again [] h k = refl
  update_again (a ∷ attrs) h k = ground (arith, check_again a h.0 k.0, update_again attrs h.1 k.1)

-- For a simple value, stored attributes, and metadata that are unambiguous (same name and type, same
-- value) in the request and in the attributes: to repeat updateAttribute changes no attribute,
-- whatever the time, and is not an actual update.
pub update_attribute-again :
    (now later : ℕ) (attrs : List AttrDoc) (ca : ContextAttribute)
    → ca.compound ≡ none
    → All IsStored attrs
    → IsUnambiguous ca attrs
    → update_attribute later (update_attribute now attrs ca).attrs ca ≡ record {
      attrs = (update_attribute now attrs ca).attrs;
      updated = (update_attribute now attrs ca).updated;
      actual = false;
    }
unfolding update_attribute
update_attribute-again now later attrs ca simple h one =
    update_again now later ca simple one.0 attrs h one.1
