-- ===== src/Entity/Stored.antt =====
-- The attribute with a given key in `attrs`, and the attributes that MongoCommonUpdate.cpp copies whole.
use mathlib.Core.Option
use fiware_orion.Base.{
  ℕ, ◌≡◌, refl, ◌↔◌, inl, inr, ◌≢◌, ◌==◌, str_eq, Bool, true, ◌&&◌, Option, none, some, List, [],
  ◌∷◌, All, arith, if◌then◌else◌, str_beq_iff, Bool-cases,
}
use fiware_orion.Bson.{other, str_field}
use fiware_orion.Entity.{ContextAttribute, AttrDoc, MdDoc}
use fiware_orion.Entity.CustomMetadata.{
  get_id, bson_custom_metadata, md_field, context_attribute_custom_metadata,
}
use fiware_orion.Entity.Attribute.{
  is_match, copied_id, copied_value, compound_value_bson, value_bson, updated_metadata,
  check_and_update, update_loop, new_attribute,
}
use fiware_orion.Entity.Keys.{Key, key, target, is_match_iff, key-check_and_update}

abbrev pub is_key : Key → AttrDoc → Bool
is_key k attr = str_field attr.name == k.0 && str_field attr.id == k.1

pub is_key_iff : (k : Key) (attr : AttrDoc) → (is_key k attr ≡ true) ↔ (key attr ≡ k)
is_key_iff k attr =
    ground (arith, str_beq_iff (str_field attr.name) k.0, str_beq_iff (str_field attr.id) k.1)

-- The first attribute with the key `k`.
unfoldable pub find : Key → List AttrDoc → Option AttrDoc
find k [] = none
find k (attr ∷ attrs) = if is_key k attr then some attr else find k attrs

-- An attribute as the broker stores it.
pub record IsStored (attr : AttrDoc) : Type 0 where
  pub named : attr.name ≢ none
  pub identified : attr.id ≢ some []
  pub valued : attr.value ≢ some other
  pub described : attr.md ≢ some []

pub copied_id-eq_self : (attr : AttrDoc) → IsStored attr → copied_id attr ≡ attr.id
unfolding copied_id str_field
copied_id-eq_self attr h = ground (arith, str_beq_iff (str_field attr.id) [])

pub copied_value-eq_self : (attr : AttrDoc) → IsStored attr → copied_value attr.value ≡ attr.value
unfolding copied_value
copied_value-eq_self attr h = ground arith

pub md-eq_self : (attr : AttrDoc) → IsStored attr → bson_custom_metadata attr.md ≡ attr.md
unfolding bson_custom_metadata
md-eq_self attr h = ground arith

pub name-eq_self : (attr : AttrDoc) → IsStored attr → some (str_field attr.name) ≡ attr.name
unfolding str_field
name-eq_self attr h = ground arith

-- checkAndUpdate leaves a stored attribute alone that is not the one to update.
pub check_and_update-other :
    (now : ℕ) (attr : AttrDoc) (ca : ContextAttribute)
    → IsStored attr
    → key attr ≢ target ca
    → (check_and_update now attr ca).new_attr ≡ attr
unfolding check_and_update
check_and_update-other now attr ca h ne = ground (
  arith,
  is_match_iff attr ca,
  copied_id-eq_self attr h,
  copied_value-eq_self attr h,
  md-eq_self attr h,
  name-eq_self attr h,
)

pub find-update_loop :
    (now : ℕ) (k : Key) (attrs : List AttrDoc) (ca : ContextAttribute)
    → find k (update_loop now attrs ca).attrs
      ≡ Option.map (λ a. (check_and_update now a ca).new_attr) (find k attrs)
unfolding find update_loop
find-update_loop now k [] ca = refl
find-update_loop now k (attr ∷ attrs) ca = ground (
  arith,
  find-update_loop now k attrs ca,
  is_key_iff k attr,
  is_key_iff k (check_and_update now attr ca).new_attr,
  key-check_and_update now attr ca,
)

-- An attribute that is not updated is found as it was.
pub find-update_loop_ne :
    (now : ℕ) (k : Key) (attrs : List AttrDoc) (ca : ContextAttribute)
    → All IsStored attrs
    → k ≢ target ca
    → find k (update_loop now attrs ca).attrs ≡ find k attrs
unfolding update_loop find
find-update_loop_ne now k [] ca h ne = refl
find-update_loop_ne now k (attr ∷ attrs) ca h ne = ground (
  arith,
  find-update_loop_ne now k attrs ca h.1 ne,
  is_key_iff k attr,
  is_key_iff k (check_and_update now attr ca).new_attr,
  key-check_and_update now attr ca,
  check_and_update-other now attr ca h.0,
)

pub value_bson-ne-other : (ca : ContextAttribute) → value_bson ca ≢ some other
unfolding value_bson compound_value_bson
value_bson-ne-other ca = ground arith

md_field-ne-nil : (mds : List MdDoc) → md_field mds ≢ some []
unfolding md_field
md_field-ne-nil [] = cc
md_field-ne-nil (m ∷ mds) = cc

copied_id-ne-nil : (attr : AttrDoc) → copied_id attr ≢ some []
unfolding copied_id
copied_id-ne-nil attr = ground (arith, str_beq_iff (str_field attr.id) [])

pub check_and_update-IsStored :
    (now : ℕ) (attr : AttrDoc) (ca : ContextAttribute)
    → IsStored attr
    → IsStored (check_and_update now attr ca).new_attr
unfolding check_and_update
check_and_update-IsStored now attr ca h = elim (Bool-cases (is_match attr ca)) [
  | inl m ↦ rw m (record {
    named = cc;
    identified = copied_id-ne-nil attr;
    valued = value_bson-ne-other ca;
    described = md_field-ne-nil (updated_metadata attr ca);
  })
  | inr n ↦ rw n (record {
    named = cc;
    identified = copied_id-ne-nil attr;
    valued = rw (copied_value-eq_self attr h) h.valued;
    described = rw (md-eq_self attr h) h.described;
  })
]

pub new_attribute-IsStored : (now : ℕ) (ca : ContextAttribute) → IsStored (new_attribute now ca)
unfolding new_attribute context_attribute_custom_metadata
new_attribute-IsStored now ca = record {
  named = cc;
  identified = ground (arith, str_beq_iff (get_id ca) []);
  valued = value_bson-ne-other ca;
  described = md_field-ne-nil _;
}

pub update_loop-IsStored :
    (now : ℕ) (attrs : List AttrDoc) (ca : ContextAttribute)
    → All IsStored attrs
    → All IsStored (update_loop now attrs ca).attrs
unfolding update_loop
update_loop-IsStored now [] ca h = tt
update_loop-IsStored now (attr ∷ attrs) ca h =
    (check_and_update-IsStored now attr ca h.0, update_loop-IsStored now attrs ca h.1)
