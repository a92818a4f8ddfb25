-- ===== src/Entity/Keys.antt =====
-- The name and the identifier by which MongoCommonUpdate.cpp finds an attribute, and what update,
-- append and delete do to them.
use fiware_orion.Base.{
  ℕ, Str, ◌≡◌, refl, ◌↔◌, ◌⊎◌, ap₂, str_eq, true, List, [], ◌∷◌, map, arith, str_beq_iff,
}
use fiware_orion.Bson.{str_field}
use fiware_orion.Entity.{ContextAttribute, AttrDoc}
use fiware_orion.Entity.CustomMetadata.{get_id}
use fiware_orion.Entity.Attribute.{
  smart_attr_match, is_match, copied_id, check_and_update, update_loop, new_attribute,
}

abbrev pub Key : Type 0
Key = Str × Str

abbrev pub key : AttrDoc → Key
key attr = (str_field attr.name, str_field attr.id)

abbrev pub keys : List AttrDoc → List Key
keys attrs = map key attrs

abbrev pub target : ContextAttribute → Key
target ca = (ca.name, get_id ca)

pub is_match_iff :
    (attr : AttrDoc) (ca : ContextAttribute) → (is_match attr ca ≡ true) ↔ (key attr ≡ target ca)
unfolding is_match smart_attr_match
is_match_iff attr ca =
    ground (
      arith,
      str_beq_iff (str_field attr.name) ca.name,
      str_beq_iff (str_field attr.id) (get_id ca),
    )

pub str_field-copied_id : (attr : AttrDoc) → str_field (copied_id attr) ≡ str_field attr.id
unfolding copied_id str_field
str_field-copied_id attr = ground (arith, str_beq_iff (str_field attr.id) [])

pub key-check_and_update :
    (now : ℕ) (attr : AttrDoc) (ca : ContextAttribute)
    → key (check_and_update now attr ca).new_attr ≡ key attr
unfolding check_and_update str_field
key-check_and_update now attr ca = ground (arith, str_field-copied_id attr)

pub keys-update_loop :
    (now : ℕ) (attrs : List AttrDoc) (ca : ContextAttribute)
    → keys (update_loop now attrs ca).attrs ≡ keys attrs
unfolding update_loop
keys-update_loop now [] ca = refl
keys-update_loop now (attr ∷ attrs) ca =
    ap₂ ◌∷◌ (key-check_and_update now attr ca) (keys-update_loop now attrs ca)

-- One of the keys is `k`.
abbrev pub HasKey : Key → List Key → Type 0
HasKey k [] = ⊥
HasKey k (j ∷ ks) = (j ≡ k) ⊎ HasKey k ks

pub updated-update_loop_iff :
    (now : ℕ) (attrs : List AttrDoc) (ca : ContextAttribute)
    → ((update_loop now attrs ca).updated ≡ true) ↔ HasKey (target ca) (keys attrs)
unfolding update_loop check_and_update
updated-update_loop_iff now [] ca = ground arith
updated-update_loop_iff now (attr ∷ attrs) ca =
    ground (arith, is_match_iff attr ca, updated-update_loop_iff now attrs ca)

pub key-new_attribute : (now : ℕ) (ca : ContextAttribute) → key (new_attribute now ca) ≡ target ca
unfolding new_attribute str_field
key-new_attribute now ca = ground (arith, str_beq_iff (get_id ca) [])
