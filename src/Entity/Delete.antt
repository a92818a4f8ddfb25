-- ===== src/Entity/Delete.antt =====
-- What deleteAttribute of MongoCommonUpdate.cpp does to the attributes.
use mathlib.Core.Option
use fiware_orion.Base.{
  ◌≡◌, refl, ◌∙◌, ◌↔◌, ◌⊎◌, inl, inr, ◌≢◌, ap₂, subst, str_eq, Bool, true, false, some, List, [],
  ◌∷◌, map, any, All, arith, if◌then◌else◌, Bool-cases,
}
use fiware_orion.Bson.{text, other, str_field, bson_string}
use fiware_orion.Entity.{ContextAttribute, AttrDoc}
use fiware_orion.Entity.CustomMetadata.{bson_custom_metadata}
use fiware_orion.Entity.Attribute.{
  is_match, copied_id, check_and_delete, delete_loop, delete_attribute, empty_attr,
}
use fiware_orion.Entity.Keys.{Key, key, keys, target, is_match_iff, HasKey, str_field-copied_id}
use fiware_orion.Entity.Stored.{is_key, is_key_iff, find, IsStored, copied_id-eq_self, md-eq_self}
use fiware_orion.Entity.Consistent.{
  IsConsistent, remove_key, absent_of_IsCompatible, remove_key-IsConsistent, HasKey-remove_key_iff,
}

-- What is left of an attribute when another one is deleted.
abbrev pub rewritten : AttrDoc → AttrDoc
rewritten a = record {
  name = some (str_field a.name);
  id = copied_id a;
  type = some (str_field a.type);
  value = some (text (bson_string a.value));
  md = bson_custom_metadata a.md;
  cre_date = a.cre_date;
  mod_date = a.mod_date;
}

key-rewritten : (a : AttrDoc) → key (rewritten a) ≡ key a
unfolding str_field
key-rewritten a = ground (arith, str_field-copied_id a)

delete-cases :
    (a : AttrDoc) (ca : ContextAttribute)
    → ((is_match a ca ≡ true) × (check_and_delete a ca ≡ (empty_attr, true)))
      ⊎ ((is_match a ca ≡ false) × (check_and_delete a ca ≡ (rewritten a, false)))
unfolding check_and_delete
delete-cases a ca = elim (Bool-cases (is_match a ca)) [
  | inl y ↦ inl (y, rw y)
  | inr n ↦ inr (n, rw n)
]

-- Where no attribute matches, all are rewritten.
delete_loop-absent :
    (deleted : Bool) (attrs : List AttrDoc) (ca : ContextAttribute)
    → ¬ HasKey (target ca) (keys attrs)
    → delete_loop deleted attrs ca ≡ (map rewritten attrs, deleted)
unfolding delete_loop
delete_loop-absent deleted [] ca missing = refl
delete_loop-absent deleted (a ∷ attrs) ca missing =
    ground
      (arith, delete-cases a ca, is_match_iff a ca, delete_loop-absent deleted attrs ca, missing)

-- The list without its first attribute of key `t`, the others rewritten.
unfoldable pub without : Key → List AttrDoc → List AttrDoc
without t [] = []
without t (a ∷ attrs) = if is_key t a then map rewritten attrs else rewritten a ∷ without t attrs

-- Of a consistent entity the one match is left out.
delete_loop-eq :
    (attrs : List AttrDoc) (ca : ContextAttribute)
    → IsConsistent (keys attrs)
    → delete_loop false attrs ca ≡ (without (target ca) attrs, any (is_key (target ca)) attrs)
unfolding delete_loop without any
delete_loop-eq [] ca c = refl
delete_loop-eq (a ∷ attrs) ca c = elim (delete-cases a ca) [
  | inl (y, e) ↦
      let t = (is_match_iff a ca).0 y in
      let missing =
        subst (λ k. ¬ HasKey k (keys attrs)) t (absent_of_IsCompatible (key a) (keys attrs) c.0) in
      ground (arith, e, is_key_iff (target ca) a, t, delete_loop-absent true attrs ca missing)
  | inr (n, e) ↦
      ground (arith, n, e, is_match_iff a ca, is_key_iff (target ca) a, delete_loop-eq attrs ca c.1)
]

keys-rewritten : (attrs : List AttrDoc) → keys (map rewritten attrs) ≡ keys attrs
keys-rewritten [] = refl
keys-rewritten (a ∷ attrs) = ap₂ ◌∷◌ (key-rewritten a) (keys-rewritten attrs)

keys-without : (t : Key) (attrs : List AttrDoc) → keys (without t attrs) ≡ remove_key t (keys attrs)
unfolding without remove_key
keys-without t [] = refl
keys-without t (a ∷ attrs) = elim (Bool-cases (is_key t a)) [
  | inl y ↦ rw y (keys-rewritten attrs)
  | inr n ↦ rw n (ap₂ ◌∷◌ (key-rewritten a) (keys-without t attrs))
]

find-rewritten :
    (k : Key) (attrs : List AttrDoc)
    → find k (map rewritten attrs) ≡ Option.map rewritten (find k attrs)
unfolding find
find-rewritten k [] = refl
find-rewritten k (a ∷ attrs) =
    ground
      (arith, is_key_iff k a, is_key_iff k (rewritten a), key-rewritten a, find-rewritten k attrs)

find-without :
    (t k : Key) (attrs : List AttrDoc)
    → k ≢ t
    → find k (without t attrs) ≡ Option.map rewritten (find k attrs)
unfolding find without
find-without t k [] ne = refl
find-without t k (a ∷ attrs) ne = elim (Bool-cases (is_key t a)) [
  | inl y ↦ rw y (find-rewritten k attrs ∙ ground (arith, is_key_iff t a, is_key_iff k a))
  | inr n ↦ rw n (
      ground (
        arith,
        is_key_iff k a,
        is_key_iff k (rewritten a),
        key-rewritten a,
        find-without t k attrs ne,
      ))
]

any-is_key_iff :
    (t : Key) (attrs : List AttrDoc) → (any (is_key t) attrs ≡ true) ↔ HasKey t (keys attrs)
unfolding any
any-is_key_iff t [] = ground arith
any-is_key_iff t (a ∷ attrs) = ground (arith, is_key_iff t a, any-is_key_iff t attrs)

rewritten-IsStored : (a : AttrDoc) → IsStored a → IsStored (rewritten a)
rewritten-IsStored a h = record {
  named = cc;
  identified = rw (copied_id-eq_self a h) h.identified;
  valued = λ e. value_is_text e;
  described = rw (md-eq_self a h) h.described;
}
  where
    value_is_text : (rewritten a).value ≢ some other
    value_is_text = cc

map-rewritten-IsStored :
    (attrs : List AttrDoc) → All IsStored attrs → All IsStored (map rewritten attrs)
map-rewritten-IsStored [] h = tt
map-rewritten-IsStored (a ∷ attrs) h = (rewritten-IsStored a h.0, map-rewritten-IsStored attrs h.1)

without-IsStored :
    (t : Key) (attrs : List AttrDoc) → All IsStored attrs → All IsStored (without t attrs)
unfolding without
without-IsStored t [] h = tt
without-IsStored t (a ∷ attrs) h = elim (Bool-cases (is_key t a)) [
  | inl y ↦ rw y (map-rewritten-IsStored attrs h.1)
  | inr n ↦ rw n (rewritten-IsStored a h.0, without-IsStored t attrs h.1)
]

module _ (attrs : List AttrDoc) (ca : ContextAttribute) (c : IsConsistent (keys attrs)) where
  -- On consistent keys deleteAttribute returns true exactly if there is an attribute with the key of
  -- the request; the keys left are those before without that one, and they are consistent.
  pub delete_attribute-keys :
      ((delete_attribute attrs ca).1 ≡ true ↔ HasKey (target ca) (keys attrs))
      × (keys (delete_attribute attrs ca).0 ≡ remove_key (target ca) (keys attrs))
      × IsConsistent (keys (delete_attribute attrs ca).0)
  unfolding delete_attribute
  delete_attribute-keys =
      rw (delete_loop-eq attrs ca c, keys-without (target ca) attrs)
        (any-is_key_iff (target ca) attrs, refl, remove_key-IsConsistent (target ca) (keys attrs) c)

  pub delete_attribute-HasKey :
      (k : Key)
      → HasKey k (keys (delete_attribute attrs ca).0) ↔ (HasKey k (keys attrs) × (k ≢ target ca))
  delete_attribute-HasKey k =
      rw (delete_attribute-keys.1) (HasKey-remove_key_iff (target ca) k (keys attrs) c)

  -- On consistent keys, an attribute with another key than the request's is still there after
  -- deleteAttribute, but rewritten: its type is the empty string if it had none, and its value is
  -- the empty string if it was an object or an array. Name, dates and metadata are kept.
  pub delete_attribute-others :
      (k : Key) (a : AttrDoc)
      → k ≢ target ca
      → find k attrs ≡ some a
      → find k (delete_attribute attrs ca).0 ≡ some (rewritten a)
  unfolding delete_attribute
  delete_attribute-others k a ne e =
      rw (delete_loop-eq attrs ca c) (find-without (target ca) k attrs ne ∙ rw e)

  pub delete_attribute-IsStored : All IsStored attrs → All IsStored (delete_attribute attrs ca).0
  unfolding delete_attribute
  delete_attribute-IsStored h =
      rw (delete_loop-eq attrs ca c) (without-IsStored (target ca) attrs h)
