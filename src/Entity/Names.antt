-- ===== src/Entity/Names.antt =====
-- The names of the attributes of an entity: appendAttribute and deleteAttribute of
-- src/lib/mongoBackend/MongoCommonUpdate.cpp.
use fiware_orion.Base.{
  Str, ◌≡◌, ◌≢◌, refl, ◌⊎◌, inl, inr, str_eq, List, [], ◌∷◌, ◌++◌, arith, Bool-cases, ℕ,
}
use fiware_orion.Entity.{ContextAttribute, AttrDoc}
use fiware_orion.Entity.Attribute.{update_loop, append_attribute, new_attribute}
use fiware_orion.Entity.Keys.{
  Key, keys, target, HasKey, keys-update_loop, updated-update_loop_iff, key-new_attribute,
}
use fiware_orion.Entity.Consistent.{remove_key, key_eq_iff, keys-append}

-- Some key has the name.
abbrev pub HasName : Str → List Key → Type 0
HasName n [] = ⊥
HasName n (k ∷ ks) = (k.0 ≡ n) ⊎ HasName n ks

name_of_key : (k : Key) (ks : List Key) → HasKey k ks → HasName k.0 ks
name_of_key k [] h = elim h [ ]
name_of_key k (j ∷ ks) (inl e) = inl (ground (arith, e))
name_of_key k (j ∷ ks) (inr h) = inr (name_of_key k ks h)

HasName-left : (n : Str) (ks js : List Key) → HasName n ks → HasName n (ks ++ js)
HasName-left n [] js h = elim h [ ]
HasName-left n (k ∷ ks) js (inl e) = inl e
HasName-left n (k ∷ ks) js (inr h) = inr (HasName-left n ks js h)

HasName-last : (k : Key) (ks : List Key) → HasName k.0 (ks ++ k ∷ [])
HasName-last k [] = inl refl
HasName-last k (j ∷ ks) = inr (HasName-last k ks)

pub HasName-remove_key :
    (n : Str) (t : Key) (ks : List Key) → n ≢ t.0 → HasName n ks → HasName n (remove_key t ks)
unfolding remove_key
HasName-remove_key n t [] ne h = elim h [ ]
HasName-remove_key n t (k ∷ ks) ne h =
    ground (arith, key_eq_iff k t, h, HasName-remove_key n t ks ne)

keys-append_attribute :
    (now : ℕ) (attrs : List AttrDoc) (ca : ContextAttribute)
    → ((keys (append_attribute now attrs ca).0 ≡ keys attrs) × HasKey (target ca) (keys attrs))
      ⊎ (keys (append_attribute now attrs ca).0 ≡ keys attrs ++ target ca ∷ [])
unfolding append_attribute
keys-append_attribute now attrs ca = elim (Bool-cases (update_loop now attrs ca).updated) [
  | inl y ↦ rw y (inl (keys-update_loop now attrs ca, (updated-update_loop_iff now attrs ca).0 y))
  | inr n ↦
      rw
        (
          n,
          keys-append (update_loop now attrs ca).attrs (new_attribute now ca),
          keys-update_loop now attrs ca,
          key-new_attribute now ca,
        )
        (inr refl)
]

pub append-own :
    (now : ℕ) (attrs : List AttrDoc) (ca : ContextAttribute)
    → HasName ca.name (keys (append_attribute now attrs ca).0)
append-own now attrs ca = elim (keys-append_attribute now attrs ca) [
  | inl (e, h) ↦ rw e (name_of_key (target ca) (keys attrs) h)
  | inr e ↦ rw e (HasName-last (target ca) (keys attrs))
]

pub append-others :
    (now : ℕ) (n : Str) (attrs : List AttrDoc) (ca : ContextAttribute)
    → HasName n (keys attrs)
    → HasName n (keys (append_attribute now attrs ca).0)
append-others now n attrs ca h = elim (keys-append_attribute now attrs ca) [
  | inl (e, k) ↦ rw e h
  | inr e ↦ rw e (HasName-left n (keys attrs) (target ca ∷ []) h)
]
