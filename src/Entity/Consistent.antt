-- ===== src/Entity/Consistent.antt =====
-- The keys of an entity stay consistent: what legalIdUsage of MongoCommonUpdate.cpp guards.
use fiware_orion.Base.{
  ℕ, ◌≡◌, refl, ◌↔◌, ◌⊎◌, inl, inr, ◌≢◌, ap, ◌==◌, str_eq, true, ◌&&◌, List, [], ◌∷◌, ◌++◌, any,
  All, arith, if◌then◌else◌, str_beq_iff, Bool-cases, All-append,
}
use fiware_orion.Bson.{str_field}
use fiware_orion.Entity.{ContextAttribute, AttrDoc}
use fiware_orion.Entity.CustomMetadata.{get_id}
use fiware_orion.Entity.Attribute.{update_loop, update_attribute, new_attribute, append_attribute}
use fiware_orion.Entity.Attribute.{legal_id_usage}
use fiware_orion.Entity.Keys.{
  Key, key, keys, target, HasKey, keys-update_loop, updated-update_loop_iff, key-new_attribute,
}

-- Two attributes of one name both have an identifier, and not the same.
abbrev pub IsCompatible : Key → Key → Type 0
IsCompatible k j = (k.0 ≢ j.0) ⊎ ((k.1 ≢ []) × (j.1 ≢ []) × (k.1 ≢ j.1))

abbrev pub IsConsistent : List Key → Type 0
IsConsistent [] = Unit
IsConsistent (k ∷ ks) = All (IsCompatible k) ks × IsConsistent ks

legal_IsCompatible :
    (attrs : List AttrDoc) (ca : ContextAttribute)
    → legal_id_usage attrs ca ≡ true
    → ¬ HasKey (target ca) (keys attrs)
    → All (λ j. IsCompatible j (target ca)) (keys attrs)
unfolding legal_id_usage any
legal_IsCompatible [] ca l missing = tt
legal_IsCompatible (attr ∷ attrs) ca l missing = (
  ground (
    arith,
    missing,
    str_beq_iff (get_id ca) [],
    str_beq_iff (str_field attr.name) ca.name,
    str_beq_iff (str_field attr.id) [],
  ),
  legal_IsCompatible attrs ca (ground arith) (λ h. missing (inr h)),
)

append-IsConsistent :
    (ks : List Key) (k : Key)
    → IsConsistent ks
    → All (λ j. IsCompatible j k) ks
    → IsConsistent (ks ++ k ∷ [])
append-IsConsistent [] k c h = (tt, tt)
append-IsConsistent (j ∷ ks) k c h =
    (All-append (IsCompatible j) ks (k ∷ []) c.0 (h.0, tt), append-IsConsistent ks k c.1 h.1)

pub keys-append : (xs : List AttrDoc) (a : AttrDoc) → keys (xs ++ a ∷ []) ≡ keys xs ++ key a ∷ []
keys-append [] a = refl
keys-append (x ∷ xs) a = ap (◌∷◌ (key x)) (keys-append xs a)

-- The two keys of an update.
pub update_attribute-IsConsistent :
    (now : ℕ) (attrs : List AttrDoc) (ca : ContextAttribute)
    → IsConsistent (keys attrs)
    → IsConsistent (keys (update_attribute now attrs ca).attrs)
unfolding update_attribute
update_attribute-IsConsistent now attrs ca c = rw (keys-update_loop now attrs ca) c

-- Append.
pub append_attribute-IsConsistent :
    (now : ℕ) (attrs : List AttrDoc) (ca : ContextAttribute)
    → IsConsistent (keys attrs)
    → legal_id_usage attrs ca ≡ true
    → IsConsistent (keys (append_attribute now attrs ca).0)
unfolding append_attribute
append_attribute-IsConsistent now attrs ca c l =
    elim (Bool-cases (update_loop now attrs ca).updated) [
      | inl y ↦ rw (y, keys-update_loop now attrs ca) c
      | inr n ↦
          rw
            (
              n,
              keys-append (update_loop now attrs ca).attrs (new_attribute now ca),
              keys-update_loop now attrs ca,
              key-new_attribute now ca,
            )
            (append-IsConsistent (keys attrs) (target ca) c (
              legal_IsCompatible attrs ca l
                (λ h. cc (n, (updated-update_loop_iff now attrs ca).1 h))))
    ]

-- The list without the first `t`.
unfoldable pub remove_key : Key → List Key → List Key
remove_key t [] = []
remove_key t (k ∷ ks) = if k.0 == t.0 && k.1 == t.1 then ks else k ∷ remove_key t ks

pub key_eq_iff : (k t : Key) → ((k.0 == t.0 && k.1 == t.1) ≡ true) ↔ (k ≡ t)
key_eq_iff k t = ground (arith, str_beq_iff k.0 t.0, str_beq_iff k.1 t.1)

remove_key-All : (P : Key → Type 0) (t : Key) (ks : List Key) → All P ks → All P (remove_key t ks)
unfolding remove_key
remove_key-All P t [] h = tt
remove_key-All P t (k ∷ ks) h = elim (Bool-cases (k.0 == t.0 && k.1 == t.1)) [
  | inl y ↦ rw y h.1
  | inr n ↦ rw n (h.0, remove_key-All P t ks h.1)
]

pub remove_key-IsConsistent :
    (t : Key) (ks : List Key) → IsConsistent ks → IsConsistent (remove_key t ks)
unfolding remove_key
remove_key-IsConsistent t [] c = tt
remove_key-IsConsistent t (k ∷ ks) c = elim (Bool-cases (k.0 == t.0 && k.1 == t.1)) [
  | inl y ↦ rw y c.1
  | inr n ↦ rw n (remove_key-All (IsCompatible k) t ks c.0, remove_key-IsConsistent t ks c.1)
]

-- In a consistent list no key stands twice.
pub absent_of_IsCompatible : (k : Key) (ks : List Key) → All (IsCompatible k) ks → ¬ HasKey k ks
absent_of_IsCompatible k [] c h = h
absent_of_IsCompatible k (j ∷ ks) c (inl e) = ground (arith, c.0, e)
absent_of_IsCompatible k (j ∷ ks) c (inr h) = absent_of_IsCompatible k ks c.1 h

pub HasKey-remove_key_iff :
    (t k : Key) (ks : List Key)
    → IsConsistent ks
    → HasKey k (remove_key t ks) ↔ (HasKey k ks × (k ≢ t))
unfolding remove_key
HasKey-remove_key_iff t k [] c = (λ h. absurd h, λ h. h.0)
HasKey-remove_key_iff t k (j ∷ ks) c =
    ground
      (arith, key_eq_iff j t, HasKey-remove_key_iff t k ks c.1, absent_of_IsCompatible j ks c.0)
