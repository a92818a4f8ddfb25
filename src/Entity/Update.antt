-- ===== src/Entity/Update.antt =====
-- What updateAttribute and appendAttribute of MongoCommonUpdate.cpp do to the attributes.
use fiware_orion.Base.{
  ℕ, Str, Option, str_beq_iff, ◌⊎◌, ◌≡◌, refl, ◌∙◌, inl, inr, ◌≢◌, ◌==◌, str_eq, true, false, none,
  some, List, [], ◌∷◌, ◌++◌, All, arith, if◌then◌else◌, Bool-cases, Option-cases, All-append,
}
use fiware_orion.Entity.{ContextAttribute, MdDoc, AttrDoc}
use fiware_orion.Entity.CustomMetadata.{md_field}
use fiware_orion.Entity.Effect.{
  AreMetadata, IsActual, updated_metadata-AreMetadata, is_actual_update_iff,
}
use fiware_orion.Entity.Attribute.{
  value_bson, stored_metadata, updated_type, updated_metadata, is_actual_update, check_and_update,
  update_loop, update_attribute, new_attribute, append_attribute,
}
use fiware_orion.Entity.Keys.{
  Key, key, keys, target, is_match_iff, HasKey, keys-update_loop, updated-update_loop_iff,
  key-new_attribute,
}
use fiware_orion.Entity.Stored.{
  is_key, is_key_iff, find, IsStored, find-update_loop, find-update_loop_ne, update_loop-IsStored,
  new_attribute-IsStored,
}

pub find-key : (k : Key) (attrs : List AttrDoc) (a : AttrDoc) → find k attrs ≡ some a → key a ≡ k
unfolding find
find-key k [] a e = cc
find-key k (attr ∷ attrs) a e = elim (Bool-cases (is_key k attr)) [
  | inl y ↦ ground (arith, is_key_iff k attr)
  | inr n ↦ find-key k attrs a (rw (n, find) at e)
]

pub find-HasKey :
    (k : Key) (attrs : List AttrDoc) (a : AttrDoc) → find k attrs ≡ some a → HasKey k (keys attrs)
unfolding find
find-HasKey k [] a e = cc
find-HasKey k (attr ∷ attrs) a e = elim (Bool-cases (is_key k attr)) [
  | inl y ↦ inl ((is_key_iff k attr).0 y)
  | inr n ↦ inr (find-HasKey k attrs a (rw (n, find) at e))
]

find-append :
    (k : Key) (xs ys : List AttrDoc)
    → find k (xs ++ ys) ≡ elim (find k xs) [ none ↦ find k ys | some a ↦ some a ]
unfolding find
find-append k [] ys = refl
find-append k (x ∷ xs) ys = ground (arith, find-append k xs ys)

pub find_of_HasKey :
    (k : Key) (attrs : List AttrDoc)
    → HasKey k (keys attrs)
    → (a : AttrDoc) × (find k attrs ≡ some a)
unfolding find
find_of_HasKey k [] h = absurd h
find_of_HasKey k (attr ∷ attrs) h = elim (Bool-cases (is_key k attr)) [
  | inl y ↦ (attr, rw y)
  | inr n ↦ rw n (find_of_HasKey k attrs (ground (arith, is_key_iff k attr)))
]

-- What an update makes of the attribute `a`.
pub record IsUpdated (now : ℕ) (ca : ContextAttribute) (a b : AttrDoc) : Type 0 where
  pub value : b.value ≡ value_bson ca
  pub type : b.type ≡ (if ca.type == [] then a.type else some ca.type)
  pub md : b.md ≡ md_field (updated_metadata a ca)
  pub cre_date : b.cre_date ≡ a.cre_date
  pub mod_date : b.mod_date ≡ (if is_actual_update a ca then some now else a.mod_date)

pub check_and_update-IsUpdated :
    (now : ℕ) (a : AttrDoc) (ca : ContextAttribute)
    → key a ≡ target ca
    → IsUpdated now ca a (check_and_update now a ca).new_attr
unfolding check_and_update updated_type
check_and_update-IsUpdated now a ca e =
    rw ((is_match_iff a ca).1 e)
      (record { value = refl; type = refl; md = refl; cre_date = refl; mod_date = refl })

find-IsUpdated :
    (now : ℕ) (attrs : List AttrDoc) (ca : ContextAttribute) (a : AttrDoc)
    → find (target ca) attrs ≡ some a
    → (b : AttrDoc) × (find (target ca) (update_loop now attrs ca).attrs ≡ some b)
      × IsUpdated now ca a b
find-IsUpdated now attrs ca a e = (
  (check_and_update now a ca).new_attr,
  find-update_loop now (target ca) attrs ca ∙ rw e,
  check_and_update-IsUpdated now a ca (find-key (target ca) attrs a e),
)

-- The effect of an update on the attribute `a`. An empty array of metadata is not stored.
pub record IsEffect (now : ℕ) (ca : ContextAttribute) (a b : AttrDoc) : Type 0 where
  pub value : b.value ≡ value_bson ca
  pub type : ((ca.type ≡ []) × (b.type ≡ a.type)) ⊎ ((ca.type ≢ []) × (b.type ≡ some ca.type))
  pub cre_date : b.cre_date ≡ a.cre_date
  pub new_metadata : List MdDoc
  pub md :
      ((new_metadata ≡ []) × (b.md ≡ none)) ⊎ ((new_metadata ≢ []) × (b.md ≡ some new_metadata))
  pub metadata : AreMetadata ca (stored_metadata a) new_metadata
  pub mod_date :
      (IsActual ca a (stored_metadata a) new_metadata × (b.mod_date ≡ some now))
      ⊎ ((IsActual ca a (stored_metadata a) new_metadata → ⊥) × (b.mod_date ≡ a.mod_date))

md_field-cases :
    (l : List MdDoc) → ((l ≡ []) × (md_field l ≡ none)) ⊎ ((l ≢ []) × (md_field l ≡ some l))
unfolding md_field
md_field-cases [] = inl (refl, refl)
md_field-cases (d ∷ l) = inr ((λ e. ground (arith, e)), refl)

type-cases :
    (ca : ContextAttribute) (a : AttrDoc) (t : Option Str)
    → t ≡ (if ca.type == [] then a.type else some ca.type)
    → ((ca.type ≡ []) × (t ≡ a.type)) ⊎ ((ca.type ≢ []) × (t ≡ some ca.type))
type-cases ca a t e = elim (Bool-cases (ca.type == [])) [
  | inl y ↦ inl ((str_beq_iff ca.type []).0 y, e ∙ rw y refl)
  | inr n ↦ inr ((λ k. absurd (ground (arith, n, (str_beq_iff ca.type []).1 k))), e ∙ rw n refl)
]

IsEffect-IsUpdated :
    (now : ℕ) (ca : ContextAttribute) (a b : AttrDoc) → IsUpdated now ca a b → IsEffect now ca a b
IsEffect-IsUpdated now ca a b u = record {
  value = u.value;
  type = type-cases ca a b.type u.type;
  cre_date = u.cre_date;
  new_metadata = updated_metadata a ca;
  md = rw u.md (md_field-cases (updated_metadata a ca));
  metadata = updated_metadata-AreMetadata a ca;
  mod_date = elim (Bool-cases (is_actual_update a ca)) [
    | inl y ↦ inl ((is_actual_update_iff a ca).0 y, u.mod_date ∙ rw y refl)
    | inr n ↦
        inr (
          (λ k. absurd (ground (arith, n, (is_actual_update_iff a ca).1 k))),
          u.mod_date ∙ rw n refl,
        )
  ];
}

module _ (now : ℕ) (attrs : List AttrDoc) (ca : ContextAttribute) where
  -- If the attribute is there, updateAttribute returns true and the attribute of that key gets the
  -- value of the request and its type, unless that is empty, and keeps its creation date. Its metadata are
  -- the custom ones of the request in their order, then the stored ones for which the request has none of the same name and type; an
  -- empty array is not stored. Its modification date is the time if the update is an actual one, and is kept otherwise. An update is an actual one exactly
  -- if the value is compound, no value is stored, the text of the stored one is another, the type of the request is not empty
  -- and not the stored one, the number of metadata changes, or a stored one gets another value.
  pub update_attribute-target :
      (a : AttrDoc)
      → find (target ca) attrs ≡ some a
      → ((update_attribute now attrs ca).updated ≡ true)
        × ((b : AttrDoc) × (find (target ca) (update_attribute now attrs ca).attrs ≡ some b)
            × IsEffect now ca a b)
  unfolding update_attribute
  update_attribute-target a e =
      let (b, there, u) = find-IsUpdated now attrs ca a e in
      (
        (updated-update_loop_iff now attrs ca).1 (find-HasKey (target ca) attrs a e),
        (b, there, IsEffect-IsUpdated now ca a b u),
      )

  -- Of stored attributes, those with another key than the request's are found unchanged after
  -- updateAttribute, and the keys are the same in the same order.
  pub update_attribute-frame :
      All IsStored attrs
      → (k : Key) → k ≢ target ca
      → (keys (update_attribute now attrs ca).attrs ≡ keys attrs)
        × (find k (update_attribute now attrs ca).attrs ≡ find k attrs)
  unfolding update_attribute
  update_attribute-frame h k ne =
      (keys-update_loop now attrs ca, find-update_loop_ne now k attrs ca h ne)

  pub update_attribute-IsStored :
      All IsStored attrs → All IsStored (update_attribute now attrs ca).attrs
  unfolding update_attribute
  update_attribute-IsStored h = update_loop-IsStored now attrs ca h

  absent : ¬ HasKey (target ca) (keys attrs) → (update_loop now attrs ca).updated ≡ false
  absent missing = elim (Bool-cases (update_loop now attrs ca).updated) [
    | inl y ↦ absurd (missing ((updated-update_loop_iff now attrs ca).0 y))
    | inr n ↦ n
  ]

  pub append-absent :
      ¬ HasKey (target ca) (keys attrs)
      → append_attribute now attrs ca
        ≡ ((update_loop now attrs ca).attrs ++ new_attribute now ca ∷ [], true)
  unfolding append_attribute
  append-absent missing = rw (absent missing)

  pub append-present :
      HasKey (target ca) (keys attrs)
      → append_attribute now attrs ca
        ≡ ((update_loop now attrs ca).attrs, (update_loop now attrs ca).actual)
  unfolding append_attribute
  append-present yes' = rw ((updated-update_loop_iff now attrs ca).1 yes')

  find-new : (k : Key) → k ≢ target ca → find k (new_attribute now ca ∷ []) ≡ none
  unfolding find
  find-new k ne = ground (arith, is_key_iff k (new_attribute now ca), key-new_attribute now ca)

  find-new_self : find (target ca) (new_attribute now ca ∷ []) ≡ some (new_attribute now ca)
  unfolding find
  find-new_self =
      ground (arith, is_key_iff (target ca) (new_attribute now ca), key-new_attribute now ca)

  -- Of stored attributes, those with another key than the request's are found unchanged after
  -- appendAttribute.
  pub append_attribute-frame :
      All IsStored attrs
      → (k : Key) → k ≢ target ca
      → find k (append_attribute now attrs ca).0 ≡ find k attrs
  unfolding append_attribute
  append_attribute-frame h k ne = elim (Bool-cases (update_loop now attrs ca).updated) [
    | inl y ↦ rw y (find-update_loop_ne now k attrs ca h ne)
    | inr n ↦ rw n (
        find-append k (update_loop now attrs ca).attrs (new_attribute now ca ∷ [])
        ∙ ground (arith, find-update_loop_ne now k attrs ca h ne, find-new k ne))
  ]

  value-new : (new_attribute now ca).value ≡ value_bson ca
  unfolding new_attribute
  value-new = refl

  missing_before :
      (update_loop now attrs ca).updated ≡ false
      → find (target ca) (update_loop now attrs ca).attrs ≡ none
  missing_before n = elim (Option-cases (find (target ca) (update_loop now attrs ca).attrs)) [
    | inl e ↦ e
    | inr (a, e) ↦
        let there = find-HasKey (target ca) (update_loop now attrs ca).attrs a e in
        let before = rw (keys-update_loop now attrs ca) at there in
        absurd (cc (n, (updated-update_loop_iff now attrs ca).1 before))
  ]

  -- After appendAttribute there is an attribute with the key of the request, whether it was there or
  -- not, and it has the value of the request.
  pub append_attribute-target :
      (b : AttrDoc) × (find (target ca) (append_attribute now attrs ca).0 ≡ some b)
      × (b.value ≡ value_bson ca)
  unfolding append_attribute
  append_attribute-target = elim (Bool-cases (update_loop now attrs ca).updated) [
    | inl y ↦
        let (a, e) =
          find_of_HasKey (target ca) attrs ((updated-update_loop_iff now attrs ca).0 y) in
        let (b, f, u) = find-IsUpdated now attrs ca a e in rw y (b, f, u.value)
    | inr n ↦ rw n (
      new_attribute now ca,
      find-append (target ca) (update_loop now attrs ca).attrs (new_attribute now ca ∷ [])
          ∙ rw (missing_before n) find-new_self,
      value-new,
    )
  ]

  pub append_attribute-IsStored :
      All IsStored attrs → All IsStored (append_attribute now attrs ca).0
  unfolding append_attribute
  append_attribute-IsStored h = elim (Bool-cases (update_loop now attrs ca).updated) [
    | inl y ↦ rw y (update_loop-IsStored now attrs ca h)
    | inr n ↦ rw n (
        All-append IsStored (update_loop now attrs ca).attrs (new_attribute now ca ∷ [])
          (update_loop-IsStored now attrs ca h) (new_attribute-IsStored now ca, tt))
  ]
