-- ===== src/Entity/Effect.antt =====
-- What checkAndUpdate of src/lib/mongoBackend/MongoCommonUpdate.cpp makes of the metadata of an attribute, and when it takes the
-- update for an actual one, said without the loops and the flags of the code.
use fiware_orion.Base.{
  ℕ, Str, ◌≡◌, ◌≢◌, refl, ◌⊎◌, inl, inr, ◌↔◌, ◌==◌, ◌||◌, ◌&&◌, Bool, str_eq, str_beq_iff, nat_eq,
  codes, not, true, false, Option, none, some, List, [], ◌∷◌, ◌++◌, arith, Bool-cases, length,
}
use fiware_orion.Compound.{Node}
use fiware_orion.Bson.{Bson, bson_string, str_field}
use fiware_orion.Registry.Laws.{Some, any_iff}
use fiware_orion.Entity.{Metadata, ContextAttribute, MdDoc, AttrDoc}
use fiware_orion.Entity.CustomMetadata.{
  is_not_custom_metadata, has_metadata, match_metadata, first_match_differs, equal_metadata_vectors,
  ngsi_md_id, ngsi_md_location, ngsi_md_credate, ngsi_md_moddate, md_doc, request_metadata,
  kept_metadata,
}
use fiware_orion.Entity.Attribute.{stored_metadata, updated_metadata, is_some, is_actual_update}

-- The second list has, in the same order, one related member for each member of the first that has the property.
abbrev pub Selects {ℓ κ} :
    {A : Type ℓ} {B : Type κ} → (A → Type 0) → (A → B → Type 0) → List A → List B → Type κ
Selects P R [] l = l ≡ []
Selects {B = B} P R (a ∷ xs) l =
    (P a × ((b : B) × (rest : List B) × (l ≡ b ∷ rest) × R a b × Selects P R xs rest))
    ⊎ ((P a → ⊥) × Selects P R xs l)

abbrev IsCustom : Metadata → Type 0
IsCustom m =
    (m.name ≢ codes "ID")
    × (m.name ≢ codes "location")
    × (m.name ≢ codes "creDate")
    × (m.name ≢ codes "modDate")

-- The stored form: no type for an empty one.
abbrev IsStoredAs : Metadata → MdDoc → Type 0
IsStoredAs m d =
    (d.name ≡ m.name)
    × (d.value ≡ m.value)
    × (((m.type ≡ []) × (d.type ≡ none)) ⊎ ((m.type ≢ []) × (d.type ≡ some m.type)))

-- The request has metadata of this name and type.
abbrev IsNamed : ContextAttribute → MdDoc → Type 0
IsNamed ca d = Some (λ m. (m.name ≡ d.name) × (m.type ≡ str_field d.type)) ca.metadata

-- The new metadata: the custom ones of the request, then those of the stored ones that the request does not name.
abbrev pub AreMetadata : ContextAttribute → List MdDoc → List MdDoc → Type 0
AreMetadata ca old new =
    (mine : List MdDoc) × (theirs : List MdDoc) × (new ≡ mine ++ theirs)
    × Selects IsCustom IsStoredAs ca.metadata mine
    × Selects (λ d. IsNamed ca d → ⊥) ◌≡◌ old theirs

abbrev IsSameMetadata : MdDoc → MdDoc → Type 0
IsSameMetadata d e = (d.name ≡ e.name) × (d.type ≡ e.type)

-- The first one in the list with the name and the type of the stored one has another value.
abbrev IsChangedIn : List MdDoc → MdDoc → Type 0
IsChangedIn [] d = ⊥
IsChangedIn (e ∷ es) d =
    (IsSameMetadata d e × (d.value ≢ e.value)) ⊎ ((IsSameMetadata d e → ⊥) × IsChangedIn es d)

-- A compound value, or a value, a type that is not empty, the number of metadata or a metadata value that is not the stored one.
abbrev pub IsActual : ContextAttribute → AttrDoc → List MdDoc → List MdDoc → Type 0
IsActual ca a old new =
    (ca.compound ≢ none)
    ⊎ (a.value ≡ none)
    ⊎ (bson_string a.value ≢ ca.value)
    ⊎ ((ca.type ≢ []) × (a.type ≢ some ca.type))
    ⊎ (length new ≢ length old)
    ⊎ Some (IsChangedIn new) old

is_not_custom_metadata_iff : (m : Metadata) → (is_not_custom_metadata m.name ≡ false) ↔ IsCustom m
unfolding is_not_custom_metadata
is_not_custom_metadata_iff m = ground (
  arith,
  str_beq_iff m.name ngsi_md_id,
  str_beq_iff m.name ngsi_md_location,
  str_beq_iff m.name ngsi_md_credate,
  str_beq_iff m.name ngsi_md_moddate,
)

md_doc-IsStoredAs : (m : Metadata) → IsStoredAs m (md_doc m)
unfolding md_doc
md_doc-IsStoredAs m = ground (arith, str_beq_iff m.type [])

request_metadata-Selects : (l : List Metadata) → Selects IsCustom IsStoredAs l (request_metadata l)
unfolding request_metadata
request_metadata-Selects [] = refl
request_metadata-Selects (m ∷ l) = elim (Bool-cases (is_not_custom_metadata m.name)) [
  | inl y ↦ rw y (
      inr (
        (λ c. absurd (ground (arith, y, is_not_custom_metadata_iff m, c))),
        request_metadata-Selects l,
      ))
  | inr n ↦ rw n (
      inl (
        (is_not_custom_metadata_iff m).0 n,
        (md_doc m, request_metadata l, refl, md_doc-IsStoredAs m, request_metadata-Selects l),
      ))
]

has_metadata_iff :
    (ca : ContextAttribute) (d : MdDoc)
    → (has_metadata d.name (str_field d.type) ca ≡ true) ↔ IsNamed ca d
unfolding has_metadata
has_metadata_iff ca d =
    any_iff _ _
      (λ m. ground (arith, str_beq_iff m.name d.name, str_beq_iff m.type (str_field d.type)))
      ca.metadata

kept_metadata-Selects :
    (ca : ContextAttribute) (l : List MdDoc)
    → Selects (λ d. IsNamed ca d → ⊥) ◌≡◌ l (kept_metadata ca l)
unfolding kept_metadata
kept_metadata-Selects ca [] = refl
kept_metadata-Selects ca (d ∷ l) = elim (Bool-cases (has_metadata d.name (str_field d.type) ca)) [
  | inl y ↦ rw y (inr ((λ k. k ((has_metadata_iff ca d).0 y)), kept_metadata-Selects ca l))
  | inr n ↦ rw n (
      inl (
        (λ k. absurd (ground (arith, n, has_metadata_iff ca d, k))),
        (d, kept_metadata ca l, refl, refl, kept_metadata-Selects ca l),
      ))
]

pub updated_metadata-AreMetadata :
    (a : AttrDoc) (ca : ContextAttribute)
    → AreMetadata ca (stored_metadata a) (updated_metadata a ca)
unfolding updated_metadata
updated_metadata-AreMetadata a ca = (
  request_metadata ca.metadata,
  kept_metadata ca (stored_metadata a),
  refl,
  request_metadata-Selects ca.metadata,
  kept_metadata-Selects ca (stored_metadata a),
)

types_iff :
    (o p : Option Str) (n m : Str)
    → ((elim o as (λ x. Bool) [
      | some t1 ↦ elim p as (λ x. Bool) [ some t2 ↦ t1 == t2 && n == m | none ↦ false ]
      | none ↦ elim p as (λ x. Bool) [ some t2 ↦ false | none ↦ n == m ]
    ])
        ≡ true)
      ↔ ((n ≡ m) × (o ≡ p))
types_iff none none n m = ground (arith, str_beq_iff n m)
types_iff none (some t) n m = ground arith
types_iff (some t) none n m = ground arith
types_iff (some t1) (some t2) n m = ground (arith, str_beq_iff n m, str_beq_iff t1 t2)

match_metadata_iff : (d e : MdDoc) → (match_metadata d e ≡ true) ↔ IsSameMetadata d e
unfolding match_metadata
match_metadata_iff d e = types_iff d.type e.type d.name e.name

first_match_differs_iff :
    (d : MdDoc) (l : List MdDoc) → (first_match_differs d l ≡ true) ↔ IsChangedIn l d
unfolding first_match_differs
first_match_differs_iff d [] = ground arith
first_match_differs_iff d (e ∷ l) =
    ground (arith, match_metadata_iff d e, first_match_differs_iff d l, str_beq_iff d.value e.value)

equal_metadata_vectors_iff :
    (old new : List MdDoc) → (equal_metadata_vectors old new ≡ false) ↔ Some (IsChangedIn new) old
unfolding equal_metadata_vectors
equal_metadata_vectors_iff [] new = ground arith
equal_metadata_vectors_iff (d ∷ old) new = elim (Bool-cases (first_match_differs d new)) [
  | inl y ↦ rw y ((λ h. inl ((first_match_differs_iff d new).0 y)), (λ h. refl))
  | inr n ↦
      rw n (ground (arith, n, first_match_differs_iff d new, equal_metadata_vectors_iff old new))
]

not_equal_iff : (s t : Str) → (not (s == t) ≡ true) ↔ (s ≢ t)
not_equal_iff s t = ground (arith, str_beq_iff s t)

not_length_iff : (m n : ℕ) → (not (m == n) ≡ true) ↔ (m ≢ n)
not_length_iff m n = ground arith

unequal_iff :
    (old new : List MdDoc)
    → (not (equal_metadata_vectors old new) ≡ true) ↔ Some (IsChangedIn new) old
unequal_iff old new =
    let (there, back) = equal_metadata_vectors_iff old new in
    ((λ h. there (ground arith)), (λ h. rw (back h) refl))

some_of_five :
    (a b c d e : Bool) (P Q S T U : Type 0)
    → (a ≡ true) ↔ P
    → (b ≡ true) ↔ Q
    → (c ≡ true) ↔ S
    → (d ≡ true) ↔ T
    → (e ≡ true) ↔ U
    → ((a || b || c || d || e) ≡ true) ↔ (P ⊎ Q ⊎ S ⊎ T ⊎ U)
some_of_five a b c d e P Q S T U ha hb hc hd he = ground arith

missing_iff : (o : Option Bson) → (not (is_some o) ≡ true) ↔ (o ≡ none)
unfolding is_some
missing_iff none = ground arith
missing_iff (some x) = ground arith

type_iff :
    (o : Option Str) (t : Str)
    → ((not (t == []) && (not (is_some o) || not (str_field o == t))) ≡ true)
      ↔ ((t ≢ []) × (o ≢ some t))
unfolding is_some str_field
type_iff none t = ground (arith, str_beq_iff t [])
type_iff (some s) t = ground (arith, str_beq_iff t [], str_beq_iff s t)

plain_iff :
    (a : AttrDoc) (ca : ContextAttribute) (o : Option Node)
    → ((elim o as (λ x. Bool) [
      | none ↦
          not (is_some a.value)
          || not (bson_string a.value == ca.value)
          || (not (ca.type == []) && (not (is_some a.type) || not (str_field a.type == ca.type)))
          || not (length (updated_metadata a ca) == length (stored_metadata a))
          || not (equal_metadata_vectors (stored_metadata a) (updated_metadata a ca))
      | some n ↦ true
    ])
        ≡ true)
      ↔ ((o ≢ none)
          ⊎ (a.value ≡ none)
          ⊎ (bson_string a.value ≢ ca.value)
          ⊎ ((ca.type ≢ []) × (a.type ≢ some ca.type))
          ⊎ (length (updated_metadata a ca) ≢ length (stored_metadata a))
          ⊎ Some (IsChangedIn (updated_metadata a ca)) (stored_metadata a))
plain_iff a ca none =
    let five =
      some_of_five _ _ _ _ _ _ _ _ _ _ (missing_iff a.value)
        (not_equal_iff (bson_string a.value) ca.value) (type_iff a.type ca.type)
        (not_length_iff (length (updated_metadata a ca)) (length (stored_metadata a)))
        (unequal_iff (stored_metadata a) (updated_metadata a ca)) in
    ((λ h. inr (five.0 h)), (λ h. elim h [ inl k ↦ absurd (k refl) | inr k ↦ five.1 k ]))
plain_iff a ca (some n) = ((λ h. inl (λ e. ground (arith, e))), (λ h. refl))

pub is_actual_update_iff :
    (a : AttrDoc) (ca : ContextAttribute)
    → (is_actual_update a ca ≡ true) ↔ IsActual ca a (stored_metadata a) (updated_metadata a ca)
unfolding is_actual_update
is_actual_update_iff a ca = plain_iff a ca ca.compound
