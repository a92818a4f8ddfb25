-- ===== src/Entity/Agreement.antt =====
-- When equalMetadataVectors of MongoCommonUpdate.cpp sees no difference.
use fiware_orion.Base.{
  inl, inr, ◌≡◌, refl, ◌==◌, str_eq, Bool, true, false, ◌&&◌, List, [], ◌∷◌, ◌++◌, any, All,
  All-append, All-map, All-swap, All-zip, arith, str_beq_iff, str_beq_refl, Bool-cases,
}
use fiware_orion.Bson.{str_field}
use fiware_orion.Entity.{Metadata, ContextAttribute, MdDoc, AttrDoc}
use fiware_orion.Entity.CustomMetadata.{
  match_metadata, first_match_differs, equal_metadata_vectors, has_metadata, md_doc,
  request_metadata, kept_metadata, md_field,
}
use fiware_orion.Entity.Attribute.{stored_metadata, updated_metadata}

-- Metadata of the same name and type have the same value.
abbrev pub Agrees : MdDoc → MdDoc → Type 0
Agrees m x = match_metadata m x ≡ true → m.value ≡ x.value

abbrev pub HasOneValue : List MdDoc → Type 0
HasOneValue l = All (λ m. All (Agrees m) l) l

first_match-same : (m : MdDoc) (v : List MdDoc) → All (Agrees m) v → first_match_differs m v ≡ false
unfolding first_match_differs
first_match-same m [] h = refl
first_match-same m (x ∷ v) h = elim (Bool-cases (match_metadata m x)) [
  | inl y ↦ rw y (ground (arith, h.0 y, str_beq_iff m.value x.value))
  | inr n ↦ rw n (first_match-same m v h.1)
]

pub equal_of_Agrees :
    (v w : List MdDoc) → All (λ m. All (Agrees m) w) v → equal_metadata_vectors v w ≡ true
unfolding equal_metadata_vectors
equal_of_Agrees [] w h = refl
equal_of_Agrees (m ∷ v) w h = rw (first_match-same m w h.0) (equal_of_Agrees v w h.1)

pub match_metadata_comm : (a b : MdDoc) → match_metadata a b ≡ match_metadata b a
unfolding match_metadata str_field
match_metadata_comm a b = ground (
  arith,
  str_beq_iff a.name b.name,
  str_beq_iff b.name a.name,
  str_beq_iff (str_field a.type) (str_field b.type),
  str_beq_iff (str_field b.type) (str_field a.type),
)

-- What is kept beside the metadata of a request matches none of them.
not_match_of_absent :
    (x : MdDoc) (ms : List Metadata)
    → any (λ m. m.name == x.name && m.type == str_field x.type) ms ≡ false
    → All (λ m. match_metadata m x ≡ false) (request_metadata ms)
unfolding request_metadata any match_metadata md_doc str_field
not_match_of_absent x [] h = tt
not_match_of_absent x (m ∷ ms) h = ground (
  arith,
  not_match_of_absent x ms,
  str_beq_iff m.name x.name,
  str_beq_iff m.type [],
  str_beq_iff m.type (str_field x.type),
)

kept_absent :
    (ca : ContextAttribute) (mds : List MdDoc)
    → All (λ x. has_metadata x.name (str_field x.type) ca ≡ false) (kept_metadata ca mds)
unfolding kept_metadata
kept_absent ca [] = tt
kept_absent ca (x ∷ mds) = elim (Bool-cases (has_metadata x.name (str_field x.type) ca)) [
  | inl y ↦ rw y (kept_absent ca mds)
  | inr n ↦ rw n (n, kept_absent ca mds)
]

kept-All :
    (P : MdDoc → Type 0) (ca : ContextAttribute) (mds : List MdDoc)
    → All P mds
    → All P (kept_metadata ca mds)
unfolding kept_metadata
kept-All P ca [] h = tt
kept-All P ca (x ∷ mds) h = elim (Bool-cases (has_metadata x.name (str_field x.type) ca)) [
  | inl y ↦ rw y (kept-All P ca mds h.1)
  | inr n ↦ rw n (h.0, kept-All P ca mds h.1)
]

-- What is kept has no match in the request, so a second pass keeps all of it.
pub kept_of_kept :
    (ca : ContextAttribute) (mds : List MdDoc)
    → kept_metadata ca (kept_metadata ca mds) ≡ kept_metadata ca mds
unfolding kept_metadata
kept_of_kept ca [] = refl
kept_of_kept ca (x ∷ mds) = ground (arith, kept_of_kept ca mds)

kept-append :
    (ca : ContextAttribute) (xs ys : List MdDoc)
    → kept_metadata ca (xs ++ ys) ≡ kept_metadata ca xs ++ kept_metadata ca ys
unfolding kept_metadata
kept-append ca [] ys = refl
kept-append ca (x ∷ xs) ys = ground (arith, kept-append ca xs ys)

-- Metadata that a request holds is not kept.
kept_of_request :
    (ca : ContextAttribute) (ms : List Metadata)
    → All (λ m. has_metadata m.name m.type ca ≡ true) ms
    → kept_metadata ca (request_metadata ms) ≡ []
unfolding kept_metadata request_metadata md_doc str_field
kept_of_request ca [] h = refl
kept_of_request ca (m ∷ ms) h = ground (arith, kept_of_request ca ms h.1, str_beq_iff m.type [])

abbrev is_named_as : Metadata → Metadata → Bool
is_named_as m x = x.name == m.name && x.type == m.type

any_weaken :
    (y : Metadata) (ms xs : List Metadata)
    → All (λ m. any (is_named_as m) ms ≡ true) xs
    → All (λ m. any (is_named_as m) (y ∷ ms) ≡ true) xs
unfolding any
any_weaken y ms [] h = tt
any_weaken y ms (x ∷ xs) h = (ground (arith, h.0), any_weaken y ms xs h.1)

any_self : (ms : List Metadata) → All (λ m. any (is_named_as m) ms ≡ true) ms
unfolding any
any_self [] = tt
any_self (m ∷ ms) =
    (ground (arith, str_beq_refl m.name, str_beq_refl m.type), any_weaken m ms ms (any_self ms))

-- The metadata that an update writes are, on a second pass, the same list.
pub updated_metadata_again :
    (attr new : AttrDoc) (ca : ContextAttribute)
    → stored_metadata new ≡ updated_metadata attr ca
    → updated_metadata new ca ≡ updated_metadata attr ca
unfolding updated_metadata has_metadata
updated_metadata_again attr new ca e = rw e (
    rw (
      kept-append ca (request_metadata ca.metadata) (kept_metadata ca (stored_metadata attr)),
      kept_of_request ca ca.metadata (any_self ca.metadata),
      kept_of_kept ca (stored_metadata attr),
    ))

pub stored-md_field :
    (attr : AttrDoc) (l : List MdDoc) → attr.md ≡ md_field l → stored_metadata attr ≡ l
unfolding stored_metadata md_field
stored-md_field attr [] e = rw e
stored-md_field attr (m ∷ l) e = rw e

kept-pairs :
    (l : List MdDoc) (ca : ContextAttribute)
    → All (λ m. All (Agrees m) l) l
    → All (λ m. All (Agrees m) (kept_metadata ca l)) (kept_metadata ca l)
kept-pairs l ca h =
    kept-All (λ m. All (Agrees m) (kept_metadata ca l)) ca l
      (All-map _ _ (λ m g. kept-All (Agrees m) ca l g) l h)

module _ (ca : ContextAttribute) (mds : List MdDoc) where
  abbrev request : List MdDoc
  request = request_metadata ca.metadata

  abbrev kept : List MdDoc
  kept = kept_metadata ca mds

  no_match : All (λ x. All (λ m. match_metadata m x ≡ false) request) kept
  unfolding has_metadata
  no_match = All-map _ _ (λ x h. not_match_of_absent x ca.metadata h) kept (kept_absent ca mds)

  kept-request : All (λ x. All (Agrees x) request) kept
  kept-request =
      All-map _ _ (λ x h. All-map _ _ (λ m n y. cc (match_metadata_comm m x)) request h) kept
        no_match

  request-kept : All (λ m. All (Agrees m) kept) request
  request-kept =
      All-map _ _ (λ m h. All-map _ _ (λ x n y. cc) kept h) request
        (All-swap _ kept request no_match)

  pub HasOneValue-update : HasOneValue request → HasOneValue mds → HasOneValue (request ++ kept)
  HasOneValue-update hr hm =
      All-append _ request kept
        (All-zip _ _ _ (λ m g k. All-append (Agrees m) request kept g k) request hr request-kept)
        (All-zip _ _ _ (λ m g k. All-append (Agrees m) request kept g k) kept kept-request
          (kept-pairs mds ca hm))
