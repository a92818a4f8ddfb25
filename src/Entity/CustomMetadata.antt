-- ===== src/Entity/CustomMetadata.antt =====
-- The metadata of an attribute: ContextAttribute::getId and getLocation of
-- src/lib/ngsi/ContextAttribute.cpp, and the metadata functions of
-- src/lib/mongoBackend/MongoCommonUpdate.cpp.
use fiware_orion.Base.{
  Str, codes, ◌==◌, str_eq, Bool, true, false, not, ◌&&◌, Option, none, some, List, [], ◌∷◌, any,
  if◌then◌else◌,
}
use fiware_orion.Bson.{str_field}
use fiware_orion.Entity.{Metadata, ContextAttribute, MdDoc}

-- NGSI_MD_ID, NGSI_MD_LOCATION, NGSI_MD_CREDATE and NGSI_MD_MODDATE of src/lib/ngsi/Metadata.h
abbrev pub ngsi_md_id : Str
ngsi_md_id = codes "ID"

abbrev pub ngsi_md_location : Str
ngsi_md_location = codes "location"

abbrev pub ngsi_md_credate : Str
ngsi_md_credate = codes "creDate"

abbrev pub ngsi_md_moddate : Str
ngsi_md_moddate = codes "modDate"

-- The value of the first metadata of that name, or the empty string.
unfoldable pub find_metadata : Str → List Metadata → Str
find_metadata name [] = []
find_metadata name (m ∷ ms) = if m.name == name then m.value else find_metadata name ms

unfoldable pub get_id : ContextAttribute → Str
get_id ca = find_metadata ngsi_md_id ca.metadata

unfoldable pub get_location : ContextAttribute → Str
get_location ca = find_metadata ngsi_md_location ca.metadata

unfoldable pub is_not_custom_metadata : Str → Bool
is_not_custom_metadata md =
    if not (md == ngsi_md_id)
      && not (md == ngsi_md_location)
      && not (md == ngsi_md_credate)
      && not (md == ngsi_md_moddate)
    then false
    else true

unfoldable pub has_metadata : Str → Str → ContextAttribute → Bool
has_metadata name type ca = any (λ m. m.name == name && m.type == type) ca.metadata

unfoldable pub match_metadata : MdDoc → MdDoc → Bool
match_metadata md1 md2 = elim md1.type [
  | some t1 ↦ elim md2.type [ some t2 ↦ t1 == t2 && md1.name == md2.name | none ↦ false ]
  | none ↦ elim md2.type [ some t2 ↦ false | none ↦ md1.name == md2.name ]
]

-- The inner loop of equalMetadataVectors: does the first match of `md1` hold another value?
unfoldable pub first_match_differs : MdDoc → List MdDoc → Bool
first_match_differs md1 [] = false
first_match_differs md1 (md2 ∷ mds) =
    if match_metadata md1 md2 then not (md1.value == md2.value) else first_match_differs md1 mds

unfoldable pub equal_metadata_vectors : List MdDoc → List MdDoc → Bool
equal_metadata_vectors [] v2 = true
equal_metadata_vectors (md1 ∷ v1) v2 =
    if first_match_differs md1 v2 then false else equal_metadata_vectors v1 v2

-- bsonCustomMetadataToBson: the stored metadata as is; no field for none, or for an empty array.
unfoldable pub bson_custom_metadata : Option (List MdDoc) → Option (List MdDoc)
bson_custom_metadata none = none
bson_custom_metadata (some []) = none
bson_custom_metadata (some (md ∷ mds)) = some (md ∷ mds)

-- An empty array is not appended.
unfoldable pub md_field : List MdDoc → Option (List MdDoc)
md_field [] = none
md_field (md ∷ mds) = some (md ∷ mds)

-- One custom metadata of a request, as checkAndUpdate stores it: no `type` field for an empty type.
unfoldable pub md_doc : Metadata → MdDoc
md_doc m = record {
  name = m.name;
  type = if m.type == [] then none else some m.type;
  value = m.value;
}

-- The first loop over the metadata in checkAndUpdate.
unfoldable pub request_metadata : List Metadata → List MdDoc
request_metadata [] = []
request_metadata (m ∷ ms) =
    let rest = request_metadata ms in
    if is_not_custom_metadata m.name then rest else md_doc m ∷ rest

-- The second one: what is stored and not in the request.
unfoldable pub kept_metadata : ContextAttribute → List MdDoc → List MdDoc
kept_metadata ca [] = []
kept_metadata ca (md ∷ mds) =
    let rest = kept_metadata ca mds in
    if not (has_metadata md.name (str_field md.type) ca) then md ∷ rest else rest

-- contextAttributeCustomMetadataToBson: here the type is stored also where it is empty.
unfoldable pub custom_metadata : List Metadata → List MdDoc
custom_metadata [] = []
custom_metadata (m ∷ ms) =
    let rest = custom_metadata ms in
    if not (is_not_custom_metadata m.name)
    then record { name = m.name; type = some m.type; value = m.value } ∷ rest
    else rest

unfoldable pub context_attribute_custom_metadata : ContextAttribute → Option (List MdDoc)
context_attribute_custom_metadata ca = md_field (custom_metadata ca.metadata)

unfoldable pub response_if_any : Str → Str → List Metadata
response_if_any name value =
    if value == [] then [] else record { name = name; type = codes "string"; value = value } ∷ []

unfoldable pub custom_only : List Metadata → List Metadata
custom_only [] = []
custom_only (m ∷ ms) =
    let rest = custom_only ms in if not (is_not_custom_metadata m.name) then m ∷ rest else rest
