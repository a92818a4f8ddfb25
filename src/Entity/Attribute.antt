-- ===== src/Entity/Attribute.antt =====
-- One attribute of a request against the `attrs` of an entity document:
-- src/lib/mongoBackend/MongoCommonUpdate.cpp. The clock is read once for a call.
use fiware_orion.Base.{
  ℕ, Str, ◌==◌, str_eq, nat_eq, Bool, true, false, not, ◌&&◌, ◌||◌, Option, none, some, List, [],
  ◌∷◌, ◌++◌, any, length, if◌then◌else◌,
}
use fiware_orion.Bson.{Bson, text, object, array, bson_string, str_field}
use fiware_orion.Compound.{Node, node, string, objekt, vector, unknown}
use fiware_orion.Compound.ToBson.{array_bson, object_bson}
use fiware_orion.Entity.{Metadata, ContextAttribute, MdDoc, AttrDoc}
use fiware_orion.Entity.CustomMetadata.{
  get_id, get_location, equal_metadata_vectors, bson_custom_metadata, md_field, request_metadata,
  kept_metadata, context_attribute_custom_metadata, response_if_any, custom_only, ngsi_md_id,
  ngsi_md_location,
}

unfoldable pub smart_attr_match : Str → Str → Str → Str → Bool
smart_attr_match name1 id1 name2 id2 = name1 == name2 && id1 == id2

unfoldable pub compound_value_bson : Node → Option Bson
compound_value_bson (node vector name value path level sibling ns) = some (array (array_bson ns))
compound_value_bson (node objekt name value path level sibling ns) = some (object (object_bson ns))
compound_value_bson (node string name value path level sibling ns) = some (text value)
compound_value_bson (node unknown name value path level sibling ns) = none

-- valueBson: the `value` field that is appended
unfoldable pub value_bson : ContextAttribute → Option Bson
value_bson ca = elim ca.compound [ none ↦ some (text ca.value) | some n ↦ compound_value_bson n ]

-- A value of a type other than string, object and array is not copied.
unfoldable pub copied_value : Option Bson → Option Bson
copied_value (some (text s)) = some (text s)
copied_value (some (object fs)) = some (object fs)
copied_value (some (array vs)) = some (array vs)
copied_value _ = none

unfoldable pub copied_id : AttrDoc → Option Str
copied_id attr = if str_field attr.id == [] then none else some (str_field attr.id)

unfoldable pub stored_metadata : AttrDoc → List MdDoc
stored_metadata attr = elim attr.md [ none ↦ [] | some mds ↦ mds ]

unfoldable pub is_match : AttrDoc → ContextAttribute → Bool
is_match attr ca = smart_attr_match (str_field attr.name) (str_field attr.id) ca.name (get_id ca)

unfoldable pub updated_type : AttrDoc → ContextAttribute → Option Str
updated_type attr ca = if ca.type == [] then attr.type else some ca.type

unfoldable pub updated_metadata : AttrDoc → ContextAttribute → List MdDoc
updated_metadata attr ca = request_metadata ca.metadata ++ kept_metadata ca (stored_metadata attr)

unfoldable pub is_some {ℓ} : {A : Type ℓ} → Option A → Bool
is_some none = false
is_some (some a) = true

-- "It was an actual update?" A compound value always counts as one.
unfoldable pub is_actual_update : AttrDoc → ContextAttribute → Bool
is_actual_update attr ca = elim ca.compound [
  | none ↦
      not (is_some attr.value)
      || not (bson_string attr.value == ca.value)
      || (not (ca.type == []) && (not (is_some attr.type) || not (str_field attr.type == ca.type)))
      || not (length (updated_metadata attr ca) == length (stored_metadata attr))
      || not (equal_metadata_vectors (stored_metadata attr) (updated_metadata attr ca))
  | some n ↦ true
]

-- What checkAndUpdate leaves: the new attribute, its result, and `*actualUpdate`.
pub record Checked : Type 0 where
  pub new_attr : AttrDoc
  pub updated : Bool
  pub actual : Bool

unfoldable pub check_and_update : ℕ → AttrDoc → ContextAttribute → Checked
check_and_update now attr ca =
    if is_match attr ca
    then record {
      new_attr = record {
        name = some (str_field attr.name);
        id = copied_id attr;
        type = updated_type attr ca;
        value = value_bson ca;
        md = md_field (updated_metadata attr ca);
        cre_date = attr.cre_date;
        mod_date = if is_actual_update attr ca then some now else attr.mod_date;
      };
      updated = true;
      actual = is_actual_update attr ca;
    }
    else record {
      new_attr = record {
        name = some (str_field attr.name);
        id = copied_id attr;
        type = attr.type;
        value = copied_value attr.value;
        md = bson_custom_metadata attr.md;
        cre_date = attr.cre_date;
        mod_date = attr.mod_date;
      };
      updated = false;
      actual = false;
    }

abbrev pub empty_attr : AttrDoc
empty_attr = record {
  name = none;
  id = none;
  type = none;
  value = none;
  md = none;
  cre_date = none;
  mod_date = none;
}

-- checkAndDelete: the copy of an attribute that stays takes type and value as strings.
unfoldable pub check_and_delete : AttrDoc → ContextAttribute → AttrDoc × Bool
check_and_delete attr ca =
    if not (is_match attr ca)
    then (
      record {
        name = some (str_field attr.name);
        id = copied_id attr;
        type = some (str_field attr.type);
        value = some (text (bson_string attr.value));
        md = bson_custom_metadata attr.md;
        cre_date = attr.cre_date;
        mod_date = attr.mod_date;
      },
      false,
    )
    else (empty_attr, true)

-- The result of a pass over `attrs`: the new array, `updated` and `actualUpdate`.
pub record Pass : Type 0 where
  pub attrs : List AttrDoc
  pub updated : Bool
  pub actual : Bool

-- The loop of updateAttribute and of appendAttribute.
unfoldable pub update_loop : ℕ → List AttrDoc → ContextAttribute → Pass
update_loop now [] ca = record { attrs = []; updated = false; actual = false }
update_loop now (attr ∷ attrs) ca =
    let rest = update_loop now attrs ca in
    let c = check_and_update now attr ca in
    record {
      attrs = c.new_attr ∷ rest.attrs;
      updated = c.updated || rest.updated;
      actual = c.actual || rest.actual;
    }

unfoldable pub update_attribute : ℕ → List AttrDoc → ContextAttribute → Pass
update_attribute now attrs ca = update_loop now attrs ca

-- The attribute that appendAttribute adds where none matches.
unfoldable pub new_attribute : ℕ → ContextAttribute → AttrDoc
new_attribute now ca = record {
  name = some ca.name;
  id = if get_id ca == [] then none else some (get_id ca);
  type = some ca.type;
  value = value_bson ca;
  md = context_attribute_custom_metadata ca;
  cre_date = some now;
  mod_date = some now;
}

-- The new array and the result.
unfoldable pub append_attribute : ℕ → List AttrDoc → ContextAttribute → List AttrDoc × Bool
append_attribute now attrs ca =
    let pass = update_loop now attrs ca in
    if not pass.updated
    then (pass.attrs ++ new_attribute now ca ∷ [], true)
    else (pass.attrs, pass.actual)

-- legalIdUsage(BSONObj&, ContextAttribute*)
unfoldable pub legal_id_usage : List AttrDoc → ContextAttribute → Bool
legal_id_usage attrs ca =
    if get_id ca == []
    then not (any (λ attr. str_field attr.name == ca.name && not (str_field attr.id == [])) attrs)
    else not (any (λ attr. str_field attr.name == ca.name && str_field attr.id == []) attrs)

-- The loop of deleteAttribute: after the first deletion a further match appends an empty object.
unfoldable pub delete_loop : Bool → List AttrDoc → ContextAttribute → List AttrDoc × Bool
delete_loop deleted [] ca = ([], deleted)
delete_loop deleted (attr ∷ attrs) ca =
    let (new_attr, matched) = check_and_delete attr ca in
    let (rest, result) = delete_loop (deleted || matched) attrs ca in
    (if matched && not deleted then rest else new_attr ∷ rest, result)

unfoldable pub delete_attribute : List AttrDoc → ContextAttribute → List AttrDoc × Bool
delete_attribute attrs ca = delete_loop false attrs ca

-- setResponseMetadata: the metadata of the attribute in the response
unfoldable pub response_metadata : ContextAttribute → List Metadata
response_metadata ca =
    response_if_any ngsi_md_id (get_id ca)
    ++ (response_if_any ngsi_md_location (get_location ca) ++ custom_only ca.metadata)
