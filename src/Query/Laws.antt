-- ===== src/Query/Laws.antt =====
-- What a query returns of what an update stored.
use fiware_orion.Base.{
  ℕ, Str, ◌≡◌, refl, ap, ap₂, ◌∙◌, str_beq, inl, inr, ◌++◌, ◌==◌, str_eq, ◌&&◌, not, Bool, true,
  false, Option, none, some, List, [], ◌∷◌, codes, if◌then◌else◌, Bool-cases,
}
use fiware_orion.Bson.{Bson, text, object, array, str_field}
use fiware_orion.Compound.{Node, node, objekt, vector, string, unknown}
use fiware_orion.Compound.ToBson.{array_bson, object_bson}
use fiware_orion.Compound.FromBson.{compound_object, compound_vector, compound_round_trip}
use fiware_orion.Entity.{Metadata, ContextAttribute, MdDoc}
use fiware_orion.Entity.CustomMetadata.{
  get_id, custom_metadata, custom_only, md_field, context_attribute_custom_metadata,
  is_not_custom_metadata, ngsi_md_id, ngsi_md_location,
}
use fiware_orion.Entity.Attribute.{new_attribute, value_bson, compound_value_bson}
use fiware_orion.Update.Process.{location_wgs84}
use fiware_orion.Registry.{included_attribute}
use fiware_orion.Query.Attribute.{md_metadatas, query_metadata, query_value, query_attribute}

md_metadatas-custom : (ms : List Metadata) → md_metadatas (custom_metadata ms) ≡ custom_only ms
unfolding md_metadatas custom_metadata custom_only str_field
md_metadatas-custom [] = refl
md_metadatas-custom (m ∷ ms) = elim (Bool-cases (is_not_custom_metadata m.name)) [
  | inl y ↦ rw y (md_metadatas-custom ms)
  | inr n ↦ rw n (ap (◌∷◌ m) (md_metadatas-custom ms))
]

md_field-read :
    (mds : List MdDoc)
    → (elim (md_field mds) [ none ↦ [] | some l ↦ md_metadatas l ]) ≡ md_metadatas mds
unfolding md_field md_metadatas
md_field-read [] = refl
md_field-read (d ∷ ds) = refl

id-read : (i : Str) → str_field (if i == [] then none else some i) ≡ i
unfolding str_field str_beq
id-read [] = refl
id-read (c ∷ cs) = refl

-- The metadata of the answer: the ID and the location, if there is one, and the custom ones.
abbrev pub answered_metadata : Str → ContextAttribute → List Metadata
answered_metadata location ca =
    (if get_id ca == []
      then []
      else record { name = ngsi_md_id; type = codes "string"; value = get_id ca } ∷ [])
    ++ ((if location == ca.name
          then record { name = ngsi_md_location; type = codes "string"; value = location_wgs84 }
            ∷ []
          else [])
        ++ custom_only ca.metadata)

metadata-new :
    (now : ℕ) (location : Str) (ca : ContextAttribute)
    → query_metadata location (new_attribute now ca) ≡ answered_metadata location ca
unfolding query_metadata new_attribute context_attribute_custom_metadata str_field
metadata-new now location ca =
    ap₂
      (λ i mds.
        (if i == []
          then []
          else record { name = ngsi_md_id; type = codes "string"; value = i } ∷ [])
        ++ ((if location == str_field (some ca.name)
              then record { name = ngsi_md_location; type = codes "string"; value = location_wgs84 }
                ∷ []
              else [])
            ++ mds))
      (id-read (get_id ca))
      (md_field-read (custom_metadata ca.metadata) ∙ md_metadatas-custom ca.metadata)

-- The value that is stored is one that a query answers: an object, an array, or a text, which is not
-- empty unless empty values are asked for.
abbrev pub HasAnswer : Bool → Option Bson → Type 0
HasAnswer include_empty (some (text s)) = (not include_empty && s == []) ≡ false
HasAnswer include_empty (some (object fs)) = Unit
HasAnswer include_empty (some (array is)) = Unit
HasAnswer include_empty _ = ⊥

abbrev stored : Str → Option Node → Option Bson
stored s c = elim c [ none ↦ some (text s) | some n ↦ compound_value_bson n ]

module _ (decimal : ℕ → Str) where
  text_answer :
      (include_empty : Bool) (s : Str)
      → HasAnswer include_empty (some (text s))
      → query_value decimal include_empty (some (text s)) ≡ some (s, none)
  unfolding query_value
  text_answer include_empty s h = rw h refl

  value-stored :
      (include_empty : Bool) (s : Str) (c : Option Node)
      → HasAnswer include_empty (stored s c)
      → (v : Str × Option Node) × (query_value decimal include_empty (stored s c) ≡ some v)
        × (stored v.0 v.1 ≡ stored s c)
  unfolding query_value compound_value_bson
  value-stored include_empty s none h = ((s, none), text_answer include_empty s h, refl)
  value-stored include_empty s (some (node string name value path level sibling ns)) h =
      ((value, none), text_answer include_empty value h, refl)
  value-stored include_empty s (some (node objekt name value path level sibling ns)) h = (
    (
      [],
      some (
          node objekt (codes "toplevel") [] (codes "/") 0 0
            (compound_object decimal 0 (object_bson ns))),
    ),
    refl,
    ap (λ fs. some (object fs)) (compound_round_trip decimal ns).0,
  )
  value-stored include_empty s (some (node vector name value path level sibling ns)) h = (
    (
      [],
      some (
          node vector (codes "toplevel") [] (codes "/") 0 0
            (compound_vector decimal 0 0 (array_bson ns))),
    ),
    refl,
    ap (λ is. some (array is)) (compound_round_trip decimal ns).1,
  )
  value-stored include_empty s (some (node unknown name value path level sibling ns)) h = absurd h

  -- A query that includes the attribute of a request that was appended answers it: with its name, its
  -- type, its ID, its custom metadata in their order, WGS84 as the location of the attribute
  -- that is the location of the entity, and a value, text or compound, that would be stored as the value of the request was. The value
  -- must be one that a query answers, which an empty text is only if empty values are asked for.
  pub query_attribute-new :
      (include_empty : Bool) (names : List Str) (location : Str) (now : ℕ) (ca : ContextAttribute)
      → included_attribute ca.name names ≡ true
      → HasAnswer include_empty (value_bson ca)
      → (answer : ContextAttribute) × (query_attribute decimal include_empty names location
            (new_attribute now ca)
          ≡ some answer)
        × (answer.name ≡ ca.name)
        × (answer.type ≡ ca.type)
        × (answer.metadata ≡ answered_metadata location ca)
        × (value_bson answer ≡ value_bson ca)
  unfolding query_attribute new_attribute value_bson str_field
  query_attribute-new include_empty names location now ca included h =
      let (v, e, same) = value-stored include_empty ca.value ca.compound h in
      (
        record {
          name = ca.name;
          type = ca.type;
          value = v.0;
          metadata = query_metadata location (new_attribute now ca);
          compound = v.1;
        },
        rw included (rw e refl),
        refl,
        refl,
        metadata-new now location ca,
        same,
      )
