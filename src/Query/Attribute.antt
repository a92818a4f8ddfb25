-- ===== src/Query/Attribute.antt =====
-- One stored attribute, as entitiesQuery of src/lib/mongoBackend/MongoGlobal.cpp returns it.
use fiware_orion.Base.{
  ℕ, Str, ◌++◌, ◌==◌, str_eq, ◌&&◌, not, Bool, Option, none, some, List, [], ◌∷◌, codes,
  if◌then◌else◌,
}
use fiware_orion.Bson.{Bson, text, object, array, str_field}
use fiware_orion.Compound.{Node, node, objekt, vector}
use fiware_orion.Compound.FromBson.{compound_object, compound_vector}
use fiware_orion.Entity.{Metadata, ContextAttribute, MdDoc, AttrDoc}
use fiware_orion.Entity.CustomMetadata.{ngsi_md_id, ngsi_md_location}
use fiware_orion.Update.Process.{location_wgs84}
use fiware_orion.Registry.{included_attribute}

unfoldable pub md_metadata : MdDoc → Metadata
md_metadata d = record { name = d.name; type = str_field d.type; value = d.value }

unfoldable pub md_metadatas : List MdDoc → List Metadata
unfolding md_metadata
md_metadatas [] = []
md_metadatas (d ∷ ds) = md_metadata d ∷ md_metadatas ds

-- The ID, the location and the custom metadata, in this order.
unfoldable pub query_metadata : Str → AttrDoc → List Metadata
unfolding md_metadatas
query_metadata location attr =
    (if str_field attr.id == []
      then []
      else record { name = ngsi_md_id; type = codes "string"; value = str_field attr.id } ∷ [])
    ++ ((if location == str_field attr.name
          then record { name = ngsi_md_location; type = codes "string"; value = location_wgs84 }
            ∷ []
          else [])
        ++ (elim attr.md [ none ↦ [] | some mds ↦ md_metadatas mds ]))

module _ (decimal : ℕ → Str) where
  -- The value: a text, or a compound value; none for an attribute that is passed over.
  unfoldable pub query_value : Bool → Option Bson → Option (Str × Option Node)
  unfolding compound_object compound_vector
  query_value include_empty (some (text s)) =
      if not include_empty && s == [] then none else some (s, none)
  query_value include_empty (some (object fs)) =
      some (
        [],
        some (node objekt (codes "toplevel") [] (codes "/") 0 0 (compound_object decimal 0 fs)),
      )
  query_value include_empty (some (array is)) = some (
    [],
    some (node vector (codes "toplevel") [] (codes "/") 0 0 (compound_vector decimal 0 0 is)),
  )
  query_value include_empty _ = none

  unfoldable pub query_attribute : Bool → List Str → Str → AttrDoc → Option ContextAttribute
  unfolding query_value query_metadata
  query_attribute include_empty names location attr =
      if not (included_attribute (str_field attr.name) names)
      then none
      else elim (query_value include_empty attr.value) [
        | none ↦ none
        | some (value, compound) ↦ some (record {
          name = str_field attr.name;
          type = str_field attr.type;
          value = value;
          metadata = query_metadata location attr;
          compound = compound;
        })
      ]

  unfoldable pub query_attributes : Bool → List Str → Str → List AttrDoc → List ContextAttribute
  query_attributes include_empty names location [] = []
  query_attributes include_empty names location (a ∷ l) =
      let rest = query_attributes include_empty names location l in
      elim (query_attribute include_empty names location a) [ none ↦ rest | some ca ↦ ca ∷ rest ]
