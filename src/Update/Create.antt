-- ===== src/Update/Create.antt =====
-- The creation and the removal of an entity: legalIdUsage and processLocation on the attributes of a
-- request, createEntity and removeEntity of src/lib/mongoBackend/MongoCommonUpdate.cpp.
pub mod Laws
use fiware_orion.Base.{
  ℕ, Str, ◌==◌, str_eq, ◌&&◌, ◌||◌, not, Bool, true, false, Option, none, some, List, [], ◌∷◌, ◌++◌,
  codes, any, all, map, if◌then◌else◌,
}
use fiware_orion.Strings.Coords.{Double, Coords, string2coords}
use fiware_orion.Entity.{ContextAttribute, Metadata, AttrDoc}
use fiware_orion.Entity.CustomMetadata.{get_id, ngsi_md_location}
use fiware_orion.Entity.Attribute.{new_attribute}
use fiware_orion.Update.{
  EntityId, entity_to_string, StatusCode, scc_ok, scc_receiver_internal_error,
}
use fiware_orion.Update.Subscriptions.{Origin}
use fiware_orion.Update.Process.{location_wgs84, location_wgs84_legacy}
use fiware_orion.Update.Backend.{
  DocId, PathQuery, no_path, path_is, TypeQuery, no_type, type_is, EntityQuery, NewEntity, Backend,
}

-- An attribute without identifier, and another of the same name and type with one.
unfoldable pub mixes_id : List ContextAttribute → ContextAttribute → Bool
mixes_id cas a =
    get_id a == [] && any (λ b. a.name == b.name && (a.type == b.type && not (get_id b == []))) cas

-- legalIdUsage(ContextAttributeVector)
unfoldable pub legal_id_usage_all : List ContextAttribute → Bool
legal_id_usage_all cas = all (λ a. not (mixes_id cas a)) cas

-- the message of createEntity
unfoldable pub illegal_id_usage : EntityId → Str
illegal_id_usage en =
    codes
      "Attributes with same name with ID and not ID at the same time in the same entity are forbidden: entity: ["
    ++ (entity_to_string en ++ codes "]")

-- `_id` of a new entity
unfoldable pub new_doc_id : EntityId → List Str → DocId
new_doc_id en service_paths = record {
  id = en.id;
  type = if en.type == [] then none else some en.type;
  service_path = elim service_paths [ [] ↦ none | p ∷ ps ↦ some p ];
}

-- The query that selects one entity by the fields of its `_id`.
unfoldable pub remove_query : Str → Str → Str → EntityQuery
remove_query id type service_path = record {
  id = id;
  type = if type == [] then no_type else type_is type;
  path = if service_path == [] then no_path else path_is service_path;
  only_untyped = false;
}

module _ (D : Double) where
  -- `locAttr`, `coordLat` and `coordLong`
  pub record Located : Type 0 where
    pub loc_attr : Str
    pub coords : Coords D

  pub data LocationResult : Type 0 where
    located : Located → LocationResult
    bad_location : Str → LocationResult

  -- One location metadata of an attribute.
  unfoldable pub location_metadata : ContextAttribute → Metadata → Located → LocationResult
  location_metadata ca m l =
      if not (l.loc_attr == [])
      then bad_location (
          codes
            "You cannot use more than one location attribute when creating an entity [see Orion user manual]")
      else if not (m.value == location_wgs84) && not (m.value == location_wgs84_legacy)
      then bad_location (codes "only WGS84 are supported, found: " ++ m.value)
      else (let (good, coords) = string2coords D ca.value l.coords in
          if not good
          then bad_location (codes "coordinate format error [see Orion user manual]: " ++ ca.value)
          else located (record { loc_attr = ca.name; coords = coords }))

  -- The inner loop of processLocation.
  unfoldable pub metadata_location : ContextAttribute → List Metadata → Located → LocationResult
  metadata_location ca [] l = located l
  metadata_location ca (m ∷ ms) l =
      elim (if m.name == ngsi_md_location then location_metadata ca m l else located l) [
        | located l' ↦ metadata_location ca ms l'
        | bad_location err ↦ bad_location err
      ]

  -- The outer loop.
  unfoldable pub process_location : List ContextAttribute → Located → LocationResult
  process_location [] l = located l
  process_location (ca ∷ cas) l = elim (metadata_location ca ca.metadata l) [
    | located l' ↦ process_location cas l'
    | bad_location err ↦ bad_location err
  ]

  -- The variables before the loops. The coordinates are read only where the loops have set them.
  abbrev pub no_location : Located
  no_location = record { loc_attr = []; coords = record { latitude = D.zero; longitude = D.zero } }

  -- A new document, or `errDetail`.
  pub data NewResult : Type 0 where
    refused : Str → NewResult
    created : NewEntity D → NewResult

  unfoldable pub new_entity : Origin → EntityId → List ContextAttribute → NewResult
  new_entity o en cas =
      if not (legal_id_usage_all cas)
      then refused (illegal_id_usage en)
      else elim (process_location cas no_location) [
        | bad_location err ↦ refused err
        | located l ↦ created (record {
          doc_id = new_doc_id en o.service_paths;
          attrs = map (new_attribute o.now) cas;
          cre_date = o.now;
          mod_date = o.now;
          location = if l.loc_attr == [] then none else some (l.loc_attr, l.coords);
        })
      ]

  module _ (B : Backend D) where
    unfoldable pub insert_new : Str → NewResult → B.World → Option Str × B.World
    insert_new tenant (refused err) w = (some err, w)
    insert_new tenant (created doc) w = B.insert tenant doc w

    -- createEntity: `errDetail` where it returns false.
    unfoldable pub create_entity :
        Origin → EntityId → List ContextAttribute → B.World → Option Str × B.World
    create_entity o en cas w =
        insert_new o.tenant (new_entity o en cas) (B.ensure_location_index o.tenant w)

    -- removeEntity: the status that it fills in.
    unfoldable pub remove_entity : Str → Str → Str → Str → B.World → StatusCode × B.World
    remove_entity tenant id type service_path w =
        let (err, w') = B.remove tenant (remove_query id type service_path) w in
        (
          elim err [
            | none ↦ record { code = scc_ok; details = [] }
            | some text ↦ record { code = scc_receiver_internal_error; details = text }
          ],
          w',
        )
