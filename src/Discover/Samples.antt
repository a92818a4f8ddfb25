-- ===== src/Discover/Samples.antt =====
-- An association, and a discovery at a database with one registration.
use fiware_orion.Base.{◌≡◌, refl, [], ◌∷◌, codes}
use fiware_orion.Base.Int.{pos}
use fiware_orion.Update.Subscriptions.{ok}
use fiware_orion.Registry.Samples.{literal}
use fiware_orion.Register.Store.{RegistrationMetadata}
use fiware_orion.Register.Operations.{association_doc}
use fiware_orion.Discover.{
  Source, DiscoverRequest, association_metadata, mongo_discover_context_availability,
}
use fiware_orion.Discover.Laws.{association_metadata-association_doc}
use fiware_orion.Discover.Answers.{IsAnswer, mongo_discover_context_availability-IsAnswer}

abbrev in_room : RegistrationMetadata
in_room = record {
  name = codes "in_room";
  type = codes "Association";
  source_id = codes "Sensor1";
  source_type = codes "Sensor";
  target_id = codes "Room1";
  target_type = [];
  attributes = (codes "measure", codes "temperature") ∷ [];
}

association_metadata-association_doc_example :
    association_metadata (association_doc in_room) ≡ in_room
association_metadata-association_doc_example = association_metadata-association_doc in_room refl

abbrev source : Source
source = record {
  associations = λ q. ok (association_doc in_room ∷ []);
  registrations = λ q. ok (
      (record {
        entities =
            record { id = codes "Room1"; type = codes "Room"; is_pattern = codes "false" } ∷ [];
        attributes = [];
        providing_application = codes "http://app:1028/v1";
      }
        ∷ [])
      ∷ []);
  count = λ q. pos 1;
}

abbrev room_request : DiscoverRequest
room_request = record {
  entities = record { id = codes "Room1"; type = codes "Room"; is_pattern = codes "false" } ∷ [];
  attributes = [];
  scopes = record { type = codes "IncludeAssociations"; value = codes "SOURCES"; oper = [] } ∷ [];
  tenant = [];
  service_paths = [];
  uri_params = λ key. [];
}

mongo_discover_context_availability-IsAnswer_example :
    IsAnswer literal source room_request room_request.scopes
      (mongo_discover_context_availability literal source room_request)
mongo_discover_context_availability-IsAnswer_example =
    mongo_discover_context_availability-IsAnswer literal source room_request
