-- ===== src/Query/Samples.antt =====
-- The theorems on queries at a concrete attribute and at concrete documents.
use fiware_orion.Base.{◌≡◌, refl, false, none, some, [], ◌∷◌, codes, str_beq, All}
use fiware_orion.Base.Int.{pos}
use fiware_orion.Update.{scc_ok, scc_receiver_internal_error}
use fiware_orion.Entity.{ContextAttribute}
use fiware_orion.Entity.Attribute.{new_attribute, value_bson}
use fiware_orion.Registry.{included_attribute, is_nil}
use fiware_orion.Query.Attribute.{query_attribute}
use fiware_orion.Query.Result.{QueryDoc, entities_result}
use fiware_orion.Update.Subscriptions.{ok}
use fiware_orion.Registry.Samples.{literal}
use fiware_orion.Query.Context.{Source, QueryRequest, mongo_query_context}
use fiware_orion.Query.Replies.{IsReply, mongo_query_context-IsReply}
use fiware_orion.Query.Laws.{answered_metadata, query_attribute-new}
use fiware_orion.Query.Responses.{response, entities_result-unsound}

abbrev position : ContextAttribute
position = record {
  name = codes "position";
  type = codes "coords";
  value = codes "40.4, -3.7";
  metadata =
      record { name = codes "location"; type = codes "string"; value = codes "WGS84" }
      ∷ record { name = codes "accuracy"; type = codes "float"; value = codes "0.8" }
      ∷ [];
  compound = none;
}

query_attribute-new_example :
    (answer : ContextAttribute) × (query_attribute
        (λ n. [])
        false
        []
        (codes "position")
        (new_attribute 7 position)
      ≡ some answer)
    × (answer.name ≡ codes "position")
    × (answer.type ≡ codes "coords")
    × (answer.metadata ≡ answered_metadata (codes "position") position)
    × (value_bson answer ≡ value_bson position)
unfolding included_attribute is_nil value_bson str_beq
query_attribute-new_example =
    query_attribute-new (λ n. []) false [] (codes "position") 7 position refl refl

abbrev room : QueryDoc
room = record {
  err = [];
  id = some (codes "Room1");
  type = some (codes "Room");
  service_path = some (codes "/");
  location_attr = some (codes "position");
  attrs = some (new_attribute 7 position ∷ []);
}

abbrev broken : QueryDoc
broken = record room { attrs = none }

entities_result-unsound_example :
    (entities_result (λ n. []) [] [] false (room ∷ broken ∷ room ∷ [])
      ≡ response (λ n. []) [] [] false room ∷ response (λ n. []) [] [] false broken ∷ [])
    × All (λ r. r.status.code ≡ scc_ok) (response (λ n. []) [] [] false room ∷ [])
    × ((response (λ n. []) [] [] false broken).status.code ≡ scc_receiver_internal_error)
unfolding str_beq
entities_result-unsound_example =
    entities_result-unsound (λ n. []) [] [] false (room ∷ []) broken (room ∷ []) (refl, tt) refl

-- A database with one document, whatever is asked.
abbrev one_room : Source Unit
one_room = record {
  process_area_scope = λ sco. none;
  documents = λ q. ok (room ∷ []);
  count = λ q. pos 1;
  registrations = λ q. ok [];
}

abbrev all_rooms : QueryRequest
all_rooms = record {
  entities = record { id = codes "Room.*"; type = codes "Room"; is_pattern = codes "true" } ∷ [];
  attributes = [];
  scopes = [];
  tenant = [];
  service_paths = codes "/" ∷ [];
  uri_params = λ key. codes "on";
}

mongo_query_context-IsReply_example :
    IsReply
      (λ n. [])
      literal
      one_room
      all_rooms
      (mongo_query_context (λ n. []) literal one_room all_rooms)
mongo_query_context-IsReply_example =
    mongo_query_context-IsReply (λ n. []) literal one_room all_rooms
