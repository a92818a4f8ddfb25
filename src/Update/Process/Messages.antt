-- ===== src/Update/Process/Messages.antt =====
-- The `details` that processContextAttributeVector of
-- src/lib/mongoBackend/MongoCommonUpdate.cpp puts into the status of a response.
use fiware_orion.Base.{Str, codes, ◌++◌}
use fiware_orion.Entity.{ContextAttribute}
use fiware_orion.Entity.CustomMetadata.{get_location}
use fiware_orion.Update.{EntityId, entity_to_string}

-- ContextAttribute::toString is the name.
unfoldable pub offending : Str → EntityId → ContextAttribute → Str → Str
offending action en ca reason =
    codes "action: "
    ++ (action
        ++ (codes " - entity: ["
            ++ (entity_to_string en
                ++ (codes "]" ++ (codes " - offending attribute: " ++ (ca.name ++ reason))))))

unfoldable pub update_not_found : EntityId → ContextAttribute → Str
update_not_found en ca = offending (codes "UPDATE") en ca (codes "")

unfoldable pub update_location_nature : EntityId → ContextAttribute → Str
update_location_nature en ca =
    offending (codes "UPDATE") en ca
      (codes " - location nature of an attribute has to be defined at creation time, with APPEND")

unfoldable pub update_location_value : EntityId → ContextAttribute → Str
update_location_value en ca =
    offending (codes "UPDATE") en ca
      (codes " - error parsing location attribute, value: <" ++ (ca.value ++ codes ">"))

unfoldable pub append_second_location : EntityId → ContextAttribute → Str → Str
append_second_location en ca loc_attr = offending (codes "APPEND") en ca (
    codes " - attempt to define a location attribute ["
    ++ (ca.name
        ++ (codes "] when another one has been previously defined [" ++ (loc_attr ++ codes "]"))))

unfoldable pub append_location_system : EntityId → ContextAttribute → Str
append_location_system en ca =
    offending (codes "APPEND") en ca
      (codes " - only WGS84 is supported for location, found: [" ++ (get_location ca ++ codes "]"))

unfoldable pub append_location_value : EntityId → ContextAttribute → Str
append_location_value en ca =
    offending (codes "APPEND") en ca
      (codes " - error parsing location attribute, value: [" ++ (ca.value ++ codes "]"))

unfoldable pub append_not_legal : EntityId → ContextAttribute → Str
append_not_legal en ca = offending (codes "APPEND") en ca (codes " - attribute can not be appended")

unfoldable pub delete_location : EntityId → ContextAttribute → Str
delete_location en ca =
    offending (codes "DELETE") en ca
      (codes " - location attribute has to be defined at creation time, with APPEND")

unfoldable pub delete_not_found : EntityId → ContextAttribute → Str
delete_not_found en ca = offending (codes "DELETE") en ca (codes " - attribute not found")

unfoldable pub unknown_action : Str → Str
unknown_action action = codes "unknown actionType: '" ++ (action ++ codes "'")
