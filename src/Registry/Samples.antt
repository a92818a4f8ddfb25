-- ===== src/Registry/Samples.antt =====
-- The theorems on registrations at a concrete registration, with patterns that match only themselves.
use fiware_orion.Base.{◌≡◌, ◌↔◌, true, false, [], ◌∷◌, codes, str_beq}
use fiware_orion.Update.{EntityId}
use fiware_orion.Registry.{Regex, is_nil, Registration, query_result}
use fiware_orion.Registry.Laws.{Some}
use fiware_orion.Registry.Complete.{HasAnswer, query_result_iff}

abbrev pub literal : Regex
literal = record { compiles = λ pattern. true; matches = str_beq }

abbrev car : EntityId
car = record { id = codes "car1"; type = codes "car"; is_pattern = codes "false" }

abbrev any_car : EntityId
any_car = record { id = codes "car1"; type = []; is_pattern = codes "true" }

abbrev speed : Registration
speed = record {
  entities = car ∷ [];
  attributes =
      record { name = codes "speed"; type = codes "kmh"; is_domain = codes "false" }
      ∷ record { name = codes "fuel"; type = []; is_domain = codes "false" }
      ∷ [];
  providing_application = codes "http://cars/";
}

query_result_iff_example :
    (is_nil (query_result literal (any_car ∷ []) (codes "speed" ∷ []) ((speed ∷ []) ∷ [])) ≡ false)
    ↔ Some (Some (HasAnswer literal (any_car ∷ []) (codes "speed" ∷ []))) ((speed ∷ []) ∷ [])
query_result_iff_example =
    query_result_iff literal (any_car ∷ []) (codes "speed" ∷ []) ((speed ∷ []) ∷ [])
