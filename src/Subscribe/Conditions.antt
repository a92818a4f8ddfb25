-- ===== src/Subscribe/Conditions.antt =====
-- processOnChangeCondition and processConditionVector of src/lib/mongoBackend/MongoGlobal.cpp.
use fiware_orion.Base.{
  ℕ, Str, ◌==◌, str_eq, ◌||◌, Bool, true, false, Option, none, some, List, [], ◌∷◌, codes, map,
  if◌then◌else◌,
}
use fiware_orion.Update.{EntityId}
use fiware_orion.Update.Subscriptions.{Format}
use fiware_orion.Registry.{is_nil, is_cond_value_in}
use fiware_orion.Query.{fill_query_entities}
use fiware_orion.Query.Result.{QueryResponse, entities_result}
use fiware_orion.Subscribe.{
  NotifyCondition, Condition, interval, change, InitialNotification, Store, Caller,
  on_time_interval_condition, on_change_condition, duration_seconds, to_int,
}

-- What the conditions of a subscription are processed for.
pub record Target : Type 0 where
  pub id : Str
  pub entities : List EntityId
  pub attributes : List Str
  pub url : Str
  pub format : Format

-- The array of conditions, whether a notification was sent, and what the world is then.
pub record Processed (W : Type 0) : Type 0 where
  pub conditions : List Condition
  pub notified : Bool
  pub world : W

module _ (decimal : ℕ → Str) (S : Store) (c : Caller) (t : Target) where
  -- entitiesQuery without restriction, without empty values and with the default limits
  unfoldable pub query_entities : List Str → S.World → Option (List QueryResponse)
  unfolding fill_query_entities entities_result
  query_entities names w =
      elim (S.documents w (record {
        entities = fill_query_entities t.entities;
        attribute_names = names;
        tenant = c.tenant;
        service_paths = c.service_paths;
      })) [ none ↦ none | some docs ↦ some (entities_result decimal t.entities names false docs) ]

  unfoldable pub initial_notification : List QueryResponse → InitialNotification
  initial_notification responses = record {
    subscription_id = t.id;
    originator = codes "localhost";
    responses = responses;
    url = t.url;
    tenant = c.tenant;
    token = c.token;
    format = t.format;
  }

  unfoldable pub process_on_change_condition : List Str → S.World → Bool × S.World
  unfolding query_entities initial_notification is_cond_value_in is_nil
  process_on_change_condition values w = elim (query_entities t.attributes w) [
    | none ↦ (false, w)
    | some responses ↦ if is_nil responses then (false, w) else elim (query_entities [] w) [
      | none ↦ (false, w)
      | some all_responses ↦
          if is_cond_value_in values (map (λ r. r.attributes) all_responses)
          then (true, S.notify (initial_notification responses) w)
          else (false, w)
    ]
  ]

  -- An interval condition without a value is read out of range, and an interval may overflow: none.
  unfoldable pub process_condition_vector :
      List NotifyCondition → S.World → Option (Processed S.World)
  unfolding process_on_change_condition duration_seconds to_int
  process_condition_vector [] w = some (record { conditions = []; notified = false; world = w })
  process_condition_vector (nc ∷ ncs) w =
      if nc.type == on_time_interval_condition
      then elim nc.values [
        | [] ↦ none
        | value ∷ values ↦ elim (duration_seconds value) [
          | none ↦ none
          | some n ↦
              elim (process_condition_vector ncs (S.start_interval t.id (to_int n) c.tenant w)) [
                | none ↦ none
                | some p ↦ some (record p { conditions = interval n ∷ p.conditions })
              ]
        ]
      ]
      else if nc.type == on_change_condition
      then (let (sent, w1) = process_on_change_condition nc.values w in
          elim (process_condition_vector ncs w1) [
            | none ↦ none
            | some p ↦ some (record p {
              conditions = change nc.values ∷ p.conditions;
              notified = sent || p.notified;
            })
          ])
      else process_condition_vector ncs w
