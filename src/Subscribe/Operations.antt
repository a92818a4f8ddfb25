-- ===== src/Subscribe/Operations.antt =====
-- mongoSubscribeContext, mongoUpdateContextSubscription and mongoUnsubscribeContext of
-- src/lib/mongoBackend. No result stands for undefined behaviour: a duration that no long long
-- holds, or an interval condition without a value.
use fiware_orion.Base.{
  ℕ, ◌+◌, Str, ◌==◌, str_eq, ◌++◌, Bool, false, Option, none, some, List, [], ◌∷◌, codes,
  if◌then◌else◌,
}
use fiware_orion.Base.Int.{ℤ, pos, eqb_ℤ}
use fiware_orion.Update.{
  EntityId, StatusCode, scc_ok, scc_context_element_not_found, scc_receiver_internal_error,
}
use fiware_orion.Update.Subscriptions.{first_path, Format, no_format, xml, json}
use fiware_orion.Registry.{is_nil}
use fiware_orion.Subscribe.{
  NotifyCondition, Condition, Subscription, bad_id, absent, failed, present, Store, Caller,
  default_duration, duration_seconds, expiration_after, to_int,
}
use fiware_orion.Subscribe.Conditions.{Processed, process_condition_vector}

pub record SubscribeRequest : Type 0 where
  pub entities : List EntityId
  pub attributes : List Str
  pub reference : Str
  pub duration : Str
  pub throttling : Str
  pub conditions : List NotifyCondition
  pub notify_format : Str

pub record ChangeRequest : Type 0 where
  pub subscription_id : Str
  pub duration : Str
  pub throttling : Str
  pub conditions : List NotifyCondition

-- SubscribeResponse, or SubscribeError
pub data SubscribeReply : Type 0 where
  accepted : Str → Str → Str → SubscribeReply
  refused : StatusCode → SubscribeReply

abbrev pub not_found : StatusCode
not_found = record { code = scc_context_element_not_found; details = [] }

abbrev internal : Str → StatusCode
internal details = record { code = scc_receiver_internal_error; details = details }

unfoldable pub format_to_string : Format → Str
format_to_string xml = codes "XML"
format_to_string json = codes "JSON"
format_to_string no_format = codes "NOFORMAT"

unfoldable pub duration_or_default : Str → Str
duration_or_default [] = default_duration
duration_or_default (b ∷ s) = b ∷ s

unfoldable pub expires : ℕ → Str → Option ℤ
unfolding duration_seconds expiration_after
expires now duration = elim (duration_seconds duration) [
  | none ↦ none
  | some n ↦ expiration_after now n
]

-- The throttling field of a new subscription. The outer option is for undefined behaviour.
unfoldable pub throttling_field : Str → Option (Option ℤ)
unfolding duration_seconds
throttling_field text =
    if text == []
    then some none
    else elim (duration_seconds text) [ none ↦ none | some n ↦ some (some n) ]

-- An empty text leaves the field as it is, and zero takes it out.
unfoldable pub changed_throttling : Str → Option ℤ → Option (Option ℤ)
unfolding duration_seconds
changed_throttling text old = if text == [] then some old else elim (duration_seconds text) [
  | none ↦ none
  | some n ↦ some (if eqb_ℤ n (pos 0) then none else some n)
]

unfoldable pub changed_expiration : ℕ → Str → ℤ → Option ℤ
unfolding expires
changed_expiration now text old = if text == [] then some old else expires now text

module _ (decimal : ℕ → Str) (S : Store) (c : Caller) where
  unfoldable pub new_subscription :
      SubscribeRequest → ℤ → Option ℤ → Processed S.World → Subscription
  new_subscription r expiration throttling p = record {
    expiration = expiration;
    reference = r.reference;
    throttling = throttling;
    service_path =
        if first_path c.service_paths == [] then none else some (first_path c.service_paths);
    entities = r.entities;
    attributes = r.attributes;
    conditions = p.conditions;
    last_notification = if p.notified then some (pos c.now) else none;
    count = if p.notified then some 1 else none;
    format = r.notify_format;
  }

  unfoldable pub insert_subscription :
      SubscribeRequest → Str → ℤ → Option ℤ → Processed S.World → SubscribeReply × S.World
  unfolding new_subscription duration_or_default
  insert_subscription r id expiration throttling p =
      let (problem, w) =
        S.insert c.tenant id (new_subscription r expiration throttling p) p.world in
      elim problem [
        | some text ↦ (refused (internal text), w)
        | none ↦ (accepted id (duration_or_default r.duration) r.throttling, w)
      ]

  unfoldable pub mongo_subscribe_context :
      SubscribeRequest → S.World → Option (SubscribeReply × S.World)
  unfolding duration_or_default expires throttling_field process_condition_vector
      insert_subscription
  mongo_subscribe_context r w = elim (expires c.now (duration_or_default r.duration)) [
    | none ↦ none
    | some expiration ↦ elim (throttling_field r.throttling) [
      | none ↦ none
      | some throttling ↦
          let (id, w1) = S.new_id w in
          elim (process_condition_vector decimal S c
            (record {
              id = id;
              entities = r.entities;
              attributes = r.attributes;
              url = r.reference;
              format = if r.notify_format == codes "XML" then xml else json;
            })
            r.conditions w1) [
              | none ↦ none
              | some p ↦ some (insert_subscription r id expiration throttling p)
            ]
    ]
  ]

  -- The new document. The old time of the last notification is read as an int. It has neither the service path nor the fields that the old one lacks.
  unfoldable pub changed_subscription :
      Format → Subscription → ℤ → Option ℤ → List Condition → Bool → Subscription
  unfolding format_to_string to_int
  changed_subscription format old expiration throttling conditions notified = record {
    expiration = expiration;
    reference = old.reference;
    throttling = throttling;
    service_path = none;
    entities = old.entities;
    attributes = old.attributes;
    conditions = conditions;
    last_notification =
        if notified
        then some (pos c.now)
        else elim old.last_notification [ none ↦ none | some n ↦ some (to_int n) ];
    count = if notified then some ((elim old.count [ none ↦ 0 | some n ↦ n ]) + 1) else old.count;
    format = format_to_string format;
  }

  -- The conditions of the request, or the old ones if it has none.
  unfoldable pub changed_conditions :
      Format → ChangeRequest → Subscription → S.World → Option (Processed S.World)
  unfolding process_condition_vector is_nil
  changed_conditions format r old w =
      if is_nil r.conditions
      then some (record { conditions = old.conditions; notified = false; world = w })
      else process_condition_vector decimal S c
          (record {
            id = r.subscription_id;
            entities = old.entities;
            attributes = old.attributes;
            url = old.reference;
            format = format;
          })
          r.conditions (S.stop_intervals r.subscription_id w)

  unfoldable pub write_changed :
      Format
      → ChangeRequest
      → Subscription
      → ℤ
      → Option ℤ
      → Processed S.World
      → SubscribeReply × S.World
  unfolding changed_subscription
  write_changed format r old expiration throttling p =
      let (problem, w) =
        S.update c.tenant r.subscription_id
          (changed_subscription format old expiration throttling p.conditions p.notified) p.world in
      elim problem [
        | some text ↦ (refused (internal text), w)
        | none ↦ (accepted r.subscription_id r.duration r.throttling, w)
      ]

  unfoldable pub change_present :
      Format → ChangeRequest → Subscription → S.World → Option (SubscribeReply × S.World)
  unfolding changed_expiration changed_throttling changed_conditions write_changed
  change_present format r old w = elim (changed_expiration c.now r.duration old.expiration) [
    | none ↦ none
    | some expiration ↦ elim (changed_throttling r.throttling old.throttling) [
      | none ↦ none
      | some throttling ↦ elim (changed_conditions format r old w) [
        | none ↦ none
        | some p ↦ some (write_changed format r old expiration throttling p)
      ]
    ]
  ]

  unfoldable pub mongo_update_context_subscription :
      Format → ChangeRequest → S.World → Option (SubscribeReply × S.World)
  unfolding change_present
  mongo_update_context_subscription format r w = elim (S.find_one w c.tenant r.subscription_id) [
    | bad_id ↦ some (refused not_found, w)
    | failed text ↦ some (refused (internal text), w)
    | absent ↦ some (refused not_found, w)
    | present old ↦ change_present format r old w
  ]

  -- What follows the removal
  unfoldable pub removed : Str → Option Str × S.World → StatusCode × S.World
  removed id (some text, w) = (internal text, w)
  removed id (none, w) = (record { code = scc_ok; details = [] }, S.stop_intervals id w)

  unfoldable pub mongo_unsubscribe_context : Str → S.World → StatusCode × S.World
  unfolding removed
  mongo_unsubscribe_context id w = elim (S.find_one w c.tenant id) [
    | bad_id ↦ (not_found, w)
    | failed text ↦ (internal text, w)
    | absent ↦ (
      record {
        code = scc_context_element_not_found;
        details = codes "subscriptionId: /" ++ (id ++ codes "/");
      },
      w,
    )
    | present old ↦ removed id (S.remove c.tenant id w)
  ]
