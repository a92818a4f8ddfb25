-- ===== src/Register/Operations.antt =====
-- processAssociations, addTriggeredSubscriptions, processSubscriptions and processRegisterContext of
-- src/lib/mongoBackend/MongoCommonRegister.cpp, processAvailabilitySubscription of MongoGlobal.cpp and
-- mongoRegisterContext of mongoRegisterContext.cpp.
use fiware_orion.Base.{
  ℕ, Str, ◌++◌, ◌==◌, str_eq, not, Bool, true, false, Option, none, some, List, [], ◌∷◌, map, codes,
  if◌then◌else◌,
}
use fiware_orion.Base.Int.{ℤ, negsuc}
use fiware_orion.Bson.{str_field}
use fiware_orion.Update.{
  EntityId, StatusCode, scc_ok, scc_context_element_not_found, scc_receiver_internal_error,
}
use fiware_orion.Update.Subscriptions.{
  DbResult, ok, failed, SubDoc, SubMap, insert_sub, string_to_format, Format, xml,
}
use fiware_orion.Registry.{Regex, query_result}
use fiware_orion.Subscribe.Operations.{duration_or_default, expires}
use fiware_orion.Register.Store.{
  RegistrationMetadata, ContextRegistration, StoredEntity, AssociationDoc, StoredRegistration,
  RegistrationDoc, AvailabilityQuery, Store, bad_id, absent, present, db_error,
}

pub record RegisterRequest : Type 0 where
  pub registrations : List ContextRegistration
  pub duration : Str
  pub registration_id : Str

-- RegisterContextResponse
pub record RegisterReply : Type 0 where
  pub status : StatusCode
  pub duration : Str
  pub registration_id : Str

unfoldable pub stored_entity : Str → Str → StoredEntity
stored_entity id type = record { id = id; type = if type == [] then none else some type }

unfoldable pub association_doc : RegistrationMetadata → AssociationDoc
unfolding stored_entity
association_doc md = record {
  name = md.name;
  source = stored_entity md.source_id md.source_type;
  target = stored_entity md.target_id md.target_type;
  attributes = md.attributes;
}

unfoldable pub stored_registration : ContextRegistration → StoredRegistration
unfolding stored_entity
stored_registration cr = record {
  entities = map (λ en. stored_entity en.id en.type) cr.entities;
  attributes = cr.attributes;
  providing_application = cr.providing_application;
}

unfoldable pub plain_entities : List EntityId → List (Str × Str)
plain_entities [] = []
plain_entities (en ∷ ens) =
    let rest = plain_entities ens in
    if en.is_pattern == codes "false" then (en.id, en.type) ∷ rest else rest

abbrev pub format_or_xml : Option Str → Format
format_or_xml none = xml
format_or_xml (some s) = string_to_format s

unfoldable pub collect_availability : List SubDoc → SubMap → SubMap
unfolding insert_sub
collect_availability [] subs = subs
collect_availability (sub ∷ docs) subs = collect_availability docs (elim sub.id [
  | none ↦ subs
  | some id ↦
      insert_sub id
        (record {
          throttling = negsuc 0;
          last_notification = negsuc 0;
          format = format_or_xml sub.format;
          reference = str_field sub.reference;
          attributes = sub.attributes;
        })
        subs
])

abbrev no_reply : StatusCode → RegisterReply
no_reply s = record { status = s; duration = []; registration_id = [] }

abbrev internal : Str → StatusCode
internal details = record { code = scc_receiver_internal_error; details = details }

module _ (R : Regex) (S : Store) (tenant : Str) (now : ℕ) where
  -- The loop ends with the first error.
  unfoldable pub process_associations : List RegistrationMetadata → S.World → Option Str × S.World
  unfolding association_doc
  process_associations [] w = (none, w)
  process_associations (md ∷ mds) w =
      if not (md.type == codes "Association")
      then process_associations mds w
      else (let (problem, w1) = S.associate tenant (association_doc md) w in
          elim problem [ some text ↦ (some text, w1) | none ↦ process_associations mds w1 ])

  unfoldable pub availability_query : ContextRegistration → AvailabilityQuery
  unfolding plain_entities
  availability_query cr = record {
    entities = plain_entities cr.entities;
    attributes = map (λ a. a.name) cr.attributes;
    now = now;
    tenant = tenant;
  }

  -- The loop over the context registrations: associations, then subscriptions. The result is an error, or the
  -- subscriptions to notify.
  unfoldable pub process_registrations :
      List ContextRegistration → SubMap → S.World → DbResult SubMap × S.World
  unfolding process_associations availability_query collect_availability
  process_registrations [] subs w = (ok subs, w)
  process_registrations (cr ∷ crs) subs w =
      let (problem, w1) = process_associations cr.metadata w in
      elim problem [
        | some text ↦ (failed [], w1)
        | none ↦ elim (S.subscriptions w1 (availability_query cr)) [
          | failed text ↦ (failed text, w1)
          | ok docs ↦ process_registrations crs (collect_availability docs subs) w1
        ]
      ]

  -- An exception at the update of the subscription is no failure: mongoUpdateCasubNewNotification gives SccOk.
  unfoldable pub process_availability_subscription :
      List EntityId → List Str → Str → Str → Format → S.World → Bool × S.World
  unfolding query_result
  process_availability_subscription ens attributes id url format w =
      elim (S.registrations w
        (record { entities = ens; attributes = attributes; tenant = tenant })) [
          | failed text ↦ (false, w)
          | ok docs ↦ elim (query_result R ens attributes docs) [
            | [] ↦ (false, w)
            | crr ∷ crrs ↦ (
              true,
              S.mark_notified tenant id (
                  S.notify
                    (record {
                      subscription_id = id;
                      responses = crr ∷ crrs;
                      url = url;
                      tenant = tenant;
                      format = format;
                    })
                    w),
            )
          ]
        ]

  -- processSubscriptions: its result is not looked at.
  unfoldable pub notify_subscriptions : List EntityId → SubMap → S.World → S.World
  unfolding process_availability_subscription
  notify_subscriptions ens [] w = w
  notify_subscriptions ens ((id, t) ∷ subs) w =
      notify_subscriptions ens subs
        (process_availability_subscription ens t.attributes id t.reference t.format w).1

  unfoldable pub all_entities : List ContextRegistration → List EntityId
  all_entities [] = []
  all_entities (cr ∷ crs) = cr.entities ++ all_entities crs

  unfoldable pub registration_doc : RegisterRequest → ℤ → Str → RegistrationDoc
  unfolding stored_registration
  registration_doc r expiration path = record {
    expiration = expiration;
    service_path = path;
    registrations = map stored_registration r.registrations;
  }

  -- From the upsert on
  unfoldable pub upsert_registration :
      RegisterRequest → Str → Str → ℤ → SubMap → S.World → RegisterReply × S.World
  unfolding registration_doc all_entities notify_subscriptions duration_or_default
  upsert_registration r path id expiration subs w =
      let (problem, w1) = S.upsert tenant id (registration_doc r expiration path) w in
      elim problem [
        | some text ↦ (no_reply (internal text), w1)
        | none ↦ (
          record {
            status = record { code = scc_ok; details = [] };
            duration = duration_or_default r.duration;
            registration_id = id;
          },
          notify_subscriptions (all_entities r.registrations) subs w1,
        )
      ]

  -- A new identifier, or that of the registration.
  unfoldable pub chosen_id : Option Str → S.World → Str × S.World
  chosen_id none w = S.new_id w
  chosen_id (some id) w = (id, w)

  -- What follows the loop
  unfoldable pub after_registrations :
      RegisterRequest → Str → Str → ℤ → DbResult SubMap × S.World → RegisterReply × S.World
  unfolding upsert_registration
  after_registrations r path id expiration (failed text, w) = (no_reply (internal text), w)
  after_registrations r path id expiration (ok subs, w) =
      upsert_registration r path id expiration subs w

  -- `known` is that of the registration to update, if it is one. No result stands for an overflow.
  unfoldable pub process_register_context :
      RegisterRequest → Option Str → Str → S.World → Option (RegisterReply × S.World)
  unfolding process_registrations after_registrations chosen_id expires duration_or_default
  process_register_context r known path w = elim (expires now (duration_or_default r.duration)) [
    | none ↦ none
    | some expiration ↦
        let (id, w1) = chosen_id known w in
        some
          (after_registrations r path id expiration (process_registrations r.registrations [] w1))
  ]

  unfoldable pub path_or_root : Str → Str
  path_or_root [] = codes "/"
  path_or_root (b ∷ s) = b ∷ s

  abbrev not_there : RegisterRequest → Str → RegisterReply
  not_there r details = record {
    status = record { code = scc_context_element_not_found; details = details };
    duration = [];
    registration_id = r.registration_id;
  }

  unfoldable pub update_registration :
      RegisterRequest → Str → S.World → Option (RegisterReply × S.World)
  unfolding process_register_context
  update_registration r path w = elim (S.find_one w tenant r.registration_id path) [
    | bad_id ↦ some (not_there r [], w)
    | db_error text ↦ some (no_reply (internal text), w)
    | absent ↦
        some (not_there r (codes "registration id: /" ++ (r.registration_id ++ codes "/")), w)
    | present ↦ process_register_context r (some r.registration_id) path w
  ]

  unfoldable pub mongo_register_context :
      RegisterRequest → Str → S.World → Option (RegisterReply × S.World)
  unfolding update_registration path_or_root process_register_context
  mongo_register_context r service_path w =
      if r.registration_id == []
      then process_register_context r none (path_or_root service_path) w
      else update_registration r (path_or_root service_path) w
