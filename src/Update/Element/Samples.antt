-- ===== src/Update/Element/Samples.antt =====
-- The theorems on whole requests at a concrete database: a list of entity documents, and the
-- notifications that were sent.
use fiware_orion.Base.{
  ◌≡◌, ◌≤◌, ◌<◌, refl, str_beq, any, all, ◌⊎◌, inl, inr, true, false, none, some, List, [], ◌∷◌,
  ◌++◌, codes, map, All, arith, length,
}
use fiware_orion.Base.Int.{pos}
use fiware_orion.Entity.Keys.{keys, target}
use fiware_orion.Entity.Consistent.{IsConsistent}
use fiware_orion.Entity.Samples.{room, warmer, room-IsConsistent}
use fiware_orion.Registry.{is_true}
use fiware_orion.Entity.Attribute.{new_attribute}
use fiware_orion.Entity.CustomMetadata.{get_id, find_metadata}
use fiware_orion.Strings.Bytes.{strcasecmp_eq}
use fiware_orion.Entity.{ContextAttribute}
use fiware_orion.Registry.Samples.{literal}
use fiware_orion.Update.{StatusCode}
use fiware_orion.Update.Samples.{plain, request, room_id}
use fiware_orion.Update.Subscriptions.{ok, TriggeredSubscription, json, SubMap}
use fiware_orion.Update.Backend.{Backend, NewEntity, EntityDoc, Notification, Call}
use fiware_orion.Update.Keeps.{Keeps}
use fiware_orion.Update.Create.{
  new_entity, created, new_doc_id, legal_id_usage_all, mixes_id, process_location,
  metadata_location,
}
use fiware_orion.Update.Create.Laws.{IsNewEntity, new_entity-IsNewEntity}
use fiware_orion.Update.Element.{ContextElement, ElementResponse}
use fiware_orion.Update.Element.Found.{process_docs}
use fiware_orion.Update.Element.Process.{process_context_element}
use fiware_orion.Update.Element.Laws.{process_context_element-keeps}
use fiware_orion.Update.Element.Answers.{process_docs-entities, found_entities}
use fiware_orion.Update.Element.Refused.{
  Cause, an_empty, AnswersFor, process_context_element-refused,
}
use fiware_orion.Update.Context.{
  mongo_update_context, mongo_update_context-answers, mongo_update_context-keeps,
}

abbrev Stored : Type 0
Stored = List (EntityDoc plain) × List Notification

abbrev pub database : Backend plain
database = record {
  World = Stored;
  entities = λ w tenant q. ok w.0;
  subscriptions = λ w q. ok [];
  registrations = λ w q. ok [];
  ensure_location_index = λ tenant w. w;
  update = λ tenant q u w.
      (none, (record { doc_id = none; attrs = u.attrs; location = u.location } ∷ [], w.1));
  insert = λ tenant d w. (
    none,
    (record { doc_id = some d.doc_id; attrs = d.attrs; location = d.location } ∷ w.0, w.1),
  );
  remove = λ tenant q w. (none, ([], w.1));
  notify = λ n w. (true, (w.0, w.1 ++ n ∷ []));
  mark_notified = λ tenant id now w. (none, w);
}

abbrev AllConsistent : Stored → Type 0
AllConsistent w = All (λ d. IsConsistent (keys d.attrs)) w.0

same_docs :
    (l r : List (EntityDoc plain))
    → ok l ≡ ok r
    → All (λ d. IsConsistent (keys d.attrs)) l
    → All (λ d. IsConsistent (keys d.attrs)) r
same_docs l r e h = ground (arith, e, h)

database-Keeps : Keeps database AllConsistent
database-Keeps = record {
  found = λ w tenant q docs p e. same_docs w.0 docs e p;
  index = λ tenant w p. p;
  update = λ tenant q u w c p. (c, tt);
  insert = λ tenant d w c p. (c, p);
  remove = λ tenant q w p. tt;
  notify = λ n w p. p;
  mark = λ tenant id now w p. p;
}

abbrev pub here : Stored
here = (
  record {
    doc_id = some (record { id = codes "room1"; type = some (codes "room"); service_path = none });
    attrs = room;
    location = none;
  }
      ∷ [],
  [],
)

abbrev pub element : ContextElement
element = record { entity = room_id; attributes = warmer ∷ [] }

abbrev pub append : Call
append = record { action = codes "APPEND"; caller = []; token = []; only_untyped = false }

here-Consistent : AllConsistent here
here-Consistent = (room-IsConsistent, tt)

no_repeat : IsConsistent (map target (warmer ∷ []))
no_repeat = (tt, tt)

abbrev every_minute : TriggeredSubscription
every_minute = record {
  throttling = pos 60;
  last_notification = pos 450;
  format = json;
  reference = codes "http://app/";
  attributes = [];
}

abbrev two : SubMap
two = (codes "1", every_minute) ∷ (codes "2", record every_minute { throttling = pos 10 }) ∷ []

process_docs-entities_example :
    (map (λ r. r.entity) (process_docs plain database request append element here.0 here).responses
      ≡ found_entities literal database request append element here.0)
    × ((process_docs plain database request append element here.0 here).docs
        ≤ length (process_docs plain database request append element here.0 here).responses)
process_docs-entities_example =
    process_docs-entities literal database request append element here.0 here

process_context_element-keeps_example :
    AllConsistent (process_context_element plain literal database request append element here).1
process_context_element-keeps_example =
    process_context_element-keeps literal database AllConsistent database-Keeps request append
      element (inr no_repeat) here here-Consistent

mongo_update_context-answers_example :
    ((length request.service_paths ≤ 1)
      × ((mongo_update_context literal database request append (element ∷ []) here).error_code
          ≡ none)
      × (1
          ≤ length
              (mongo_update_context literal database request append (element ∷ []) here).responses))
    ⊎ ((1 < length request.service_paths)
        × (s : StatusCode) × ((mongo_update_context literal database request append
              (element ∷ [])
              here).error_code
            ≡ some s)
        × (s.code ≡ 400)
        × ((mongo_update_context literal database request append (element ∷ []) here).responses
            ≡ [])
        × ((mongo_update_context literal database request append (element ∷ []) here).world ≡ here))
mongo_update_context-answers_example =
    mongo_update_context-answers literal database request append (element ∷ []) here

mongo_update_context-keeps_example :
    AllConsistent (mongo_update_context literal database request append (element ∷ []) here).world
mongo_update_context-keeps_example =
    mongo_update_context-keeps literal database request append AllConsistent database-Keeps
      (element ∷ []) (inr no_repeat, tt) here here-Consistent

-- An attribute with an empty text
abbrev cold : ContextAttribute
cold = record warmer { value = [] }

abbrev cold_element : ContextElement
cold_element = record { entity = room_id; attributes = warmer ∷ (cold ∷ []) }

warmer_has_text : (warmer.compound ≡ none) × (warmer.value ≡ []) → ⊥
warmer_has_text (c, v) = absurd (ground (arith, v))

cold_refused : Cause literal database request append cold_element here
unfolding is_true str_beq strcasecmp_eq
cold_refused = an_empty cold refl (inr refl) (inr (warmer_has_text, inl ((refl, refl), refl)))

process_context_element-refused_example :
    (r : ElementResponse) × (process_context_element plain literal database request append
        cold_element here
      ≡ (r ∷ [], here))
    × (r.entity ≡ room_id)
    × AnswersFor literal database request append cold_element cold_refused r
process_context_element-refused_example =
    process_context_element-refused literal database request append cold_element here cold_refused

abbrev new_room : NewEntity plain
new_room = record {
  doc_id = new_doc_id room_id [];
  attrs = new_attribute 500 warmer ∷ [];
  cre_date = 500;
  mod_date = 500;
  location = none;
}

new_room_created : new_entity plain request room_id (warmer ∷ []) ≡ created new_room
unfolding new_entity legal_id_usage_all mixes_id process_location metadata_location get_id
    find_metadata str_beq any all
new_room_created = refl

new_entity-IsNewEntity_example : IsNewEntity plain request room_id (warmer ∷ []) new_room
new_entity-IsNewEntity_example =
    new_entity-IsNewEntity plain request room_id (warmer ∷ []) new_room new_room_created
