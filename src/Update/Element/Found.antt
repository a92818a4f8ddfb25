-- ===== src/Update/Element/Found.antt =====
-- The loop of processContextElement of src/lib/mongoBackend/MongoCommonUpdate.cpp over the entities
-- that the database holds.
use fiware_orion.Base.{
  ℕ, ◌+◌, ◌==◌, str_eq, ◌&&◌, ◌||◌, not, Bool, false, none, some, List, [], ◌∷◌, ◌++◌, codes, map,
  if◌then◌else◌,
}
use fiware_orion.Bson.{str_field}
use fiware_orion.Strings.Bytes.{strcasecmp_eq}
use fiware_orion.Strings.Coords.{Double}
use fiware_orion.Registry.{is_nil}
use fiware_orion.Update.{EntityId, StatusCode, no_status, scc_ok, scc_receiver_internal_error}
use fiware_orion.Update.Subscriptions.{Origin}
use fiware_orion.Update.Process.{Run, process_context_attribute_vector}
use fiware_orion.Update.Backend.{DocId, EntityDoc, EntityUpdate, Backend, Call}
use fiware_orion.Update.Create.{remove_entity}
use fiware_orion.Update.Notify.{process_subscriptions}
use fiware_orion.Update.Element.{
  ContextElement, ElementResponse, as_attribute, update_query, Answer,
}

module _ (D : Double) (B : Backend D) (o : Origin) (call : Call) (ce : ContextElement) where
  abbrev pub doc_entity : DocId → EntityId
  doc_entity id = record { id = id.id; type = str_field id.type; is_pattern = codes "false" }

  -- The variables before processContextAttributeVector.
  unfoldable pub start_run : EntityDoc D → Run D
  start_run doc = record {
    attrs = doc.attrs;
    modified = false;
    loc_attr = elim doc.location [ none ↦ [] | some l ↦ l.0 ];
    coords = elim doc.location [
      | none ↦ record { latitude = D.zero; longitude = D.zero }
      | some l ↦ l.1
    ];
    subs = [];
    response = [];
    status = no_status;
    not_found = false;
  }

  unfoldable pub processed : B.World → DocId → EntityDoc D → Bool × Run D
  processed w id doc =
      process_context_attribute_vector D (B.subscriptions w) o (doc_entity id) call.action
        ce.attributes (start_run doc)

  unfoldable pub doc_response : DocId → Run D → StatusCode → ElementResponse
  doc_response id run status = record {
    entity = doc_entity id;
    attributes = map as_attribute run.response;
    status = status;
  }

  unfoldable pub entity_update : Run D → EntityUpdate D
  entity_update run = record {
    attrs = run.attrs;
    mod_date = o.now;
    location = if run.loc_attr == [] then none else some (run.loc_attr, run.coords);
  }

  -- 'Entity found but attribute not found', and the caller looks for a context provider: not counted.
  unfoldable pub counted : Run D → ℕ
  counted run = if not run.not_found || not (call.caller == codes "postUpdateContext") then 1 else 0

  -- The update of the database, and the notifications. The request's entity is notified.
  unfoldable pub write_entity : DocId → Run D → B.World → Answer B
  write_entity id run w =
      let (err, w1) = B.update o.tenant (update_query o id) (entity_update run) w in
      elim err [
        | some text ↦ record {
          responses =
              doc_response id run (record { code = scc_receiver_internal_error; details = text })
              ∷ [];
          docs = 1;
          world = w1;
        }
        | none ↦
            let (result, errs, w2) = process_subscriptions D B o ce.entity call.token run.subs w1 in
            record {
              responses = doc_response id run (record { code = scc_ok; details = [] }) ∷ [];
              docs = 1;
              world = w2;
            }
      ]

  -- A DELETE without attributes deletes the entity.
  unfoldable pub removes_entity : Bool
  removes_entity = strcasecmp_eq call.action (codes "delete") && is_nil ce.attributes

  unfoldable pub remove_doc : DocId → B.World → Answer B
  remove_doc id w =
      let (status, w1) =
        remove_entity D B o.tenant id.id (str_field id.type) (str_field id.service_path) w in
      record {
        responses = record { entity = doc_entity id; attributes = []; status = status } ∷ [];
        docs = 1;
        world = w1;
      }

  unfoldable pub update_doc : DocId → EntityDoc D → B.World → Answer B
  update_doc id doc w =
      let (modified, run) = processed w id doc in
      if not modified
      then record { responses = doc_response id run run.status ∷ []; docs = counted run; world = w }
      else write_entity id run w

  -- One round of the loop over the cursor.
  unfoldable pub process_doc : EntityDoc D → B.World → Answer B
  process_doc doc w = elim doc.doc_id [
    | none ↦ record { responses = []; docs = 0; world = w }
    | some id ↦ if removes_entity then remove_doc id w else update_doc id doc w
  ]

  unfoldable pub process_docs : List (EntityDoc D) → B.World → Answer B
  process_docs [] w = record { responses = []; docs = 0; world = w }
  process_docs (doc ∷ docs) w =
      let here = process_doc doc w in
      let rest = process_docs docs here.world in
      record {
        responses = here.responses ++ rest.responses;
        docs = here.docs + rest.docs;
        world = rest.world;
      }
