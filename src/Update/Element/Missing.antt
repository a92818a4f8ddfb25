-- ===== src/Update/Element/Missing.antt =====
-- processContextElement of src/lib/mongoBackend/MongoCommonUpdate.cpp where the database has no such
-- entity.
use fiware_orion.Base.{
  Str, str_eq, not, Option, none, some, List, [], ◌∷◌, codes, map, if◌then◌else◌,
}
use fiware_orion.Strings.Bytes.{strcasecmp_eq}
use fiware_orion.Strings.Coords.{Double}
use fiware_orion.Entity.{ContextAttribute}
use fiware_orion.Registry.{Regex, Registration, query_result}
use fiware_orion.Update.{
  StatusCode, scc_ok, scc_found, scc_invalid_parameter, scc_context_element_not_found,
  scc_receiver_internal_error,
}
use fiware_orion.Update.Subscriptions.{
  Origin, SubMap, DbResult, ok, failed, add_triggered_subscriptions,
}
use fiware_orion.Update.Process.{mirror}
use fiware_orion.Update.Backend.{Backend, Call}
use fiware_orion.Update.Create.{create_entity}
use fiware_orion.Update.Notify.{process_subscriptions}
use fiware_orion.Update.Element.{ContextElement, ElementResponse, general_error, as_attribute}

module _ (D : Double) (R : Regex) (B : Backend D) (o : Origin) (call : Call)
    (ce : ContextElement) where
  -- registrationsQuery, with a limit of one document: the first registration it returns, if any.
  unfoldable pub context_provider : B.World → DbResult (List Registration)
  context_provider w =
      let asked = map (λ ca. ca.name) ce.attributes in
      elim (B.registrations w (record {
        entity = ce.entity;
        attributes = asked;
        tenant = o.tenant;
        service_paths = o.service_paths;
        limit = 1;
      })) [ ok docs ↦ ok (query_result R (ce.entity ∷ []) asked docs) | failed err ↦ failed err ]

  -- No entity, and the action is not APPEND: a context provider, or not found.
  unfoldable pub forward_or_not_found : B.World → ElementResponse
  forward_or_not_found w = elim (context_provider w) [
    | failed err ↦ general_error ce [] scc_context_element_not_found ce.entity.id
    | ok [] ↦ general_error ce [] scc_context_element_not_found ce.entity.id
    | ok (cr ∷ crs) ↦ general_error ce ce.attributes scc_found cr.providing_application
  ]

  -- The subscriptions that a new entity triggers, or the error.
  unfoldable pub triggered_by_all : B.World → List ContextAttribute → SubMap → DbResult SubMap
  triggered_by_all w [] subs = ok subs
  triggered_by_all w (ca ∷ cas) subs =
      elim (add_triggered_subscriptions (B.subscriptions w) o ce.entity.id ce.entity.type ca.name
        subs) [ ok subs' ↦ triggered_by_all w cas subs' | failed err ↦ failed err ]

  -- After the creation: the notifications, unless a query for subscriptions fails.
  unfoldable pub notify_created : DbResult SubMap → B.World → StatusCode × B.World
  notify_created (failed text) w =
      (record { code = scc_receiver_internal_error; details = text }, w)
  notify_created (ok subs) w = (
    record { code = scc_ok; details = [] },
    (process_subscriptions D B o ce.entity call.token subs w).2,
  )

  unfoldable pub after_creation : Option Str → B.World → StatusCode × B.World
  after_creation (some text) w = (record { code = scc_invalid_parameter; details = text }, w)
  after_creation none w = notify_created (triggered_by_all w ce.attributes []) w

  -- No entity, and the action is APPEND: the entity is created.
  unfoldable pub append_entity : B.World → ElementResponse × B.World
  append_entity w =
      let (err, w1) = create_entity D B o ce.entity ce.attributes w in
      let (status, w2) = after_creation err w1 in
      (
        record {
          entity = record { id = ce.entity.id; type = ce.entity.type; is_pattern = codes "false" };
          attributes = map (λ ca. as_attribute (mirror ca)) ce.attributes;
          status = status;
        },
        w2,
      )

  unfoldable pub no_entity : B.World → List ElementResponse × B.World
  no_entity w =
      if not (strcasecmp_eq call.action (codes "append"))
      then (forward_or_not_found w ∷ [], w)
      else (let (response, w1) = append_entity w in (response ∷ [], w1))
