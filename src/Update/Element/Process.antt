-- ===== src/Update/Element/Process.antt =====
-- processContextElement of src/lib/mongoBackend/MongoCommonUpdate.cpp, from its checks on.
use fiware_orion.Base.{
  zero, suc, str_eq, ◌||◌, Option, none, some, List, [], ◌∷◌, ◌++◌, codes, if◌then◌else◌,
}
use fiware_orion.Strings.Bytes.{strcasecmp_eq}
use fiware_orion.Strings.Coords.{Double}
use fiware_orion.Entity.{ContextAttribute}
use fiware_orion.Registry.{Regex, is_true}
use fiware_orion.Update.{scc_not_implemented, scc_invalid_parameter, scc_receiver_internal_error}
use fiware_orion.Update.Subscriptions.{Origin, DbResult, ok, failed}
use fiware_orion.Update.Backend.{EntityDoc, Backend, Call}
use fiware_orion.Update.Element.{
  ContextElement, ElementResponse, general_error, empty_attribute, find_empty, entity_query, Answer,
}
use fiware_orion.Update.Element.Found.{process_docs}
use fiware_orion.Update.Element.Missing.{no_entity}

module _ (D : Double) (R : Regex) (B : Backend D) (o : Origin) (call : Call)
    (ce : ContextElement) where
  unfoldable pub after_docs : Answer B → List ElementResponse × B.World
  after_docs a = elim a.docs [
    | zero ↦
        (let (responses, w1) = no_entity D R B o call ce a.world in (a.responses ++ responses, w1))
    | suc n ↦ (a.responses, a.world)
  ]

  -- The check before the query: UPDATE and APPEND take no empty attribute.
  unfoldable pub empty_refused : Option ContextAttribute
  empty_refused =
      if strcasecmp_eq call.action (codes "update") || strcasecmp_eq call.action (codes "append")
      then find_empty ce.attributes
      else none

  -- After the query for the entities.
  unfoldable pub after_query :
      DbResult (List (EntityDoc D)) → B.World → List ElementResponse × B.World
  after_query (failed err) w = (general_error ce [] scc_receiver_internal_error err ∷ [], w)
  after_query (ok docs) w = after_docs (process_docs D B o call ce docs w)

  -- After the check for an empty attribute.
  unfoldable pub after_check : Option ContextAttribute → B.World → List ElementResponse × B.World
  after_check (some ca) w = (
    general_error ce (ca ∷ []) scc_invalid_parameter (empty_attribute call.action ce.entity ca)
        ∷ [],
    w,
  )
  after_check none w = after_query (B.entities w o.tenant (entity_query o call ce.entity)) w

  -- The responses that are added, and the world after the call.
  unfoldable pub process_context_element : B.World → List ElementResponse × B.World
  process_context_element w =
      if is_true ce.entity.is_pattern
      then (general_error ce [] scc_not_implemented [] ∷ [], w)
      else after_check empty_refused w
