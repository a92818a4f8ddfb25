-- ===== src/Update/Process/Lost.antt =====
-- A location that processContextAttributeVector of src/lib/mongoBackend/MongoCommonUpdate.cpp sets and
-- its caller does not write.
use fiware_orion.Base.{
  Str, ◌≡◌, refl, ap, ◌==◌, str_eq, true, false, List, [], ◌∷◌, ◌++◌, arith, codes, str_beq_iff,
}
use fiware_orion.Strings.Bytes.{strcasecmp_eq}
use fiware_orion.Strings.Coords.{Double, string2coords}
use fiware_orion.Entity.{ContextAttribute}
use fiware_orion.Entity.Attribute.{append_attribute, legal_id_usage}
use fiware_orion.Update.{EntityId, scc_ok}
use fiware_orion.Entity.CustomMetadata.{get_location}
use fiware_orion.Update.Subscriptions.{
  SubDoc, SubQuery, SubMap, DbResult, ok, Origin, add_triggered_subscriptions,
}
use fiware_orion.Update.Process.{
  mirror, location_wgs84, Run, next, trigger, append_location, process_append, process_attribute,
  process_loop, finish, process_context_attribute_vector,
}

module _ (D : Double) (query : SubQuery → DbResult (List SubDoc)) (o : Origin) (en : EntityId) where
  -- The other branches of the action, and the checks before the location.
  module _ (action : Str) (ca : ContextAttribute) (st : Run D) (subs : SubMap)
      (other : strcasecmp_eq action (codes "update") ≡ false)
      (is_append : strcasecmp_eq action (codes "append") ≡ true)
      (legal : legal_id_usage st.attrs ca ≡ true)
      (same : (append_attribute o.now st.attrs ca).1 ≡ false)
      (wgs84 : get_location ca ≡ location_wgs84) (first : st.loc_attr ≡ [])
      (good : (string2coords D ca.value st.coords).0 ≡ true)
      (answer : add_triggered_subscriptions query o en.id en.type ca.name st.subs ≡ ok subs) where
    abbrev appended : Run D
    appended = record st {
      response = st.response ++ mirror ca ∷ [];
      attrs = (append_attribute o.now st.attrs ca).0;
      modified = false;
    }

    abbrev moved : Run D
    moved = record appended {
      coords = (string2coords D ca.value st.coords).1;
      loc_attr = ca.name;
      subs = subs;
    }

    append_location-moved : append_location D query o en ca appended ≡ next moved
    unfolding append_location trigger
    append_location-moved =
        let some_location : (get_location ca == []) ≡ false =
          ground (arith, wgs84, str_beq_iff (get_location ca) []) in
        let no_location : (st.loc_attr == []) ≡ true = (str_beq_iff st.loc_attr []).1 first in
        let known : (get_location ca == location_wgs84) ≡ true =
          (str_beq_iff (get_location ca) location_wgs84).1 wgs84 in
        rw (some_location, no_location, known, good, answer) refl

    one_round :
        process_attribute D query o en action ca (record st { modified = false }) ≡ next moved
    unfolding process_attribute process_append
    one_round = rw (other, is_append, legal, same) append_location-moved

    one_loop :
        process_loop D query o en action (ca ∷ []) (record st { modified = false }) ≡ next moved
    unfolding process_loop
    one_loop = rw (one_round, process_loop)

    finished :
        process_context_attribute_vector D query o en action (ca ∷ []) st
        ≡ (false, record moved { status = record { code = scc_ok; details = [] } })
    unfolding process_context_attribute_vector finish
    finished = ap (finish D) one_loop

    -- If an APPEND sets the location on an attribute that is there, and changes nothing else of it, then
    -- the function sets `locAttr` but returns false with status 200: the caller does not write the
    -- location to the database.
    pub append-location_lost :
        ((process_context_attribute_vector D query o en action (ca ∷ []) st).0 ≡ false)
        × ((process_context_attribute_vector D query o en action (ca ∷ []) st).1.status.code
            ≡ scc_ok)
        × ((process_context_attribute_vector D query o en action (ca ∷ []) st).1.loc_attr ≡ ca.name)
    append-location_lost = rw finished (refl, refl, refl)
