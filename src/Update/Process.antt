-- ===== src/Update/Process.antt =====
-- processContextAttributeVector of src/lib/mongoBackend/MongoCommonUpdate.cpp: the attributes of a
-- request, one after the other, against the `attrs` of one entity document.
pub mod Messages
pub mod Invariant
pub mod Outcome
pub mod Present
pub mod Location
pub mod Lost
mod Samples
use fiware_orion.Base.{
  ◌≡◌, refl, ◌⊎◌, inl, inr, ℕ, Str, ◌==◌, str_eq, ◌&&◌, ◌||◌, not, Bool, true, false, List, [], ◌∷◌,
  ◌++◌, codes, if◌then◌else◌,
}
use fiware_orion.Strings.Bytes.{strcasecmp_eq}
use fiware_orion.Strings.Coords.{Double, Coords, string2coords}
use fiware_orion.Entity.{ContextAttribute, AttrDoc, Metadata}
use fiware_orion.Entity.CustomMetadata.{get_location}
use fiware_orion.Entity.Attribute.{
  update_attribute, append_attribute, delete_attribute, legal_id_usage, response_metadata,
}
use fiware_orion.Update.{
  EntityId, StatusCode, no_status, ResponseAttribute, scc_ok, scc_invalid_parameter,
  scc_receiver_internal_error,
}
use fiware_orion.Update.Subscriptions.{
  SubMap, SubDoc, SubQuery, DbResult, ok, failed, Origin, add_triggered_subscriptions,
}
use fiware_orion.Update.Process.Messages.{
  update_not_found, update_location_nature, update_location_value, append_second_location,
  append_location_system, append_location_value, append_not_legal, delete_location,
  delete_not_found, unknown_action,
}

-- LOCATION_WGS84 and LOCATION_WGS84_LEGACY of src/lib/mongoBackend/MongoGlobal.h
abbrev pub location_wgs84 : Str
location_wgs84 = codes "WGS84"

abbrev pub location_wgs84_legacy : Str
location_wgs84_legacy = codes "WSG84"

-- the attribute of the response that mirrors the one of the request
unfoldable pub mirror : ContextAttribute → ResponseAttribute
mirror ca = record { name = ca.name; type = ca.type; metadata = response_metadata ca }

module _ (D : Double) where
  -- The variables of the function that outlive one round: `attrs`, `entityModified`, `locAttr`,
  -- `coordLat` and `coordLong`, `subsToNotify`, the response in `cerP`, and `*why`.
  pub record Run : Type 0 where
    pub attrs : List AttrDoc
    pub modified : Bool
    pub loc_attr : Str
    pub coords : Coords D
    pub subs : SubMap
    pub response : List ResponseAttribute
    pub status : StatusCode
    pub not_found : Bool

  -- A round goes on to the next attribute, or the function returns false.
  pub data Step : Type 0 where
    next : Run → Step
    stop : Run → Step

  -- The variables after a round, whether it goes on or stops.
  abbrev pub run_of : Step → Run
  run_of (next st) = st
  run_of (stop st) = st

  pub Step-cases : (s : Step) → ((r : Run) × (s ≡ next r)) ⊎ ((r : Run) × (s ≡ stop r))
  Step-cases (next r) = inl (r, refl)
  Step-cases (stop r) = inr (r, refl)

  unfoldable pub fail : Str → Run → Step
  fail details st =
      stop (record st { status = record { code = scc_invalid_parameter; details = details } })

  -- Where nothing was modified the function sets the status itself.
  unfoldable pub finish : Step → Bool × Run
  finish (stop st) = (false, st)
  finish (next st) =
      if not st.modified
      then (false, record st { status = record { code = scc_ok; details = [] } })
      else (true, st)

  module _ (query : SubQuery → DbResult (List SubDoc)) (o : Origin) (en : EntityId) where
    -- The subscriptions that the attribute triggers, where `actualUpdate` is true.
    unfoldable pub trigger : Bool → ContextAttribute → Run → Step
    trigger actual ca st =
        if actual
        then elim (add_triggered_subscriptions query o en.id en.type ca.name st.subs) [
          | ok subs ↦ next (record st { subs = subs })
          | failed err ↦
              stop (record st {
                status = record { code = scc_receiver_internal_error; details = err };
              })
        ]
        else next st

    -- After a successful update: the checks on the location.
    unfoldable pub update_location : Bool → ContextAttribute → Run → Step
    update_location actual ca st =
        if not (get_location ca == []) && not (ca.name == st.loc_attr)
        then fail (update_location_nature en ca) st
        else if st.loc_attr == ca.name
        then (let (good, coords) = string2coords D ca.value st.coords in
            let st' = record st { coords = coords } in
            if not good then fail (update_location_value en ca) st' else trigger actual ca st')
        else trigger actual ca st

    unfoldable pub process_update : ContextAttribute → Run → Step
    process_update ca st =
        let pass = update_attribute o.now st.attrs ca in
        if pass.updated
        then update_location pass.actual ca
            (record st { attrs = pass.attrs; modified = pass.actual || st.modified })
        else fail (update_not_found en ca) (record st { not_found = true })

    -- After an append: the checks on the location.
    unfoldable pub append_location : ContextAttribute → Run → Step
    append_location ca st =
        if not (get_location ca == [])
        then (if not (st.loc_attr == []) && not (ca.name == st.loc_attr)
            then fail (append_second_location en ca st.loc_attr) st
            else if not (get_location ca == location_wgs84)
                && not (get_location ca == location_wgs84_legacy)
            then fail (append_location_system en ca) st
            else (let (good, coords) = string2coords D ca.value st.coords in
                if not good
                then fail (append_location_value en ca) (record st { coords = coords })
                else trigger true ca (record st { coords = coords; loc_attr = ca.name })))
        else trigger true ca st

    unfoldable pub process_append : ContextAttribute → Run → Step
    process_append ca st =
        if legal_id_usage st.attrs ca
        then (let (attrs, result) = append_attribute o.now st.attrs ca in
            append_location ca (record st { attrs = attrs; modified = result || st.modified }))
        else fail (append_not_legal en ca) st

    -- After a deletion: a location metadata is an error, and `locAttr` is nulled.
    unfoldable pub delete_location_check : ContextAttribute → Run → Step
    delete_location_check ca st =
        if not (get_location ca == [])
        then fail (delete_location en ca) st
        else trigger true ca
            (record st { loc_attr = if st.loc_attr == ca.name then [] else st.loc_attr })

    unfoldable pub process_delete : ContextAttribute → Run → Step
    process_delete ca st =
        let (attrs, deleted) = delete_attribute st.attrs ca in
        if deleted
        then delete_location_check ca (record st { attrs = attrs; modified = true })
        else fail (delete_not_found en ca) st

    -- One round of the loop. The attribute is put into the response first.
    unfoldable pub process_attribute : Str → ContextAttribute → Run → Step
    process_attribute action ca st =
        let st' = record st { response = st.response ++ mirror ca ∷ [] } in
        if strcasecmp_eq action (codes "update")
        then process_update ca st'
        else if strcasecmp_eq action (codes "append")
        then process_append ca st'
        else if strcasecmp_eq action (codes "delete")
        then process_delete ca st'
        else fail (unknown_action action) st'

    unfoldable pub process_loop : Str → List ContextAttribute → Run → Step
    process_loop action [] st = next st
    process_loop action (ca ∷ cas) st = elim (process_attribute action ca st) [
      | next st' ↦ process_loop action cas st'
      | stop st' ↦ stop st'
    ]

    -- The result, and the variables when the function returns.
    unfoldable pub process_context_attribute_vector : Str → List ContextAttribute → Run → Bool × Run
    unfolding finish
    process_context_attribute_vector action cas st =
        finish (process_loop action cas (record st { modified = false }))
