-- ===== src/Update/Process/Invariant.antt =====
-- What processContextAttributeVector of src/lib/mongoBackend/MongoCommonUpdate.cpp keeps true of the
-- attributes of an entity, whatever the request and wherever it stops.
use fiware_orion.Base.{
  Str, ◌≡◌, refl, inl, inr, ◌==◌, str_eq, Bool, true, false, List, [], ◌∷◌, ◌++◌, All, arith,
  if◌then◌else◌, Bool-cases, codes,
}
use fiware_orion.Strings.Bytes.{strcasecmp_eq}
use fiware_orion.Strings.Coords.{Double, string2coords}
use fiware_orion.Entity.{ContextAttribute, AttrDoc}
use fiware_orion.Entity.Attribute.{
  update_attribute, append_attribute, delete_attribute, legal_id_usage,
}
use fiware_orion.Entity.Keys.{keys}
use fiware_orion.Update.{EntityId}
use fiware_orion.Update.Subscriptions.{SubDoc, SubQuery, DbResult, Origin}
use fiware_orion.Update.Process.{
  mirror, Run, run_of, Step, Step-cases, next, stop, fail, trigger, update_location, process_update,
  append_location, process_append, delete_location_check, process_delete, process_attribute,
  process_loop, finish, process_context_attribute_vector,
}
use fiware_orion.Entity.Stored.{IsStored}
use fiware_orion.Entity.Update.{update_attribute-IsStored, append_attribute-IsStored}
use fiware_orion.Entity.Delete.{delete_attribute-keys, delete_attribute-IsStored}
use fiware_orion.Entity.Consistent.{
  IsConsistent, update_attribute-IsConsistent, append_attribute-IsConsistent,
}

pub attrs-finish : (D : Double) (s : Step D) → (finish D s).1.attrs ≡ (run_of D s).attrs
unfolding finish
attrs-finish D (next st) = ground arith
attrs-finish D (stop st) = refl

module _ (D : Double) (query : SubQuery → DbResult (List SubDoc)) (o : Origin) (en : EntityId) where
  pub attrs-trigger :
      (actual : Bool) (ca : ContextAttribute) (st : Run D)
      → (run_of D (trigger D query o en actual ca st)).attrs ≡ st.attrs
  unfolding trigger
  attrs-trigger actual ca st = ground arith

  pub attrs-update_location :
      (actual : Bool) (ca : ContextAttribute) (st : Run D)
      → (run_of D (update_location D query o en actual ca st)).attrs ≡ st.attrs
  unfolding update_location fail
  attrs-update_location actual ca st = ground (
    arith,
    attrs-trigger actual ca st,
    attrs-trigger actual ca (record st { coords = (string2coords D ca.value st.coords).1 }),
  )

  pub attrs-append_location :
      (ca : ContextAttribute) (st : Run D)
      → (run_of D (append_location D query o en ca st)).attrs ≡ st.attrs
  unfolding append_location fail
  attrs-append_location ca st = ground (
    arith,
    attrs-trigger true ca st,
    attrs-trigger true ca
        (record st { coords = (string2coords D ca.value st.coords).1; loc_attr = ca.name }),
  )

  pub attrs-delete_location_check :
      (ca : ContextAttribute) (st : Run D)
      → (run_of D (delete_location_check D query o en ca st)).attrs ≡ st.attrs
  unfolding delete_location_check fail
  attrs-delete_location_check ca st = ground (
    arith,
    attrs-trigger true ca
        (record st { loc_attr = if st.loc_attr == ca.name then [] else st.loc_attr }),
  )

  module _ (Q : List AttrDoc → Type 0)
      (keep_update : (attrs : List AttrDoc) (ca : ContextAttribute)
        → Q attrs
        → Q (update_attribute o.now attrs ca).attrs)
      (keep_append : (attrs : List AttrDoc) (ca : ContextAttribute)
        → legal_id_usage attrs ca ≡ true
        → Q attrs
        → Q (append_attribute o.now attrs ca).0)
      (keep_delete : (attrs : List AttrDoc) (ca : ContextAttribute)
        → Q attrs
        → Q (delete_attribute attrs ca).0) where
    update-keeps :
        (ca : ContextAttribute) (st : Run D)
        → Q st.attrs
        → Q (run_of D (process_update D query o en ca st)).attrs
    unfolding process_update fail
    update-keeps ca st q = elim (Bool-cases (update_attribute o.now st.attrs ca).updated) [
      | inl y ↦ rw (y, attrs-update_location) (keep_update st.attrs ca q)
      | inr n ↦ rw n q
    ]

    append-keeps :
        (ca : ContextAttribute) (st : Run D)
        → Q st.attrs
        → Q (run_of D (process_append D query o en ca st)).attrs
    unfolding process_append fail
    append-keeps ca st q = elim (Bool-cases (legal_id_usage st.attrs ca)) [
      | inl y ↦ rw (y, attrs-append_location) (keep_append st.attrs ca y q)
      | inr n ↦ rw n q
    ]

    delete-keeps :
        (ca : ContextAttribute) (st : Run D)
        → Q st.attrs
        → Q (run_of D (process_delete D query o en ca st)).attrs
    unfolding process_delete fail
    delete-keeps ca st q = elim (Bool-cases (delete_attribute st.attrs ca).1) [
      | inl y ↦ rw (y, attrs-delete_location_check) (keep_delete st.attrs ca q)
      | inr n ↦ rw n q
    ]

    attribute-keeps :
        (action : Str) (ca : ContextAttribute) (st : Run D)
        → Q st.attrs
        → Q (run_of D (process_attribute D query o en action ca st)).attrs
    unfolding process_attribute fail
    attribute-keeps action ca st q = elim (Bool-cases (strcasecmp_eq action (codes "update"))) [
      | inl u ↦ rw u (update-keeps ca (record st { response = st.response ++ mirror ca ∷ [] }) q)
      | inr nu ↦ elim (Bool-cases (strcasecmp_eq action (codes "append"))) [
        | inl a ↦
            rw (nu, a) (append-keeps ca (record st { response = st.response ++ mirror ca ∷ [] }) q)
        | inr na ↦ elim (Bool-cases (strcasecmp_eq action (codes "delete"))) [
          | inl d ↦
              rw (nu, na, d)
                (delete-keeps ca (record st { response = st.response ++ mirror ca ∷ [] }) q)
          | inr nd ↦ rw (nu, na, nd) q
        ]
      ]
    ]

  -- A property that every round keeps holds when the loop ends.
  pub loop_induction :
      (P : Run D → Type 0) (action : Str)
      → ((ca : ContextAttribute) (st : Run D)
          → P st
          → P (run_of D (process_attribute D query o en action ca st)))
      → (cas : List ContextAttribute) (st : Run D) → P st
      → P (run_of D (process_loop D query o en action cas st))
  unfolding process_loop
  loop_induction P action step [] st p = p
  loop_induction P action step (ca ∷ cas) st p =
      let q = step ca st p in
      elim (Step-cases D (process_attribute D query o en action ca st)) [
        | inl (r, e) ↦ rw (e, run_of, process_loop) (loop_induction P action step cas r (rw e at q))
        | inr (r, e) ↦ rw (e, run_of, process_loop) (rw e at q)
      ]

-- If the attributes of an entity have consistent keys (no key twice, and no name both with and
-- without an identifier), they still have after any list of request attributes has been processed
-- under any action, whether the function returns true or false and wherever it stops.
pub process-IsConsistent :
    (D : Double) (query : SubQuery → DbResult (List SubDoc)) (o : Origin) (en : EntityId)
    (action : Str) (cas : List ContextAttribute) (st : Run D)
    → IsConsistent (keys st.attrs)
    → IsConsistent (keys (process_context_attribute_vector D query o en action cas st).1.attrs)
unfolding process_context_attribute_vector
process-IsConsistent D query o en action cas st c = rw (attrs-finish D) (
    loop_induction D query o en (λ r. IsConsistent (keys r.attrs)) action
      (λ ca r.
        attribute-keeps D query o en (λ attrs. IsConsistent (keys attrs))
          (λ attrs x. update_attribute-IsConsistent o.now attrs x)
          (λ attrs x l q. append_attribute-IsConsistent o.now attrs x q l)
          (λ attrs x q. (delete_attribute-keys attrs x q).2) action ca r)
      cas (record st { modified = false }) c)

-- If the attributes of an entity have consistent keys and are stored ones (a name, no empty
-- identifier, no value of a foreign BSON type, no empty metadata array), they still are stored ones
-- after any list of request attributes under any action, wherever the processing stops.
pub process-IsStored :
    (D : Double) (query : SubQuery → DbResult (List SubDoc)) (o : Origin) (en : EntityId)
    (action : Str) (cas : List ContextAttribute) (st : Run D)
    → IsConsistent (keys st.attrs)
    → All IsStored st.attrs
    → All IsStored (process_context_attribute_vector D query o en action cas st).1.attrs
unfolding process_context_attribute_vector
process-IsStored D query o en action cas st c h =
    rw (attrs-finish D)
      (loop_induction D query o en (λ r. IsConsistent (keys r.attrs) × All IsStored r.attrs) action
        (λ ca r.
          attribute-keeps D query o en (λ attrs. IsConsistent (keys attrs) × All IsStored attrs)
            (λ attrs x q. (
              update_attribute-IsConsistent o.now attrs x q.0,
              update_attribute-IsStored o.now attrs x q.1,
            ))
            (λ attrs x l q. (
              append_attribute-IsConsistent o.now attrs x q.0 l,
              append_attribute-IsStored o.now attrs x q.1,
            ))
            (λ attrs x q.
              ((delete_attribute-keys attrs x q.0).2, delete_attribute-IsStored attrs x q.0 q.1))
            action ca r)
        cas (record st { modified = false }) (c, h)).1
