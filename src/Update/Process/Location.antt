-- ===== src/Update/Process/Location.antt =====
-- The location of an entity: `locAttr` in processContextAttributeVector of
-- src/lib/mongoBackend/MongoCommonUpdate.cpp.
use fiware_orion.Base.{
  Str, ◌≡◌, ◌≢◌, refl, sym, subst, ◌⊎◌, inl, inr, ◌==◌, str_eq, Bool, true, false, List, [], ◌∷◌,
  ◌++◌, arith, if◌then◌else◌, Bool-cases, str_beq_iff,
}
use fiware_orion.Strings.Coords.{Double}
use fiware_orion.Entity.{ContextAttribute, AttrDoc}
use fiware_orion.Entity.Attribute.{
  update_attribute, append_attribute, delete_attribute, legal_id_usage,
}
use fiware_orion.Entity.Keys.{keys, target, keys-update_loop}
use fiware_orion.Entity.Consistent.{IsConsistent, append_attribute-IsConsistent}
use fiware_orion.Entity.Names.{HasName, HasName-remove_key, append-own, append-others}
use fiware_orion.Entity.Delete.{delete_attribute-keys}
use fiware_orion.Update.{EntityId}
use fiware_orion.Update.Subscriptions.{SubDoc, SubQuery, DbResult, Origin}
use fiware_orion.Update.Process.{
  mirror, Run, Step, Step-cases, next, stop, fail, trigger, update_location, process_update,
  append_location, process_append, delete_location_check, process_delete, process_attribute,
  process_loop, finish, process_context_attribute_vector,
}

-- No location, or that of an attribute that is there.
abbrev pub IsLocated : List AttrDoc → Str → Type 0
IsLocated attrs loc = (loc ≡ []) ⊎ HasName loc (keys attrs)

module _ (D : Double) (query : SubQuery → DbResult (List SubDoc)) (o : Origin) (en : EntityId) where
  IsGood : Step D → Type 0
  IsGood (next r) = IsConsistent (keys r.attrs) × IsLocated r.attrs r.loc_attr
  IsGood (stop r) = Unit

  IsGood-next :
      (r : Run D) → IsGood (next r) → IsConsistent (keys r.attrs) × IsLocated r.attrs r.loc_attr
  unfolding IsGood
  IsGood-next r g = g

  IsGood-fail : (details : Str) (r : Run D) → IsGood (fail D details r)
  unfolding IsGood fail
  IsGood-fail details r = tt

  IsGood-trigger :
      (actual : Bool) (ca : ContextAttribute) (r : Run D)
      → IsConsistent (keys r.attrs)
      → IsLocated r.attrs r.loc_attr
      → IsGood (trigger D query o en actual ca r)
  unfolding trigger IsGood
  IsGood-trigger actual ca r c h = ground (arith, c, h)

  IsGood-if : (b : Bool) (x y : Step D) → IsGood x → IsGood y → IsGood (if b then x else y)
  IsGood-if true x y p q = p
  IsGood-if false x y p q = q

  ruleset good_rules = (IsGood-if, IsGood-fail, IsGood-trigger)

  IsGood-update_location :
      (actual : Bool) (ca : ContextAttribute) (r : Run D)
      → IsConsistent (keys r.attrs)
      → IsLocated r.attrs r.loc_attr
      → IsGood (update_location D query o en actual ca r)
  unfolding update_location
  IsGood-update_location actual ca r c h = search good_rules depth 8

  IsGood-append_location :
      (ca : ContextAttribute) (r : Run D)
      → IsConsistent (keys r.attrs)
      → IsLocated r.attrs r.loc_attr
      → HasName ca.name (keys r.attrs)
      → IsGood (append_location D query o en ca r)
  unfolding append_location
  IsGood-append_location ca r c h own = search (good_rules, inr) depth 8

  IsGood-delete_location_check :
      (ca : ContextAttribute) (r : Run D)
      → IsConsistent (keys r.attrs)
      → (r.loc_attr ≢ ca.name → IsLocated r.attrs r.loc_attr)
      → IsGood (delete_location_check D query o en ca r)
  unfolding delete_location_check
  IsGood-delete_location_check ca r c h = elim (Bool-cases (r.loc_attr == ca.name)) [
    | inl y ↦ rw y (
        IsGood-if _ _ _ (IsGood-fail _ r)
          (IsGood-trigger true ca (record r { loc_attr = [] }) c (inl refl)))
    | inr n ↦ rw n (
        IsGood-if _ _ _ (IsGood-fail _ r)
          (IsGood-trigger true ca r c (h (ground (arith, n, str_beq_iff r.loc_attr ca.name)))))
  ]

  module _ (ca : ContextAttribute) (st : Run D) (c : IsConsistent (keys st.attrs))
      (h : IsLocated st.attrs st.loc_attr) where
    IsGood-update : IsGood (process_update D query o en ca st)
    unfolding process_update update_attribute
    IsGood-update =
        IsGood-if _ _ _
          (IsGood-update_location _ ca _ (rw (keys-update_loop o.now st.attrs ca) c)
            (rw (keys-update_loop o.now st.attrs ca) h))
          (IsGood-fail _ _)

    IsLocated-append : IsLocated (append_attribute o.now st.attrs ca).0 st.loc_attr
    IsLocated-append = elim h [
      | inl e ↦ inl e
      | inr k ↦ inr (append-others o.now st.loc_attr st.attrs ca k)
    ]

    IsGood-append : IsGood (process_append D query o en ca st)
    unfolding process_append
    IsGood-append = elim (Bool-cases (legal_id_usage st.attrs ca)) [
      | inl y ↦ rw y (
          IsGood-append_location ca _ (append_attribute-IsConsistent o.now st.attrs ca c y)
            IsLocated-append (append-own o.now st.attrs ca))
      | inr n ↦ rw n (IsGood-fail _ _)
    ]

    IsLocated-delete :
        st.loc_attr ≢ ca.name → IsLocated (delete_attribute st.attrs ca).0 st.loc_attr
    IsLocated-delete ne = elim h [
      | inl e ↦ inl e
      | inr k ↦ inr (
          subst (HasName st.loc_attr) (sym (delete_attribute-keys st.attrs ca c).1)
            (HasName-remove_key st.loc_attr (target ca) (keys st.attrs) ne k))
    ]

    IsGood-delete : IsGood (process_delete D query o en ca st)
    unfolding process_delete
    IsGood-delete =
        IsGood-if _ _ _
          (IsGood-delete_location_check ca _ (delete_attribute-keys st.attrs ca c).2
            IsLocated-delete)
          (IsGood-fail _ _)

  IsGood-attribute :
      (action : Str) (ca : ContextAttribute) (st : Run D)
      → IsConsistent (keys st.attrs)
      → IsLocated st.attrs st.loc_attr
      → IsGood (process_attribute D query o en action ca st)
  unfolding process_attribute
  IsGood-attribute action ca st c h =
      let st' = record st { response = st.response ++ mirror ca ∷ [] } in
      IsGood-if _ _ _ (IsGood-update ca st' c h) (
        IsGood-if _ _ _ (IsGood-append ca st' c h)
          (IsGood-if _ _ _ (IsGood-delete ca st' c h) (IsGood-fail _ _)))

  IsGood-loop :
      (action : Str) (cas : List ContextAttribute) (st : Run D)
      → IsConsistent (keys st.attrs)
      → IsLocated st.attrs st.loc_attr
      → IsGood (process_loop D query o en action cas st)
  unfolding process_loop
  IsGood-loop action [] st c h = unfold IsGood in (c, h)
  IsGood-loop action (ca ∷ cas) st c h =
      let here = IsGood-attribute action ca st c h in
      elim (Step-cases D (process_attribute D query o en action ca st)) [
        | inl (r, e) ↦
            rw (e, process_loop)
              (let (c', h') = IsGood-next r (rw e at here) in IsGood-loop action cas r c' h')
        | inr (r, e) ↦ rw (e, process_loop) (unfold IsGood in tt)
      ]

  IsLocated-finish :
      (s : Step D)
      → IsGood s
      → (finish D s).0 ≡ true
      → IsLocated (finish D s).1.attrs (finish D s).1.loc_attr
  unfolding finish IsGood
  IsLocated-finish (stop r) g e = cc
  IsLocated-finish (next r) g e = elim (Bool-cases r.modified) [
    | inl m ↦ rw m g.1
    | inr m ↦ cc (rw (m, finish) at e)
  ]

  -- Of an entity with consistent attributes whose location, if it has one, is named after one of
  -- them: if the processing of any list of request attributes under any action returns true, which is
  -- when the caller writes it to the database, the location is again none, or named after an
  -- attribute that is there.
  pub process-IsLocated :
      (action : Str) (cas : List ContextAttribute) (st : Run D)
      → IsConsistent (keys st.attrs)
      → IsLocated st.attrs st.loc_attr
      → (process_context_attribute_vector D query o en action cas st).0 ≡ true
      → IsLocated
          (process_context_attribute_vector D query o en action cas st).1.attrs
          (process_context_attribute_vector D query o en action cas st).1.loc_attr
  unfolding process_context_attribute_vector
  process-IsLocated action cas st c h e =
      IsLocated-finish (process_loop D query o en action cas (record st { modified = false }))
        (IsGood-loop action cas (record st { modified = false }) c h) e
