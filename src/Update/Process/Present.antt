-- ===== src/Update/Process/Present.antt =====
-- UPDATE of attributes: processContextAttributeVector of
-- src/lib/mongoBackend/MongoCommonUpdate.cpp goes through only where every attribute is there.
use fiware_orion.Base.{
  Str, ◌≡◌, refl, ap, ◌∙◌, ◌↔◌, inl, inr, str_eq, ◌||◌, true, false, List, [], ◌∷◌, ◌++◌, All,
  Bool-cases, codes, subst,
}
use fiware_orion.Strings.Bytes.{strcasecmp_eq}
use fiware_orion.Strings.Coords.{Double}
use fiware_orion.Entity.{ContextAttribute, AttrDoc}
use fiware_orion.Entity.Attribute.{update_attribute}
use fiware_orion.Entity.Keys.{keys, target, HasKey}
use fiware_orion.Update.{EntityId}
use fiware_orion.Update.Subscriptions.{SubDoc, SubQuery, DbResult, Origin}
use fiware_orion.Update.Process.{
  mirror, Run, run_of, Step, Step-cases, next, stop, fail, update_location, process_update,
  process_attribute, process_loop, finish, process_context_attribute_vector,
}
use fiware_orion.Entity.Keys.{keys-update_loop, updated-update_loop_iff}
use fiware_orion.Update.{scc_invalid_parameter}
use fiware_orion.Update.Process.Messages.{update_not_found}
use fiware_orion.Update.Process.Invariant.{attrs-update_location}

module _ (D : Double) (query : SubQuery → DbResult (List SubDoc)) (o : Origin) (en : EntityId) where
  IsPresent : List AttrDoc → ContextAttribute → Step D → Type 0
  IsPresent attrs ca (next r) = (keys r.attrs ≡ keys attrs) × HasKey (target ca) (keys attrs)
  IsPresent attrs ca (stop r) = Unit

  IsPresent-of :
      (attrs : List AttrDoc) (ca : ContextAttribute) (s : Step D)
      → keys (run_of D s).attrs ≡ keys attrs
      → HasKey (target ca) (keys attrs)
      → IsPresent attrs ca s
  unfolding IsPresent
  IsPresent-of attrs ca (next r) e h = (e, h)
  IsPresent-of attrs ca (stop r) e h = tt

  keys-update :
      (attrs : List AttrDoc) (ca : ContextAttribute)
      → keys (update_attribute o.now attrs ca).attrs ≡ keys attrs
  unfolding update_attribute
  keys-update attrs ca = keys-update_loop o.now attrs ca

  updated_iff :
      (attrs : List AttrDoc) (ca : ContextAttribute)
      → ((update_attribute o.now attrs ca).updated ≡ true) ↔ HasKey (target ca) (keys attrs)
  unfolding update_attribute
  updated_iff attrs ca = updated-update_loop_iff o.now attrs ca

  IsPresent-update :
      (ca : ContextAttribute) (st : Run D)
      → IsPresent st.attrs ca (process_update D query o en ca st)
  unfolding process_update
  IsPresent-update ca st = elim (Bool-cases (update_attribute o.now st.attrs ca).updated) [
    | inl y ↦ rw y (
        IsPresent-of st.attrs ca
          (update_location D query o en (update_attribute o.now st.attrs ca).actual ca (record st {
            attrs = (update_attribute o.now st.attrs ca).attrs;
            modified = (update_attribute o.now st.attrs ca).actual || st.modified;
          }))
          (ap keys (attrs-update_location D query o en _ ca _) ∙ keys-update st.attrs ca)
          ((updated_iff st.attrs ca).0 y))
    | inr n ↦ rw n (unfold IsPresent fail in tt)
  ]

  module _ (action : Str) (is_update : strcasecmp_eq action (codes "update") ≡ true) where
    IsPresent-attribute :
        (ca : ContextAttribute) (st : Run D)
        → IsPresent st.attrs ca (process_attribute D query o en action ca st)
    unfolding process_attribute
    IsPresent-attribute ca st =
        rw is_update (IsPresent-update ca (record st { response = st.response ++ mirror ca ∷ [] }))

    AllPresent : List AttrDoc → List ContextAttribute → Step D → Type 0
    AllPresent attrs cas (next r) =
        (keys r.attrs ≡ keys attrs) × All (λ ca. HasKey (target ca) (keys attrs)) cas
    AllPresent attrs cas (stop r) = Unit

    present-cons :
        (ca : ContextAttribute) (cas : List ContextAttribute) (st r : Run D) (s : Step D)
        → IsPresent st.attrs ca (next r)
        → AllPresent r.attrs cas s
        → AllPresent st.attrs (ca ∷ cas) s
    unfolding IsPresent AllPresent
    present-cons ca cas st r (next t) h k =
        (k.0 ∙ h.0, (h.1, subst (λ ks. All (λ x. HasKey (target x) ks) cas) h.0 k.1))
    present-cons ca cas st r (stop t) h k = tt

    present-loop :
        (cas : List ContextAttribute) (st : Run D)
        → AllPresent st.attrs cas (process_loop D query o en action cas st)
    unfolding process_loop
    present-loop [] st = unfold AllPresent in (refl, tt)
    present-loop (ca ∷ cas) st =
        let here = IsPresent-attribute ca st in
        elim (Step-cases D (process_attribute D query o en action ca st)) [
          | inl (r, e) ↦
              rw (e, process_loop)
                (present-cons ca cas st r (process_loop D query o en action cas r) (rw e at here)
                  (present-loop cas r))
          | inr (r, e) ↦ rw (e, process_loop) (unfold AllPresent in tt)
        ]

    present-finish :
        (attrs : List AttrDoc) (cas : List ContextAttribute) (s : Step D)
        → AllPresent attrs cas s
        → (finish D s).0 ≡ true
        → (keys (finish D s).1.attrs ≡ keys attrs) × All (λ ca. HasKey (target ca) (keys attrs)) cas
    unfolding finish AllPresent
    present-finish attrs cas (stop r) h e = cc
    present-finish attrs cas (next r) h e = elim (Bool-cases r.modified) [
      | inl m ↦ rw m h
      | inr m ↦ cc (rw (m, finish) at e)
    ]

    -- If an UPDATE returns true, every request attribute was there under its name and identifier,
    -- and the keys of the entity are as before.
    pub process-update_present :
        (cas : List ContextAttribute) (st : Run D)
        → (process_context_attribute_vector D query o en action cas st).0 ≡ true
        → (keys (process_context_attribute_vector D query o en action cas st).1.attrs
            ≡ keys st.attrs)
          × All (λ ca. HasKey (target ca) (keys st.attrs)) cas
    unfolding process_context_attribute_vector
    process-update_present cas st h =
        present-finish st.attrs cas
          (process_loop D query o en action cas (record st { modified = false }))
          (present-loop cas (record st { modified = false })) h

    abbrev missed : ContextAttribute → Run D → Run D
    missed ca st = record st {
      response = st.response ++ mirror ca ∷ [];
      not_found = true;
      status = record { code = scc_invalid_parameter; details = update_not_found en ca };
    }

    missing-attribute :
        (ca : ContextAttribute) (st : Run D)
        → (update_attribute o.now st.attrs ca).updated ≡ false
        → process_attribute D query o en action ca st ≡ stop (missed ca st)
    unfolding process_attribute process_update fail
    missing-attribute ca st n = rw is_update (rw n)

    missing-loop :
        (ca : ContextAttribute) (cas : List ContextAttribute) (st : Run D)
        → (update_attribute o.now st.attrs ca).updated ≡ false
        → process_loop D query o en action (ca ∷ cas) st ≡ stop (missed ca st)
    unfolding process_loop
    missing-loop ca cas st n = rw (missing-attribute ca st n, process_loop)

    -- If the first request attribute of an UPDATE is not there, the function returns false with
    -- status 472 and `*why` set, and the attributes are as before.
    pub process-update_missing :
        (ca : ContextAttribute) (cas : List ContextAttribute) (st : Run D)
        → ¬ HasKey (target ca) (keys st.attrs)
        → ((process_context_attribute_vector D query o en action (ca ∷ cas) st).0 ≡ false)
          × ((process_context_attribute_vector D query o en action (ca ∷ cas) st).1.attrs
              ≡ st.attrs)
          × ((process_context_attribute_vector D query o en action (ca ∷ cas) st).1.not_found
              ≡ true)
          × ((process_context_attribute_vector D query o en action (ca ∷ cas) st).1.status.code
              ≡ scc_invalid_parameter)
    unfolding process_context_attribute_vector
    process-update_missing ca cas st missing =
        elim (Bool-cases (update_attribute o.now st.attrs ca).updated) [
          | inl y ↦ absurd (missing ((updated_iff st.attrs ca).0 y))
          | inr n ↦
              rw (missing-loop ca cas (record st { modified = false }) n)
                (unfold finish in (refl, refl, refl, refl))
        ]
