-- ===== src/Update/Process/Outcome.antt =====
-- What processContextAttributeVector of src/lib/mongoBackend/MongoCommonUpdate.cpp returns: the
-- response, the status, and when an UPDATE goes through.
use fiware_orion.Base.{
  Str, ◌≡◌, refl, sym, ap, ◌∙◌, ◌⊎◌, inl, inr, str_eq, Bool, true, false, List, [], ◌∷◌, ◌++◌, map,
  arith, if◌then◌else◌, Bool-cases, append_assoc, append-nil,
}
use fiware_orion.Strings.Coords.{Double}
use fiware_orion.Entity.{ContextAttribute}
use fiware_orion.Update.{EntityId, StatusCode, scc_ok}
use fiware_orion.Update.Subscriptions.{SubDoc, SubQuery, DbResult, Origin}
use fiware_orion.Update.Process.{
  mirror, Run, Step, Step-cases, next, stop, fail, trigger, update_location, process_update,
  append_location, process_append, delete_location_check, process_delete, process_attribute,
  process_loop, finish, process_context_attribute_vector,
}
use fiware_orion.Update.{scc_invalid_parameter, scc_receiver_internal_error}

abbrev pub IsFailure : StatusCode → Type 0
IsFailure s = (s.code ≡ scc_invalid_parameter) ⊎ (s.code ≡ scc_receiver_internal_error)

module _ (D : Double) (query : SubQuery → DbResult (List SubDoc)) (o : Origin) (en : EntityId) where
  -- A round puts nothing but its first attribute into the response, and a status only if it stops.
  IsRight : Run D → Step D → Type 0
  IsRight st (next r) = (r.response ≡ st.response) × (r.status ≡ st.status)
  IsRight st (stop r) = (r.response ≡ st.response) × IsFailure r.status

  IsRight-fail :
      (st : Run D) (details : Str) (r : Run D)
      → r.response ≡ st.response
      → IsRight st (fail D details r)
  unfolding IsRight fail
  IsRight-fail st details r e = (e, inl refl)

  IsRight-trigger :
      (st : Run D) (actual : Bool) (ca : ContextAttribute) (r : Run D)
      → r.response ≡ st.response
      → r.status ≡ st.status
      → IsRight st (trigger D query o en actual ca r)
  unfolding trigger IsRight
  IsRight-trigger st actual ca r e f = ground arith

  IsRight-if :
      (st : Run D) (b : Bool) (x y : Step D)
      → IsRight st x
      → IsRight st y
      → IsRight st (if b then x else y)
  IsRight-if st true x y p q = p
  IsRight-if st false x y p q = q

  ruleset right_rules = (IsRight-if, IsRight-fail, IsRight-trigger)

  IsRight-update_location :
      (st : Run D) (actual : Bool) (ca : ContextAttribute) (r : Run D)
      → r.response ≡ st.response
      → r.status ≡ st.status
      → IsRight st (update_location D query o en actual ca r)
  unfolding update_location
  IsRight-update_location st actual ca r e f = search right_rules depth 8

  IsRight-append_location :
      (st : Run D) (ca : ContextAttribute) (r : Run D)
      → r.response ≡ st.response
      → r.status ≡ st.status
      → IsRight st (append_location D query o en ca r)
  unfolding append_location
  IsRight-append_location st ca r e f = search right_rules depth 8

  IsRight-delete_location_check :
      (st : Run D) (ca : ContextAttribute) (r : Run D)
      → r.response ≡ st.response
      → r.status ≡ st.status
      → IsRight st (delete_location_check D query o en ca r)
  unfolding delete_location_check
  IsRight-delete_location_check st ca r e f = search right_rules depth 8

  IsRight-attribute :
      (action : Str) (ca : ContextAttribute) (st : Run D)
      → IsRight
          (record st { response = st.response ++ mirror ca ∷ [] })
          (process_attribute D query o en action ca st)
  unfolding process_attribute process_update process_append process_delete
  IsRight-attribute action ca st =
      search
        (
          right_rules, IsRight-update_location, IsRight-append_location,
          IsRight-delete_location_check,
        )
        depth 8

  -- Of the whole loop: the attributes that the response mirrors, and the status.
  IsReported : List ContextAttribute → Run D → Step D → Type 0
  IsReported cas st (next r) = (r.response ≡ st.response ++ map mirror cas) × (r.status ≡ st.status)
  IsReported cas st (stop r) =
      (done : List ContextAttribute) × (ca : ContextAttribute) × (rest : List ContextAttribute)
      × (cas ≡ done ++ ca ∷ rest)
      × (r.response ≡ st.response ++ map mirror (done ++ ca ∷ []))
      × IsFailure r.status

  IsReported-cons :
      (ca : ContextAttribute) (cas : List ContextAttribute) (st r : Run D) (s : Step D)
      → r.response ≡ st.response ++ mirror ca ∷ []
      → r.status ≡ st.status
      → IsReported cas r s
      → IsReported (ca ∷ cas) st s
  unfolding IsReported
  IsReported-cons ca cas st r (next t) e f h =
      (h.0 ∙ rw e (append_assoc st.response (mirror ca ∷ []) (map mirror cas)), h.1 ∙ f)
  IsReported-cons ca cas st r (stop t) e f (done, x, rest, split, h, failure) = (
    ca ∷ done,
    x,
    rest,
    ap (◌∷◌ ca) split,
    h ∙ rw e (append_assoc st.response (mirror ca ∷ []) (map mirror (done ++ x ∷ []))),
    failure,
  )

  IsRight-next :
      (st r : Run D) → IsRight st (next r) → (r.response ≡ st.response) × (r.status ≡ st.status)
  unfolding IsRight
  IsRight-next st r h = h

  IsReported-stop :
      (ca : ContextAttribute) (cas : List ContextAttribute) (st r : Run D)
      → IsRight (record st { response = st.response ++ mirror ca ∷ [] }) (stop r)
      → IsReported (ca ∷ cas) st (stop r)
  unfolding IsRight IsReported
  IsReported-stop ca cas st r h = ([], ca, cas, refl, h.0, h.1)

  IsReported-loop :
      (action : Str) (cas : List ContextAttribute) (st : Run D)
      → IsReported cas st (process_loop D query o en action cas st)
  unfolding process_loop
  IsReported-loop action [] st = unfold IsReported in (sym (append-nil st.response), refl)
  IsReported-loop action (ca ∷ cas) st =
      let here = IsRight-attribute action ca st in
      elim (Step-cases D (process_attribute D query o en action ca st)) [
        | inl (r, e) ↦
            rw (e, process_loop)
              (let (f, g) =
                  IsRight-next (record st { response = st.response ++ mirror ca ∷ [] }) r
                    (rw e at here) in
                IsReported-cons ca cas st r (process_loop D query o en action cas r) f g
                  (IsReported-loop action cas r))
        | inr (r, e) ↦ rw (e, process_loop) (IsReported-stop ca cas st r (rw e at here))
      ]

  -- The three ways in which the function returns.
  unfoldable pub IsOutcome : List ContextAttribute → Run D → Bool × Run D → Type 0
  IsOutcome cas st (result, r) =
      ((result ≡ true) × (r.response ≡ st.response ++ map mirror cas) × (r.status ≡ st.status))
      ⊎ ((result ≡ false)
          × (r.response ≡ st.response ++ map mirror cas)
          × (r.status.code ≡ scc_ok)
          × (r.modified ≡ false))
      ⊎ ((result ≡ false)
          × ((done : List ContextAttribute) × (ca : ContextAttribute) × (rest : List
                ContextAttribute)
              × (cas ≡ done ++ ca ∷ rest)
              × (r.response ≡ st.response ++ map mirror (done ++ ca ∷ []))
              × IsFailure r.status))

  IsOutcome-finish :
      (cas : List ContextAttribute) (st : Run D) (s : Step D)
      → IsReported cas st s
      → IsOutcome cas st (finish D s)
  unfolding finish IsReported IsOutcome
  IsOutcome-finish cas st (stop r) h = inr (inr (refl, h))
  IsOutcome-finish cas st (next r) h = elim (Bool-cases r.modified) [
    | inl m ↦ rw m (inl (refl, h.0, h.1))
    | inr m ↦ rw m (inr (inl (refl, h.0, refl, refl)))
  ]

  -- The function returns in one of three ways. True: the response mirrors every request attribute
  -- and the status is untouched. False with status 200: it mirrors every request attribute and
  -- nothing was modified. False with status 472 or 500: it mirrors the request attributes up to and
  -- including the offending one.
  pub process-IsOutcome :
      (action : Str) (cas : List ContextAttribute) (st : Run D)
      → IsOutcome cas st (process_context_attribute_vector D query o en action cas st)
  unfolding process_context_attribute_vector IsOutcome
  process-IsOutcome action cas st =
      IsOutcome-finish cas (record st { modified = false })
        (process_loop D query o en action cas (record st { modified = false }))
        (IsReported-loop action cas (record st { modified = false }))
