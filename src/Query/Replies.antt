-- ===== src/Query/Replies.antt =====
-- The replies of mongoQueryContext of src/lib/mongoBackend/mongoQueryContext.cpp.
use fiware_orion.Base.{
  ℕ, Str, ◌≡◌, refl, sym, ap, ◌∙◌, ◌++◌, codes, false, ◌≢◌, ◌⊎◌, inl, inr, true, Bool-cases, none,
  some, List, [], ◌∷◌, arith,
}
use fiware_orion.Base.Int.{pos, ltb_ℤ}
use fiware_orion.Update.{
  scc_ok, scc_found, scc_context_element_not_found, scc_receiver_internal_error,
}
use fiware_orion.Update.Subscriptions.{DbResult, ok, failed}
use fiware_orion.Registry.{Regex, Registration, query_result}
use fiware_orion.Registry.Laws.{Some}
use fiware_orion.Registry.Complete.{HasAnswer}
use fiware_orion.Registry.First.{IsFirst, all_of, query_result-all_of, first-IsFirst, none_answers}
use fiware_orion.Strings.Decimal.{decimal_int}
use fiware_orion.Query.Result.{QueryDoc, QueryResponse, entities_result}
use fiware_orion.Query.Context.{
  Source, ProviderSearch, QueryRequest, QueryReply, error_reply, wants_details, search,
  nothing_found, ask_registrations, with_responses, mongo_query_context,
}

abbrev provider_search : QueryRequest → ProviderSearch
provider_search r = record {
  entities = r.entities;
  attributes = r.attributes;
  tenant = r.tenant;
  service_paths = r.service_paths;
}

module _ {Area : Type 0} (decimal : ℕ → Str) (R : Regex) (S : Source Area) (r : QueryRequest) where
  abbrev pub FoundDocs : List QueryResponse → Type 0
  FoundDocs rs =
      (docs : List QueryDoc) × (S.documents (search decimal R S r) ≡ ok docs)
      × (entities_result decimal r.entities r.attributes true docs ≡ rs)

  -- The responses to the documents found: without an error, or, if details are wanted, with the code 200 and the count.
  abbrev pub IsFull : QueryReply → Type 0
  IsFull reply =
      FoundDocs reply.responses
      × (reply.responses ≢ [])
      × (((wants_details r ≡ false) × (reply.error_code ≡ none))
          ⊎ ((wants_details r ≡ true)
              × (reply.error_code
                  ≡ some (record {
                    code = scc_ok;
                    details = codes "Count: " ++ decimal_int (S.count (search decimal R S r));
                  }))))

  -- The application of the first registration that matches, where no document was found.
  abbrev pub IsElsewhere : QueryReply → Type 0
  IsElsewhere reply =
      FoundDocs []
      × (docs : List (List Registration)) × (cr : Registration) × (S.registrations
            (provider_search r)
          ≡ ok docs)
      × IsFirst (HasAnswer R r.entities r.attributes) cr (all_of docs)
      × (reply ≡ error_reply scc_found cr.providing_application)

  -- The registrations cannot be read, or none of them answers.
  abbrev pub NoneAnswers : Type 0
  NoneAnswers =
      ((text : Str) × (S.registrations (provider_search r) ≡ failed text))
      ⊎ ((docs : List (List Registration)) × (S.registrations (provider_search r) ≡ ok docs)
          × (Some (HasAnswer R r.entities r.attributes) (all_of docs) → ⊥))

  -- Details are wanted, and there are hits, but the offset is not below their number.
  abbrev pub IsBeyond : Type 0
  IsBeyond =
      (wants_details r ≡ true)
      × (ltb_ℤ (pos 0) (S.count (search decimal R S r)) ≡ true)
      × (ltb_ℤ (search decimal R S r).offset (S.count (search decimal R S r)) ≡ false)

  -- The code 404, where neither a document nor a registration that answers was found.
  abbrev pub IsNowhere : QueryReply → Type 0
  IsNowhere reply =
      FoundDocs []
      × NoneAnswers
      × ((IsBeyond
            × (reply
                ≡ error_reply scc_context_element_not_found (
                    codes "Number of matching entities: "
                    ++ (decimal_int (S.count (search decimal R S r))
                        ++ (codes ". Offset is " ++ decimal_int (search decimal R S r).offset)))))
          ⊎ ((IsBeyond → ⊥) × (reply ≡ error_reply scc_context_element_not_found [])))

  -- The error of the database.
  abbrev pub IsBroken : QueryReply → Type 0
  IsBroken reply =
      (text : Str) × (S.documents (search decimal R S r) ≡ failed text)
      × (reply ≡ error_reply scc_receiver_internal_error text)

  abbrev pub IsReply : QueryReply → Type 0
  IsReply reply = IsFull reply ⊎ (IsElsewhere reply ⊎ (IsNowhere reply ⊎ IsBroken reply))

  nothing-IsNowhere : FoundDocs [] → NoneAnswers → IsNowhere (nothing_found decimal R S r)
  unfolding nothing_found
  nothing-IsNowhere f none' = elim (Bool-cases (wants_details r)) [
    | inr n ↦ rw n (f, none', inr ((λ b. absurd (ground (arith, n, b.0))), refl))
    | inl y ↦ rw y (elim (Bool-cases (ltb_ℤ (pos 0) (S.count (search decimal R S r)))) [
      | inr m ↦ rw m (f, none', inr ((λ b. absurd (ground (arith, m, b.1))), refl))
      | inl z ↦
          rw z
            (elim (Bool-cases
              (ltb_ℤ (search decimal R S r).offset (S.count (search decimal R S r)))) [
                | inl k ↦ rw k (f, none', inr ((λ b. absurd (ground (arith, k, b.2))), refl))
                | inr k ↦ rw k (f, none', inl ((refl, refl, refl), refl))
              ])
    ])
  ]

  on_registrations : DbResult (List (List Registration)) → QueryReply
  on_registrations d = elim d [
    | failed text ↦ nothing_found decimal R S r
    | ok docs ↦ elim (query_result R r.entities r.attributes docs) [
      | [] ↦ nothing_found decimal R S r
      | crr ∷ crrs ↦ error_reply scc_found crr.providing_application
    ]
  ]

  matching-IsReply :
      (f : FoundDocs []) (docs : List (List Registration)) (crrs : List Registration)
      → S.registrations (provider_search r) ≡ ok docs
      → query_result R r.entities r.attributes docs ≡ crrs
      → IsReply (elim crrs [
        | [] ↦ nothing_found decimal R S r
        | crr ∷ rest ↦ error_reply scc_found crr.providing_application
      ])
  matching-IsReply f docs [] e q =
      let none' = none_answers R r.entities r.attributes docs q in
      inr (inr (inl (nothing-IsNowhere f (inr (docs, e, none')))))
  matching-IsReply f docs (crr ∷ crrs) e q =
      let flat = sym (query_result-all_of R r.entities r.attributes docs) ∙ q in
      let (cr, first, same) = first-IsFirst R r.entities r.attributes (all_of docs) crr crrs flat in
      inr (inl (f, docs, cr, e, first, ap (error_reply scc_found) same))

  on_registrations-IsReply :
      (f : FoundDocs []) (d : DbResult (List (List Registration)))
      → S.registrations (provider_search r) ≡ d
      → IsReply (on_registrations d)
  unfolding on_registrations
  on_registrations-IsReply f (failed text) e = inr (inr (inl (nothing-IsNowhere f (inl (text, e)))))
  on_registrations-IsReply f (ok docs) e =
      matching-IsReply f docs (query_result R r.entities r.attributes docs) e refl

  asked-IsReply : FoundDocs [] → IsReply (ask_registrations decimal R S r)
  unfolding ask_registrations on_registrations
  asked-IsReply f = on_registrations-IsReply f (S.registrations (provider_search r)) refl

  responses-IsReply :
      (rs : List QueryResponse) → FoundDocs rs → IsReply (with_responses decimal R S r rs)
  unfolding with_responses
  responses-IsReply [] f = asked-IsReply f
  responses-IsReply (x ∷ xs) f = elim (Bool-cases (wants_details r)) [
    | inl y ↦ rw y (inl (f, (λ e. ground arith), inr (refl, refl)))
    | inr n ↦ rw n (inl (f, (λ e. ground arith), inl (refl, refl)))
  ]

  after_documents : DbResult (List QueryDoc) → QueryReply
  after_documents d = elim d [
    | failed text ↦ error_reply scc_receiver_internal_error text
    | ok docs ↦
        with_responses decimal R S r (entities_result decimal r.entities r.attributes true docs)
  ]

  after_documents-IsReply :
      (d : DbResult (List QueryDoc))
      → S.documents (search decimal R S r) ≡ d
      → IsReply (after_documents d)
  unfolding after_documents
  after_documents-IsReply (failed text) e = inr (inr (inr (text, e, refl)))
  after_documents-IsReply (ok docs) e = responses-IsReply _ (docs, e, refl)

  -- Every query gets one of four replies. Where the documents cannot be read, it is the code 500 with the error of the
  -- database. Where there are responses to the documents found, it is these, without an error or, if details are wanted, with the code 200 and the count. Where
  -- there are none, and one of the registrations that the database returns has an entity that matches a requested one and
  -- an attribute asked for, if any was, it is the code 302 with the application of the first such registration. Where
  -- there is none either, or the registrations cannot be read, it is the code 404, with the number of hits and the
  -- offset if details are wanted and an offset not below the hits is the cause, and without a text otherwise.
  pub mongo_query_context-IsReply : IsReply (mongo_query_context decimal R S r)
  unfolding mongo_query_context after_documents
  mongo_query_context-IsReply = after_documents-IsReply (S.documents (search decimal R S r)) refl
