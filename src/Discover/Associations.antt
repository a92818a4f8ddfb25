-- ===== src/Discover/Associations.antt =====
-- What a discovery of associations is answered: associationsDiscover of mongoDiscoverContextAvailability.cpp
-- in src/lib/mongoBackend.
use fiware_orion.Base.{
  Str, ◌≡◌, refl, sym, subst, ◌≢◌, ◌↔◌, ◌⊎◌, inl, inr, ◌++◌, ◌==◌, str_eq, str_beq_iff, str_sound,
  false, Bool, Bool-cases, Option, none, some, List, [], ◌∷◌, map, codes, arith,
}
use fiware_orion.Update.{
  scc_context_element_not_found, scc_receiver_internal_error, scc_not_implemented,
}
use fiware_orion.Update.Subscriptions.{DbResult, ok, failed}
use fiware_orion.Registry.{Regex, is_nil, Registration, query_result}
use fiware_orion.Registry.Laws.{Some}
use fiware_orion.Registry.Complete.{HasAnswer, nil_append_iff}
use fiware_orion.Registry.First.{all_of, answers_iff}
use fiware_orion.Register.Store.{RegistrationMetadata, AssociationDoc}
use fiware_orion.Discover.{
  Source, DiscoverRequest, DiscoverReply, association_metadata, error_reply, side_query,
  association_query, associated, with_associations, associations_discover, scope_value_assoc_source,
  scope_value_assoc_all,
}

DbResult-cases {ℓ} :
    {A : Type ℓ} (r : DbResult A) → ((text : Str) × (r ≡ failed text)) ⊎ ((a : A) × (r ≡ ok a))
DbResult-cases (failed text) = inl (text, refl)
DbResult-cases (ok a) = inr (a, refl)

pub different : (s t : Str) → (s == t) ≡ false → s ≢ t
different s t n e = let y = (str_beq_iff s t).1 e in absurd (ground (arith, n, y))

nil_filled : is_nil {A = Registration} [] ≡ false → ⊥
unfolding is_nil
nil_filled h = absurd (ground (arith, h))

module _ (R : Regex) (S : Source) (r : DiscoverRequest) where
  -- For one side of the associations: the first query that fails does so with this text.
  abbrev FirstFails : Bool → Str → List RegistrationMetadata → Type 0
  FirstFails sources text [] = ⊥
  FirstFails sources text (md ∷ mds) =
      (S.registrations (side_query R S r sources md) ≡ failed text)
      ⊎ ((docs : List (List Registration)) × (S.registrations (side_query R S r sources md)
            ≡ ok docs)
          × FirstFails sources text mds)

  -- No query fails, and these are the results of all of them in order.
  abbrev AreResults : Bool → List RegistrationMetadata → List Registration → Type 0
  AreResults sources [] rs = rs ≡ []
  AreResults sources (md ∷ mds) rs =
      (docs : List (List Registration)) × (rest : List Registration) × (S.registrations
          (side_query R S r sources md)
        ≡ ok docs)
      × (rs
          ≡ query_result R (side_query R S r sources md).entities
              (side_query R S r sources md).attributes docs
            ++ rest)
      × AreResults sources mds rest

  -- For one of the associations, a registration has its entity and one of its attributes, if it has any.
  abbrev SomeAnswers : Bool → List RegistrationMetadata → Type 0
  SomeAnswers sources = Some (λ md.
      (docs : List (List Registration)) × (S.registrations (side_query R S r sources md) ≡ ok docs)
      × Some
          (HasAnswer R (side_query R S r sources md).entities
            (side_query R S r sources md).attributes)
          (all_of docs))

  -- What the loop over the associations comes to: the first failure, or all results.
  abbrev IsOutcome : Bool → List RegistrationMetadata → List Registration × Option Str → Type 0
  IsOutcome sources mds result =
      ((text : Str) × FirstFails sources text mds × (result.1 ≡ some text))
      ⊎ (AreResults sources mds result.0
          × (result.1 ≡ none)
          × ((is_nil result.0 ≡ false) ↔ SomeAnswers sources mds))

  same_docs :
      {d : DbResult (List (List Registration))} {docs docs' : List (List Registration)}
      → d ≡ ok docs
      → d ≡ ok docs'
      → docs' ≡ docs
  same_docs e e' = ground (arith, e, e')

  one_more :
      (sources : Bool) (md : RegistrationMetadata) (mds : List RegistrationMetadata)
      (docs : List (List Registration)) (rest : List Registration)
      → S.registrations (side_query R S r sources md) ≡ ok docs
      → (is_nil rest ≡ false) ↔ SomeAnswers sources mds
      → (is_nil (
            query_result R
              (side_query R S r sources md).entities
              (side_query R S r sources md).attributes
              docs
            ++ rest)
          ≡ false)
        ↔ SomeAnswers sources (md ∷ mds)
  one_more sources md mds docs rest e k =
      let q = side_query R S r sources md in
      let both = nil_append_iff (query_result R q.entities q.attributes docs) rest in
      let here = answers_iff R q.entities q.attributes docs in
      (
        (λ h. elim (both.0 h) [ inl a ↦ inl (docs, e, here.0 a) | inr b ↦ inr (k.0 b) ]),
        (λ h. elim h [
          | inl (docs', e', a) ↦ both.1 (
              inl (
                here.1 (
                  subst (λ d. Some (HasAnswer R q.entities q.attributes) (all_of d))
                    (same_docs e e') a)))
          | inr b ↦ both.1 (inr (k.1 b))
        ]),
      )

  associated-failed :
      (sources : Bool) (md : RegistrationMetadata) (mds : List RegistrationMetadata) (text : Str)
      → S.registrations (side_query R S r sources md) ≡ failed text
      → associated R S r sources (md ∷ mds) ≡ ([], some text)
  unfolding associated
  associated-failed sources md mds text e = rw (associated, e) refl

  associated-ok :
      (sources : Bool) (md : RegistrationMetadata) (mds : List RegistrationMetadata)
      (docs : List (List Registration))
      → S.registrations (side_query R S r sources md) ≡ ok docs
      → associated R S r sources (md ∷ mds) ≡ (
        query_result R
              (side_query R S r sources md).entities
              (side_query R S r sources md).attributes
              docs
            ++ (associated R S r sources mds).0,
        (associated R S r sources mds).1,
      )
  unfolding associated
  associated-ok sources md mds docs e = rw (associated, e) refl

  associated-IsOutcome :
      (sources : Bool) (mds : List RegistrationMetadata)
      → IsOutcome sources mds (associated R S r sources mds)
  unfolding associated
  associated-IsOutcome sources [] =
      inr (refl, refl, ((λ h. absurd (nil_filled h)), (λ h. absurd h)))
  associated-IsOutcome sources (md ∷ mds) =
      elim (DbResult-cases (S.registrations (side_query R S r sources md))) [
        | inl (text, e) ↦
            subst (IsOutcome sources (md ∷ mds)) (sym (associated-failed sources md mds text e))
              (inl (text, inl e, refl))
        | inr (docs, e) ↦
            subst (IsOutcome sources (md ∷ mds)) (sym (associated-ok sources md mds docs e))
              (elim (associated-IsOutcome sources mds) [
                | inl (text, f, g) ↦ inl (text, inr (docs, e, f), g)
                | inr (a, g, k) ↦ inr (
                  (docs, (associated R S r sources mds).0, e, refl, a),
                  g,
                  one_more sources md mds docs (associated R S r sources mds).0 e k,
                )
              ])
      ]

  -- The reply after the loop over the associations: the code 500 with the text of the first failure; all results; or the
  -- code 404 where there are none.
  abbrev IsLoopReply : Bool → List RegistrationMetadata → DiscoverReply → Type 0
  IsLoopReply sources mds reply =
      ((text : Str) × FirstFails sources text mds
        × (reply.error_code ≡ some (record { code = scc_receiver_internal_error; details = text })))
      ⊎ (AreResults sources mds reply.responses
          × ((SomeAnswers sources mds × (reply.error_code ≡ none) × (reply.associations ≡ some mds))
              ⊎ ((SomeAnswers sources mds → ⊥)
                  × (reply
                      ≡ error_reply [] scc_context_element_not_found (
                          codes
                            "Could not query association with combination of entity/attribute")))))

  loop-IsLoopReply :
      (sources : Bool) (mds : List RegistrationMetadata) (rs : List Registration) (o : Option Str)
      → IsOutcome sources mds (rs, o)
      → IsLoopReply sources mds (with_associations R S r mds (rs, o))
  unfolding with_associations is_nil
  loop-IsLoopReply sources mds rs (some text) (inl (t, f, g)) =
      inl (text, subst (λ x. FirstFails sources x mds) (ground (arith, g)) f, refl)
  loop-IsLoopReply sources mds rs (some text) (inr (a, g, k)) = absurd (ground (arith, g))
  loop-IsLoopReply sources mds rs none (inl (t, f, g)) = absurd (ground (arith, g))
  loop-IsLoopReply sources mds [] none (inr (a, g, k)) =
      inr (a, inr ((λ s. absurd (nil_filled (k.1 s))), refl))
  loop-IsLoopReply sources mds (x ∷ xs) none (inr (a, g, k)) = inr (a, inl (k.0 refl, refl, refl))

  -- The reply to a discovery of associations in this scope.
  abbrev pub IsOfAssociations : Str → DiscoverReply → Type 0
  IsOfAssociations scope reply =
      ((scope ≡ scope_value_assoc_all)
        × (reply ≡ error_reply [] scc_not_implemented (codes "Not supported scope: 'ALL'")))
      ⊎ ((scope ≢ scope_value_assoc_all)
          × (((text : Str) × (S.associations (association_query R S r scope) ≡ failed text)
                × (reply
                    ≡ error_reply [] scc_receiver_internal_error
                        (codes "Database error: " ++ text)))
              ⊎ ((docs : List AssociationDoc) × (S.associations (association_query R S r scope)
                    ≡ ok docs)
                  × IsLoopReply (scope == scope_value_assoc_source) (map association_metadata docs)
                      reply)))

  after_query : Bool → DbResult (List AssociationDoc) → DiscoverReply
  after_query sources d = elim d [
    | failed text ↦ error_reply [] scc_receiver_internal_error (codes "Database error: " ++ text)
    | ok docs ↦
        let mds = map association_metadata docs in
        with_associations R S r mds (associated R S r sources mds)
  ]

  after_query-cases :
      (scope : Str) (d : DbResult (List AssociationDoc))
      → S.associations (association_query R S r scope) ≡ d
      → scope ≢ scope_value_assoc_all
      → IsOfAssociations scope (after_query (scope == scope_value_assoc_source) d)
  unfolding after_query
  after_query-cases scope (failed text) e ne = inr (ne, inl (text, e, refl))
  after_query-cases scope (ok docs) e ne =
      let sources = scope == scope_value_assoc_source in
      let mds = map association_metadata docs in
      inr (ne, inr (docs, e, loop-IsLoopReply sources mds _ _ (associated-IsOutcome sources mds)))

  pub associations-IsOfAssociations :
      (scope : Str) → IsOfAssociations scope (associations_discover R S r scope)
  unfolding associations_discover after_query
  associations-IsOfAssociations scope = elim (Bool-cases (scope == scope_value_assoc_all)) [
    | inl y ↦
        let e = str_sound scope scope_value_assoc_all y in
        rw (associations_discover, y) (inl (e, refl))
    | inr n ↦
        let ne = different scope scope_value_assoc_all n in
        rw (associations_discover, n) (after_query-cases scope _ refl ne)
  ]
