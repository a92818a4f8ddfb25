-- ===== src/Discover/Conventional.antt =====
-- What a discovery of registrations is answered: conventionalDiscover of mongoDiscoverContextAvailability.cpp
-- in src/lib/mongoBackend.
use fiware_orion.Base.{
  Str, ◌≡◌, refl, ◌⊎◌, inl, inr, ◌++◌, str_eq, true, false, Bool-cases, none, some, List, [], ◌∷◌,
  codes, arith,
}
use fiware_orion.Base.Int.{pos, ltb_ℤ}
use fiware_orion.Strings.Decimal.{decimal_int}
use fiware_orion.Update.{scc_ok, scc_context_element_not_found, scc_receiver_internal_error}
use fiware_orion.Update.Subscriptions.{DbResult, ok, failed}
use fiware_orion.Registry.{Regex, is_nil, Registration, query_result}
use fiware_orion.Registry.Laws.{Some}
use fiware_orion.Registry.Complete.{HasAnswer}
use fiware_orion.Registry.First.{all_of, answers_iff}
use fiware_orion.Discover.{
  Source, DiscoverRequest, DiscoverReply, error_reply, details, offset, conventional_reply,
  conventional_discover, registrations_query,
}

module _ (R : Regex) (S : Source) (r : DiscoverRequest) where
  -- Details are wanted, and registrations match, but the offset is not below their number.
  abbrev IsBeyond : Type 0
  IsBeyond =
      (details R S r ≡ true)
      × (ltb_ℤ (pos 0) (S.count (registrations_query R S r)) ≡ true)
      × (ltb_ℤ (offset R S r) (S.count (registrations_query R S r)) ≡ false)

  -- What was found, without an error, or, if details are wanted, with the code 200 and the count.
  abbrev IsFound : List Registration → DiscoverReply → Type 0
  IsFound rs reply =
      (reply.responses ≡ rs)
      × (reply.associations ≡ none)
      × (((details R S r ≡ false) × (reply.error_code ≡ none))
          ⊎ ((details R S r ≡ true)
              × (reply.error_code
                  ≡ some (record {
                    code = scc_ok;
                    details = codes "Count: " ++ decimal_int (S.count (registrations_query R S r));
                  }))))

  -- The code 404, with the number of registrations and the offset if that is the cause.
  abbrev IsNotFound : DiscoverReply → Type 0
  IsNotFound reply =
      (IsBeyond
        × (reply
            ≡ error_reply [] scc_context_element_not_found (
                codes "Number of matching registrations: "
                ++ (decimal_int (S.count (registrations_query R S r))
                    ++ (codes ". Offset is " ++ decimal_int (offset R S r))))))
      ⊎ ((IsBeyond → ⊥) × (reply ≡ error_reply [] scc_context_element_not_found []))

  abbrev Answers : List (List Registration) → Type 0
  Answers docs = Some (HasAnswer R r.entities r.attributes) (all_of docs)

  -- The reply to a discovery of registrations, by what the database gives for its query.
  abbrev pub IsConventional : DiscoverReply → Type 0
  IsConventional reply =
      ((text : Str) × (S.registrations (registrations_query R S r) ≡ failed text)
        × (reply ≡ error_reply [] scc_receiver_internal_error text))
      ⊎ ((docs : List (List Registration)) × (S.registrations (registrations_query R S r) ≡ ok docs)
          × ((Answers docs × IsFound (query_result R r.entities r.attributes docs) reply)
              ⊎ ((Answers docs → ⊥) × IsNotFound reply)))

  empty-IsNotFound : IsNotFound (conventional_reply R S r [])
  unfolding conventional_reply
  empty-IsNotFound = elim (Bool-cases (details R S r)) [
    | inr n ↦ rw n (inr ((λ b. absurd (ground (arith, n, b.0))), refl))
    | inl y ↦ rw y (elim (Bool-cases (ltb_ℤ (pos 0) (S.count (registrations_query R S r)))) [
      | inr m ↦ rw m (inr ((λ b. absurd (ground (arith, m, b.1))), refl))
      | inl z ↦
          rw z (elim (Bool-cases (ltb_ℤ (offset R S r) (S.count (registrations_query R S r)))) [
            | inl k ↦ rw k (inr ((λ b. absurd (ground (arith, k, b.2))), refl))
            | inr k ↦ rw k (inl ((refl, refl, refl), refl))
          ])
    ])
  ]

  filled-IsFound :
      (x : Registration) (xs : List Registration)
      → IsFound (x ∷ xs) (conventional_reply R S r (x ∷ xs))
  unfolding conventional_reply
  filled-IsFound x xs = elim (Bool-cases (details R S r)) [
    | inl y ↦ rw y (refl, refl, inr (refl, refl))
    | inr n ↦ rw n (refl, refl, inl (refl, refl))
  ]

  replied :
      (docs : List (List Registration)) (rs : List Registration)
      → query_result R r.entities r.attributes docs ≡ rs
      → (Answers docs × IsFound rs (conventional_reply R S r rs))
        ⊎ ((Answers docs → ⊥) × IsNotFound (conventional_reply R S r rs))
  unfolding is_nil
  replied docs [] e = inr (
    (λ a.
        let n = (answers_iff R r.entities r.attributes docs).1 a in absurd (ground (arith, e, n))),
    empty-IsNotFound,
  )
  replied docs (x ∷ xs) e =
      inl ((answers_iff R r.entities r.attributes docs).0 (rw e refl), filled-IsFound x xs)

  found_docs : DbResult (List (List Registration)) → DiscoverReply
  found_docs d = elim d [
    | failed text ↦ error_reply [] scc_receiver_internal_error text
    | ok docs ↦ conventional_reply R S r (query_result R r.entities r.attributes docs)
  ]

  found_docs-IsConventional :
      (d : DbResult (List (List Registration)))
      → S.registrations (registrations_query R S r) ≡ d
      → IsConventional (found_docs d)
  unfolding found_docs
  found_docs-IsConventional (failed text) e = inl (text, e, refl)
  found_docs-IsConventional (ok docs) e = inr (docs, e, replied docs _ refl)

  pub conventional_discover-IsConventional : IsConventional (conventional_discover R S r)
  unfolding conventional_discover found_docs
  conventional_discover-IsConventional =
      found_docs-IsConventional (S.registrations (registrations_query R S r)) refl
