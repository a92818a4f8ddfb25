-- ===== src/Discover/Answers.antt =====
-- What mongoDiscoverContextAvailability of src/lib/mongoBackend answers, for each state of the database.
use fiware_orion.Base.{
  ◌≡◌, ◌≢◌, ◌⊎◌, inl, inr, ◌==◌, str_eq, str_sound, Bool-cases, List, [], ◌∷◌, if◌then◌else◌,
}
use fiware_orion.Registry.{Regex}
use fiware_orion.Rest.Service.{Scope}
use fiware_orion.Discover.{
  Source, DiscoverRequest, DiscoverReply, associations_discover, conventional_discover,
  mongo_discover_context_availability, scope_type_assoc,
}
use fiware_orion.Discover.Conventional.{IsConventional, conventional_discover-IsConventional}
use fiware_orion.Discover.Associations.{IsOfAssociations, associations-IsOfAssociations, different}

module _ (R : Regex) (S : Source) (r : DiscoverRequest) where
  -- By the first scope.
  abbrev pub IsAnswer : List Scope → DiscoverReply → Type 0
  IsAnswer [] reply = IsConventional R S r reply
  IsAnswer (sco ∷ scos) reply =
      ((sco.type ≡ scope_type_assoc) × IsOfAssociations R S r sco.value reply)
      ⊎ ((sco.type ≢ scope_type_assoc) × IsConventional R S r reply)

  by_scope : List Scope → DiscoverReply
  by_scope scopes = elim scopes [
    | [] ↦ conventional_discover R S r
    | sco ∷ scos ↦
        if sco.type == scope_type_assoc
        then associations_discover R S r sco.value
        else conventional_discover R S r
  ]

  by_scope-IsAnswer : (scopes : List Scope) → IsAnswer scopes (by_scope scopes)
  unfolding by_scope
  by_scope-IsAnswer [] = conventional_discover-IsConventional R S r
  by_scope-IsAnswer (sco ∷ scos) = elim (Bool-cases (sco.type == scope_type_assoc)) [
    | inl y ↦
        let e = str_sound sco.type scope_type_assoc y in
        rw (by_scope, y) (inl (e, associations-IsOfAssociations R S r sco.value))
    | inr n ↦
        let ne = different sco.type scope_type_assoc n in
        rw (by_scope, n) (inr (ne, conventional_discover-IsConventional R S r))
  ]

  -- A discovery whose first scope, if any, is not one of associations is answered by what the database gives for its
  -- registrations query: the code 500 with its error; what the loops over the documents return, without an error or,
  -- if details are wanted, with the code 200 and the count, where some registration has a requested entity and an attribute asked for, if any was;
  -- otherwise the code 404 without responses. One of associations is answered with the code 501 for the scope ALL; with the code
  -- 500 if the query for the associations fails, or one of the queries for the other side of an association, whose
  -- first error is then the text; with all results of these queries in their order, and the associations, where some registration answers one of them;
  -- and with the code 404 otherwise.
  pub mongo_discover_context_availability-IsAnswer :
      IsAnswer r.scopes (mongo_discover_context_availability R S r)
  unfolding mongo_discover_context_availability by_scope
  mongo_discover_context_availability-IsAnswer = by_scope-IsAnswer r.scopes
