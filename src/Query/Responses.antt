-- ===== src/Query/Responses.antt =====
-- The responses of a query, one for each document that was found.
use fiware_orion.Base.{
  ℕ, Str, ◌≡◌, refl, ap, ◌++◌, ◌==◌, str_eq, not, Bool, true, false, none, some, List, [], ◌∷◌, All,
  map, if◌then◌else◌, ◌∙◌, arith,
}
use fiware_orion.Update.{EntityId, scc_ok, scc_receiver_internal_error}
use fiware_orion.Query.Result.{QueryDoc, QueryResponse, document_response, entities_result}

-- A document that is not an error and has its attributes.
abbrev pub is_sound : QueryDoc → Bool
is_sound d = if not (d.err == []) then false else elim d.attrs [ none ↦ false | some attrs ↦ true ]

module _ (decimal : ℕ → Str) (ens : List EntityId) (names : List Str) (include_empty : Bool) where
  abbrev pub response : QueryDoc → QueryResponse
  response d = (document_response decimal ens names include_empty d).0

  last-is_sound :
      (d : QueryDoc) → (document_response decimal ens names include_empty d).1 ≡ not (is_sound d)
  unfolding document_response
  last-is_sound d = ground arith

  code-is_sound :
      (d : QueryDoc)
      → (response d).status.code ≡ (if is_sound d then scc_ok else scc_receiver_internal_error)
  unfolding document_response
  code-is_sound d = ground arith

  sound_step :
      (d : QueryDoc) (ds : List QueryDoc)
      → is_sound d ≡ true
      → entities_result decimal ens names include_empty (d ∷ ds)
        ≡ response d ∷ entities_result decimal ens names include_empty ds
  unfolding entities_result
  sound_step d ds h = rw (last-is_sound d) (rw h refl)

  unsound_step :
      (d : QueryDoc) (ds : List QueryDoc)
      → is_sound d ≡ false
      → entities_result decimal ens names include_empty (d ∷ ds) ≡ response d ∷ []
  unfolding entities_result
  unsound_step d ds h = rw (last-is_sound d) (rw h refl)

  -- The responses to a query are one for each document up to and with the first that is an error or
  -- has no attributes, in the order of the documents. Those before it are 200 responses, its own is a 500 response, and the
  -- documents behind it are not answered at all.
  pub entities_result-unsound :
      (gs : List QueryDoc) (b : QueryDoc) (ds : List QueryDoc)
      → All (λ g. is_sound g ≡ true) gs
      → is_sound b ≡ false
      → (entities_result decimal ens names include_empty (gs ++ b ∷ ds)
          ≡ map response gs ++ response b ∷ [])
        × All (λ r. r.status.code ≡ scc_ok) (map response gs)
        × ((response b).status.code ≡ scc_receiver_internal_error)
  entities_result-unsound [] b ds hs h = (unsound_step b ds h, tt, rw h at (code-is_sound b))
  entities_result-unsound (g ∷ gs) b ds hs h =
      let (e, oks, code) = entities_result-unsound gs b ds hs.1 h in
      (
        sound_step g (gs ++ b ∷ ds) hs.0 ∙ ap (◌∷◌ (response g)) e,
        (rw hs.0 at (code-is_sound g), oks),
        code,
      )
