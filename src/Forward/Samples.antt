-- ===== src/Forward/Samples.antt =====
-- The theorems on what follows an update at concrete responses.
use fiware_orion.Base.{ℕ, Str, ◌≡◌, refl, ◌⊎◌, some, List, [], ◌∷◌, codes}
use fiware_orion.Update.Element.{ElementResponse}
use fiware_orion.Update.Samples.{request}
use fiware_orion.Update.Element.Samples.{database, here, element, append}
use fiware_orion.Registry.Samples.{literal}
use fiware_orion.Forward.{Provider, forward_loop}
use fiware_orion.Forward.Garbage.{found, lost, flat, garbage_loop, garbage_loop-flat}
use fiware_orion.Forward.Route.{
  post_update_context, ArePathsLegal, IsRefusedAtOnce, IsForwarded, post_update_context_lem,
}
use fiware_orion.Forward.Laws.{IsReply, forward_loop-IsReply}

abbrev response_of : Str → List ElementResponse
response_of details =
    record {
      entity = record { id = codes "room1"; type = codes "room"; is_pattern = codes "false" };
      attributes = [];
      status = record { code = 302; details = details };
    }
    ∷ []

abbrev with_code : ℕ → ElementResponse
with_code n = record {
  entity = record { id = codes "room1"; type = codes "room"; is_pattern = codes "false" };
  attributes = [];
  status = record { code = n; details = [] };
}

-- An application that answers each request with code 200.
abbrev application : {W : Type 0} → Provider W
application = record {
  send = λ f w. (codes "<updateContextResponse>", w);
  clean = λ out. out;
  treat = λ text. some (with_code 200 ∷ []);
}

garbage_loop-flat_example :
    garbage_loop
      (flat (found (with_code 472) (with_code 302) ∷ (lost (with_code 472) (with_code 404) ∷ [])))
    ≡ with_code 302 ∷ (with_code 472 ∷ [])
garbage_loop-flat_example =
    garbage_loop-flat
      (found (with_code 472) (with_code 302) ∷ (lost (with_code 472) (with_code 404) ∷ []))
      ((refl, refl), ((refl, refl), tt)) tt

forward_loop-IsReply_example :
    IsReply {W = ℕ} application
      (with_code 200 ∷ response_of (codes "http://host:1028/v1"))
      (forward_loop {W = ℕ} application [] [] []
        (codes "UPDATE")
        (with_code 200 ∷ response_of (codes "http://host:1028/v1"))
        0).0
forward_loop-IsReply_example =
    forward_loop-IsReply application [] [] [] (codes "UPDATE")
      (with_code 200 ∷ response_of (codes "http://host:1028/v1")) 0

post_update_context_lem_example :
    (ArePathsLegal request.service_paths
      × IsForwarded literal database application append [] request
          (element ∷ [])
          here
          (post_update_context literal database application append [] request (element ∷ []) here))
    ⊎ ((ArePathsLegal request.service_paths → ⊥)
        × IsRefusedAtOnce literal database application append [] here (
            post_update_context literal database application append [] request (element ∷ []) here))
post_update_context_lem_example =
    post_update_context_lem literal database application append [] request (element ∷ []) here
