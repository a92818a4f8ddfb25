-- ===== src/Forward.antt =====
-- postUpdateContext of src/lib/serviceRoutines/postUpdateContext.cpp: what is done with the responses of
-- mongoUpdateContext, of which those with code 302 name the application that has the entity. The HTTP
-- client and the XML parser of its answers are a parameter (Provider).
pub mod Garbage
pub mod Route
pub mod Laws
pub mod Samples
use fiware_orion.Base.{
  ℕ, zero, suc, ◌+◌, ◌/◌, ◌%◌, Str, ◌++◌, ◌==◌, str_eq, nat_eq, ◌||◌, not, Bool, true, false,
  Option, none, some, List, [], ◌∷◌, codes, ltb, if◌then◌else◌,
}
use fiware_orion.Base.Int.{ℤ, pos, negsuc}
use fiware_orion.Strings.Decimal.{decimal_int}
use fiware_orion.Strings.Url.{Url, UrlResult, rejected, out_of_range, parsed, parse_url}
use fiware_orion.Update.{
  StatusCode, scc_found, scc_context_element_not_found, scc_receiver_internal_error,
}
use fiware_orion.Update.Element.{ContextElement, ElementResponse}

-- What sendHttpSocket gets.
pub record Forwarding : Type 0 where
  pub ip : Str
  pub port : ℤ
  pub protocol : Str
  pub tenant : Str
  pub service_path : Str
  pub token : Str
  pub resource : Str
  pub action : Str
  pub element : ContextElement

-- `send` is sendHttpSocket with the rendered request, `clean` is xmlPayloadClean, whose result is empty where it is
-- NULL or empty, and `treat` is xmlTreat, with the responses that it reads where its result is "OK".
pub record Provider (W : Type 0) : Type 0 where
  pub send : Forwarding → W → Str × W
  pub clean : Str → Str
  pub treat : Str → Option (List ElementResponse)

-- One response after its turn in the loop; or the loop ends with an error for all of the request; or an
-- element is read that a vector does not have.
pub data Turn : Type 0 where
  kept : ElementResponse → Turn
  given_up : Turn
  undefined : Turn

-- The reply to the whole request: rendered responses, a rendered error, or an element out of range.
pub data Reply : Type 0 where
  answered : List ElementResponse → Reply
  failed : StatusCode → Reply
  broken : Reply

abbrev pub invalid_provider_response : StatusCode
invalid_provider_response = record {
  code = scc_context_element_not_found;
  details = codes "invalid context provider response";
}

abbrev pub not_found_status : StatusCode
not_found_status = record { code = scc_context_element_not_found; details = [] }

abbrev pub bad_application : StatusCode
bad_application = record {
  code = scc_receiver_internal_error;
  details = codes "error parsing providing application";
}

unfoldable pub redirected : Url → Str
unfolding decimal_int
redirected u =
    codes "Redirected to context provider "
    ++ (u.host ++ (codes ":" ++ (decimal_int u.port ++ u.path)))

-- The response of the provider in place of the one that was found.
unfoldable pub provider_response : Url → ElementResponse → ElementResponse
unfolding redirected
provider_response u x = record {
  entity = x.entity;
  attributes = x.attributes;
  status = record {
    code = x.status.code;
    details = if x.status.details == [] then redirected u else x.status.details;
  };
}

module _ {W : Type 0} (P : Provider W) where
  -- From the answer of the provider on.
  unfoldable pub after_send : Url → ElementResponse → Str → Turn
  unfolding provider_response
  after_send u r out =
      if out == codes "error" || out == []
      then kept (record r { status = not_found_status })
      else if P.clean out == []
      then given_up
      else elim (P.treat (P.clean out)) [
        | none ↦ kept (record r { status = not_found_status })
        | some responses ↦ elim responses [ [] ↦ undefined | x ∷ xs ↦ kept (provider_response u x) ]
      ]

  module _ (tenant service_path token action : Str) where
    unfoldable pub forwarding : Url → ElementResponse → Forwarding
    forwarding u r = record {
      ip = u.host;
      port = u.port;
      protocol = u.protocol;
      tenant = tenant;
      service_path = service_path;
      token = token;
      resource = u.path ++ codes "/updateContext";
      action = action;
      element = record { entity = r.entity; attributes = r.attributes };
    }

    -- A response with code 302
    unfoldable pub forward_found : ElementResponse → W → Turn × W
    unfolding after_send forwarding
    forward_found r w = elim (parse_url r.status.details) [
      | rejected ↦ (kept (record r { status = bad_application }), w)
      | out_of_range ↦ (undefined, w)
      | parsed u ↦ let (out, w1) = P.send (forwarding u r) w in (after_send u r out, w1)
    ]

    unfoldable pub forward_one : ElementResponse → W → Turn × W
    unfolding forward_found
    forward_one r w = if not (r.status.code == scc_found) then (kept r, w) else forward_found r w

    unfoldable pub prepend : ElementResponse → Reply → Reply
    prepend r (answered rs) = answered (r ∷ rs)
    prepend r (failed s) = failed s
    prepend r broken = broken

    -- The loop over the responses
    unfoldable pub forward_loop : List ElementResponse → W → Reply × W
    unfolding forward_one prepend
    forward_loop [] w = (answered [], w)
    forward_loop (r ∷ rs) w = elim (forward_one r w).0 [
      | kept r' ↦ let (reply, w2) = forward_loop rs (forward_one r w).1 in (prepend r' reply, w2)
      | given_up ↦ (failed invalid_provider_response, (forward_one r w).1)
      | undefined ↦ (broken, (forward_one r w).1)
    ]
