-- ===== src/Forward/Laws.antt =====
-- What the loop of postUpdateContext of src/lib/serviceRoutines/postUpdateContext.cpp makes of the
-- responses.
use fiware_orion.Base.{
  Str, ◌≡◌, refl, ◌⊎◌, inl, inr, ◌==◌, str_eq, nat_eq, ◌||◌, Bool-cases, Option, none, some, List,
  [], ◌∷◌, ◌≢◌, codes, arith,
}
use fiware_orion.Strings.Url.{Url, UrlResult, rejected, out_of_range, parsed, parse_url}
use fiware_orion.Update.{scc_found}
use fiware_orion.Update.Element.{ElementResponse}
use fiware_orion.Forward.{
  Provider, Turn, kept, given_up, undefined, Reply, answered, failed, broken, bad_application,
  not_found_status, invalid_provider_response, provider_response, after_send, forward_found,
  forward_one, forward_loop, prepend,
}

module _ {W : Type 0} (P : Provider W) where
  -- What comes of a response with code 302: an error 500 where the URL of the application is none, an error 404 where the
  -- application did not answer or not in XML, or the first response of the application, which
  -- says where it is from, if nothing else.
  abbrev pub IsRelayed : ElementResponse → ElementResponse → Type 0
  IsRelayed r r' =
      ((parse_url r.status.details ≡ rejected) × (r' ≡ record r { status = bad_application }))
      ⊎ ((u : Url) × (parse_url r.status.details ≡ parsed u)
          × ((r' ≡ record r { status = not_found_status })
              ⊎ ((out : Str) × (x : ElementResponse) × (xs : List ElementResponse) × (P.treat
                      (P.clean out)
                    ≡ some (x ∷ xs))
                  × (r' ≡ provider_response u x))))

  -- A response of another code is left alone.
  abbrev pub IsTurned : ElementResponse → ElementResponse → Type 0
  IsTurned r r' =
      ((r.status.code ≢ scc_found) × (r' ≡ r)) ⊎ ((r.status.code ≡ scc_found) × IsRelayed r r')

  abbrev pub AllTurned : List ElementResponse → List ElementResponse → Type 0
  AllTurned [] [] = Unit
  AllTurned [] (r' ∷ rs') = ⊥
  AllTurned (r ∷ rs) [] = ⊥
  AllTurned (r ∷ rs) (r' ∷ rs') = IsTurned r r' × AllTurned rs rs'

  abbrev pub HasFound : List ElementResponse → Type 0
  HasFound [] = ⊥
  HasFound (r ∷ rs) = (r.status.code ≡ scc_found) ⊎ HasFound rs

  abbrev pub IsReply : List ElementResponse → Reply → Type 0
  IsReply rs (answered rs') = AllTurned rs rs'
  IsReply rs (failed s) = (s ≡ invalid_provider_response) × HasFound rs
  IsReply rs broken = HasFound rs

  -- One turn
  abbrev IsTurn : ElementResponse → Turn → Type 0
  IsTurn r (kept r') = IsTurned r r'
  IsTurn r given_up = r.status.code ≡ scc_found
  IsTurn r undefined = r.status.code ≡ scc_found

  abbrev IsSent : Url → ElementResponse → Turn → Type 0
  IsSent u r (kept r') =
      (r' ≡ record r { status = not_found_status })
      ⊎ ((out : Str) × (x : ElementResponse) × (xs : List ElementResponse) × (P.treat (P.clean out)
            ≡ some (x ∷ xs))
          × (r' ≡ provider_response u x))
  IsSent u r given_up = Unit
  IsSent u r undefined = Unit

  treated :
      (u : Url) (r : ElementResponse) (out : Str) (t : Option (List ElementResponse))
      → P.treat (P.clean out) ≡ t
      → IsSent u r (elim t [
        | none ↦ kept (record r { status = not_found_status })
        | some responses ↦ elim responses [ [] ↦ undefined | x ∷ xs ↦ kept (provider_response u x) ]
      ])
  treated u r out none e = inl refl
  treated u r out (some []) e = tt
  treated u r out (some (x ∷ xs)) e = inr (out, x, xs, e, refl)

  after_send-IsSent :
      (u : Url) (r : ElementResponse) (out : Str) → IsSent u r (after_send P u r out)
  unfolding after_send
  after_send-IsSent u r out = elim (Bool-cases (out == codes "error" || out == [])) [
    | inl y ↦ rw y (inl refl)
    | inr n ↦ rw n (elim (Bool-cases (P.clean out == [])) [
      | inl y ↦ rw y tt
      | inr m ↦ rw m (treated u r out (P.treat (P.clean out)) refl)
    ])
  ]

  module _ (tenant service_path token action : Str) where
    sent-IsTurn :
        (u : Url) (r : ElementResponse) (t : Turn)
        → r.status.code ≡ scc_found
        → parse_url r.status.details ≡ parsed u
        → IsSent u r t
        → IsTurn r t
    sent-IsTurn u r (kept r') c e s = inr (c, inr (u, e, s))
    sent-IsTurn u r given_up c e s = c
    sent-IsTurn u r undefined c e s = c

    found-IsTurn :
        (r : ElementResponse) (w : W) (p : UrlResult)
        → r.status.code ≡ scc_found
        → parse_url r.status.details ≡ p
        → IsTurn r (forward_found P tenant service_path token action r w).0
    unfolding forward_found
    found-IsTurn r w rejected c e = rw (forward_found, e) (inr (c, inl (e, refl)))
    found-IsTurn r w out_of_range c e = rw (forward_found, e) c
    found-IsTurn r w (parsed u) c e =
        rw (forward_found, e) (sent-IsTurn u r _ c e (after_send-IsSent u r _))

    one-IsTurn :
        (r : ElementResponse) (w : W)
        → IsTurn r (forward_one P tenant service_path token action r w).0
    unfolding forward_one
    one-IsTurn r w = elim (Bool-cases (r.status.code == scc_found)) [
      | inl y ↦ rw y (found-IsTurn r w (parse_url r.status.details) (ground arith) refl)
      | inr n ↦ rw n (inl ((λ c. ground arith), refl))
    ]

    prepend-IsReply :
        (r r' : ElementResponse) (rs : List ElementResponse) (reply : Reply)
        → IsTurned r r'
        → IsReply rs reply
        → IsReply (r ∷ rs) (prepend P tenant service_path token action r' reply)
    unfolding prepend
    prepend-IsReply r r' rs (answered rs') t h = (t, h)
    prepend-IsReply r r' rs (failed s) t h = (h.0, inr h.1)
    prepend-IsReply r r' rs broken t h = inr h

    abbrev next : Turn → List ElementResponse → W → Reply × W
    next t rs w = elim t [
      | kept r' ↦
          let (reply, w2) = forward_loop P tenant service_path token action rs w in
          (prepend P tenant service_path token action r' reply, w2)
      | given_up ↦ (failed invalid_provider_response, w)
      | undefined ↦ (broken, w)
    ]

    next-IsReply :
        (r : ElementResponse) (t : Turn) (rs : List ElementResponse) (w : W)
        → IsTurn r t
        → IsReply rs (forward_loop P tenant service_path token action rs w).0
        → IsReply (r ∷ rs) (next t rs w).0
    next-IsReply r (kept r') rs w t h = prepend-IsReply r r' rs _ t h
    next-IsReply r given_up rs w t h = (refl, inl t)
    next-IsReply r undefined rs w t h = inl t

    -- The reply of the loop, whatever the applications answer: a response for each of the responses, in
    -- their order, of which those with a code other than 302 are as they were; or the error 404 for all of the
    -- request, or undefined behaviour, both of which only a response with code 302 brings about.
    pub forward_loop-IsReply :
        (rs : List ElementResponse) (w : W)
        → IsReply rs (forward_loop P tenant service_path token action rs w).0
    unfolding forward_loop
    forward_loop-IsReply [] w = tt
    forward_loop-IsReply (r ∷ rs) w =
        let (turn, w1) = forward_one P tenant service_path token action r w in
        next-IsReply r turn rs w1 (one-IsTurn r w) (forward_loop-IsReply rs w1)
