-- ===== src/Rest/Service/Laws.antt =====
-- Which service restService treats a request with.
use fiware_orion.Base.{
  ℕ, ◌≤◌, Str, ◌≡◌, refl, ap, ◌≢◌, ◌↔◌, ◌⊎◌, inl, inr, ◌++◌, ◌==◌, str_eq, nat_eq, str_beq_iff,
  ◌||◌, true, false, some, List, [], ◌∷◌, codes, length, All, All-map, arith, Bool-cases,
}
use fiware_orion.Strings.Bytes.{strcasecmp_eq}
use fiware_orion.Strings.Split.{string_split}
use fiware_orion.Update.{scc_ok}
use fiware_orion.Rest.{scc_bad_request}
use fiware_orion.Rest.Service.{
  RestService, Request, Handlers, Outcome, unrecognized, no_match, match, match_components,
  verb_and_length, look_at, serve, find_service, rest_service,
}

-- Each component of the URL is the text of the service, letters of either case alike, or the text is a star.
abbrev pub Fits : List Str → List Str → Type 0
Fits pattern [] = Unit
Fits [] (c ∷ cs) = ⊥
Fits (p ∷ ps) (c ∷ cs) = ((p ≡ codes "*") ⊎ (strcasecmp_eq p c ≡ true)) × Fits ps cs

pub record Matches (method : Str) (n : ℕ) (comps : List Str) (s : RestService) : Type 0 where
  pub size : (s.components ≡ 0) ⊎ (s.components ≡ n)
  pub verb : (s.verb ≡ method) ⊎ (s.verb ≡ codes "*")
  pub fits : Fits s.comp_v comps

match_total :
    (ps cs : List Str)
    → length cs ≤ length ps
    → ((match_components ps cs ≡ some true) × Fits ps cs)
      ⊎ ((match_components ps cs ≡ some false) × (¬ Fits ps cs))
unfolding match_components
match_total ps [] h = inl (refl, tt)
match_total [] (c ∷ cs) h = absurd (omega (arith, h))
match_total (p ∷ ps) (c ∷ cs) h = elim (Bool-cases (p == codes "*" || strcasecmp_eq p c)) [
  | inl y ↦
      let fit : (p ≡ codes "*") ⊎ (strcasecmp_eq p c ≡ true) =
        ground (arith, y, str_beq_iff p (codes "*")) in
      elim (match_total ps cs (omega (arith, h))) [
        | inl (e, f) ↦ inl (rw (match_components, y) e, (fit, f))
        | inr (e, nf) ↦ inr (rw (match_components, y) e, λ g. nf g.1)
      ]
  | inr n ↦
      inr (rw (match_components, n) refl, λ g. ground (arith, n, g.0, str_beq_iff p (codes "*")))
]

verb_and_length_iff :
    (method : Str) (n : ℕ) (s : RestService)
    → (verb_and_length method n s ≡ true)
      ↔ (((s.components ≡ 0) ⊎ (s.components ≡ n)) × ((s.verb ≡ method) ⊎ (s.verb ≡ codes "*")))
unfolding verb_and_length
verb_and_length_iff method n s =
    ground (arith, str_beq_iff method s.verb, str_beq_iff s.verb (codes "*"))

look-cases :
    (method : Str) (n : ℕ) (comps : List Str) (s : RestService)
    → length comps ≤ length s.comp_v
    → ((verb_and_length method n s ≡ true)
        × (look_at method n comps s ≡ match)
        × Matches method n comps s)
      ⊎ (((verb_and_length method n s ≡ false)
            ⊎ ((verb_and_length method n s ≡ true) × (look_at method n comps s ≡ no_match)))
          × (¬ Matches method n comps s))
unfolding look_at
look-cases method n comps s h =
    let iff = verb_and_length_iff method n s in
    elim (Bool-cases (verb_and_length method n s)) [
      | inr b ↦ inr (inl b, λ m. cc (b, iff.1 (m.size, m.verb)))
      | inl b ↦ elim (match_total s.comp_v comps h) [
        | inl (e, f) ↦ inl (
          b,
          rw (look_at, b, e) refl,
          record { size = (iff.0 b).0; verb = (iff.0 b).1; fits = f },
        )
        | inr (e, nf) ↦ inr (inr (b, rw (look_at, b, e) refl), λ m. nf m.fits)
      ]
    ]

module _ {World : Type 0} (H : Handlers World) (r : Request) (w : World) where
  -- The first service that matches, or that there is none.
  abbrev pub IsFirst : List RestService → ℕ → List Str → Outcome World → Type 0
  IsFirst services n comps out =
      ((before : List RestService) × (s : RestService) × (after : List RestService) × (services
          ≡ before ++ s ∷ after)
        × All (λ t. ¬ Matches r.method n comps t) before
        × Matches r.method n comps s
        × (out ≡ serve H s r comps w))
      ⊎ (All (λ t. ¬ Matches r.method n comps t) services
          × (word : Str) × (out
              ≡ unrecognized scc_ok (record {
                format = r.out_format;
                request = word;
                code = scc_bad_request;
                details = codes "unrecognized request";
              })))

  IsFirst-skip :
      (s : RestService) (ss : List RestService) (n : ℕ) (comps : List Str) (out : Outcome World)
      → (¬ Matches r.method n comps s)
      → IsFirst ss n comps out
      → IsFirst (s ∷ ss) n comps out
  IsFirst-skip s ss n comps out no_s (inl (before, t, after, e, nb, m, o)) =
      inl (s ∷ before, t, after, ap (◌∷◌ s) e, (no_s, nb), m, o)
  IsFirst-skip s ss n comps out no_s (inr (ns, word, o)) = inr ((no_s, ns), word, o)

  find-IsFirst :
      (services : List RestService) (n : ℕ) (comps : List Str) (word : Str)
      → All (λ s. length comps ≤ length s.comp_v) services
      → IsFirst services n comps (find_service H services r n comps word w)
  unfolding find_service
  find-IsFirst [] n comps word h = inr (tt, word, refl)
  find-IsFirst (s ∷ ss) n comps word h = elim (look-cases r.method n comps s h.0) [
    | inl (b, e, m) ↦ rw (find_service, b, e) (inl ([], s, ss, refl, tt, m, refl))
    | inr (inl b, no_s) ↦
        rw (find_service, b) (IsFirst-skip s ss n comps _ no_s (find-IsFirst ss n comps word h.1))
    | inr (inr (b, e), no_s) ↦
        rw (find_service, b, e)
          (IsFirst-skip s ss n comps _ no_s (find-IsFirst ss n comps s.payload_word h.1))
  ]

  -- A URL with ten components at most, where each service has ten texts, is treated by the first
  -- service of the list that matches it in number, verb and components; where none does, the broker
  -- replies "unrecognized request", with the status 200.
  pub rest_service-IsFirst :
      (services : List RestService)
      → (r.url ≢ [])
      → (r.url ≢ codes "/")
      → length (string_split r.url b'/' []).1 ≤ 10
      → All (λ s. length s.comp_v ≡ 10) services
      → IsFirst services
          (string_split r.url b'/' []).0
          (string_split r.url b'/' []).1
          (rest_service H services r w)
  unfolding rest_service
  rest_service-IsFirst services ne ns few tens =
      let (n, comps) = string_split r.url b'/' [] in
      let e : (r.url == []) ≡ false = ground (arith, ne, str_beq_iff r.url []) in
      let f : (r.url == codes "/") ≡ false = ground (arith, ns, str_beq_iff r.url (codes "/")) in
      rw (rest_service, e, f)
        (find-IsFirst services n comps []
          (All-map _ _ (λ s (t : length s.comp_v ≡ 10). omega (arith, t, few)) services tens))
