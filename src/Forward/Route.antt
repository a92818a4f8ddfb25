-- ===== src/Forward/Route.antt =====
-- postUpdateContext of src/lib/serviceRoutines/postUpdateContext.cpp, from the service paths of the
-- request to its reply. The status of the HTTP reply is not part of it.
use fiware_orion.Base.{
  ℕ, suc, zero, ◌≤◌, ◌≡◌, ◌≢◌, refl, subst, ◌⊎◌, inl, inr, ◌==◌, str_sound, str_beq_iff, true, All,
  str_eq, nat_eq, not, ◌&&◌, false, Bool-cases, Option, none, some, List, [], ◌∷◌, codes, ltb,
  length, if◌then◌else◌, Str, arith,
}
use fiware_orion.Strings.Coords.{Double}
use fiware_orion.Strings.Checks.{service_path_check, service_path_check_iff, IsPathByte}
use fiware_orion.Registry.{Regex}
use fiware_orion.Update.{StatusCode, scc_ok, scc_none}
use fiware_orion.Update.Subscriptions.{Origin}
use fiware_orion.Update.Backend.{Backend, Call}
use fiware_orion.Update.Element.{ContextElement, ElementResponse}
use fiware_orion.Update.Context.{UpdateResponse, mongo_update_context, mongo_update_context-answers}
use fiware_orion.Rest.{scc_bad_request}
use fiware_orion.Forward.{Provider, Reply, failed, broken, not_found_status, forward_loop}
use fiware_orion.Forward.Garbage.{garbage_loop, remove_garbage}

abbrev default_path : Str
default_path = codes "/"

-- A request without a service path gets the default one.
unfoldable pub paths_or_default : List Str → List Str
paths_or_default [] = default_path ∷ []
paths_or_default (p ∷ ps) = p ∷ ps

abbrev too_many_paths : StatusCode
too_many_paths = record {
  code = scc_bad_request;
  details = codes "more than one service path in context update request";
}

unfoldable pub first_of : List Str → Option Str
first_of [] = none
first_of (p ∷ ps) = some p

-- No service path, or one that is not empty and has no bytes but those of a path.
abbrev pub ArePathsLegal : List Str → Type 0
ArePathsLegal [] = Unit
ArePathsLegal (p ∷ []) = (p ≢ []) × All IsPathByte p
ArePathsLegal (p ∷ q ∷ ps) = ⊥

many_illegal : (paths : List Str) → ltb 1 (length paths) ≡ true → ArePathsLegal paths → ⊥
many_illegal [] h k = absurd (ground arith)
many_illegal (p ∷ []) h k = absurd (ground arith)
many_illegal (p ∷ q ∷ ps) h k = k

checked-legal :
    (paths : List Str)
    → ltb 1 (length paths) ≡ false
    → (service_path_check (first_of (paths_or_default paths)) == codes "OK") ≡ true
    → ArePathsLegal paths
unfolding first_of paths_or_default
checked-legal [] n ok = tt
checked-legal (p ∷ []) n ok =
    let (s, e, ne, bytes) =
      (service_path_check_iff (some p)).0
        (str_sound (service_path_check (some p)) (codes "OK") ok) in
    let same : s ≡ p = ground (arith, e) in
    subst (λ x. (x ≢ []) × All IsPathByte x) same (ne, bytes)
checked-legal (p ∷ q ∷ ps) n ok = absurd (ground arith)

not_same : (s t : Str) → (s == t) ≡ false → s ≡ t → ⊥
not_same s t bad e = let ok = (str_beq_iff s t).1 e in absurd (ground (arith, ok, bad))

unchecked_illegal :
    (paths : List Str)
    → (service_path_check (first_of (paths_or_default paths)) == codes "OK") ≡ false
    → ArePathsLegal paths
    → ⊥
unfolding first_of paths_or_default
unchecked_illegal [] bad k =
    let ok =
      (service_path_check_iff (some default_path)).1
        (default_path, refl, (λ e. ground arith), (inr (inr (inr (inr refl))), tt)) in
    not_same _ _ bad ok
unchecked_illegal (p ∷ []) bad k =
    let ok = (service_path_check_iff (some p)).1 (p, refl, k.0, k.1) in not_same _ _ bad ok
unchecked_illegal (p ∷ q ∷ ps) bad k = k

module _ {D : Double} (R : Regex) (B : Backend D) (P : Provider B.World) (call : Call)
    (path : Str) where
  abbrev pub with_paths : Origin → Origin
  with_paths o = record o { service_paths = paths_or_default o.service_paths }

  -- From the responses of mongoUpdateContext on. `path` is the service path that is sent on.
  unfoldable pub after_update : Origin → ℕ → UpdateResponse B → Reply × B.World
  unfolding remove_garbage
  after_update o elements u = elim u.error_code [
    | some s ↦
        if not (s.code == scc_ok) && not (s.code == scc_none)
        then (failed not_found_status, u.world)
        else elim (remove_garbage elements u.responses) [
          | none ↦ (broken, u.world)
          | some rs ↦ forward_loop P o.tenant path call.token call.action rs u.world
        ]
    | none ↦ elim (remove_garbage elements u.responses) [
      | none ↦ (broken, u.world)
      | some rs ↦ forward_loop P o.tenant path call.token call.action rs u.world
    ]
  ]

  unfoldable pub post_update_context : Origin → List ContextElement → B.World → Reply × B.World
  unfolding paths_or_default first_of service_path_check after_update mongo_update_context
  post_update_context o ces w =
      let checked = service_path_check (first_of (paths_or_default o.service_paths)) in
      if ltb 1 (length o.service_paths)
      then (failed too_many_paths, w)
      else if not (checked == codes "OK")
      then (failed (record { code = scc_bad_request; details = checked }), w)
      else after_update o (length ces) (mongo_update_context R B (with_paths o) call ces w)

  -- The result is that of the loop, run on what is left of the responses of mongoUpdateContext and in the
  -- world that this left.
  abbrev pub IsForwarded : Origin → List ContextElement → B.World → Reply × B.World → Type 0
  IsForwarded o ces w result =
      let u = mongo_update_context R B (with_paths o) call ces w in
      (rs : List ElementResponse) × (remove_garbage (length ces) u.responses ≡ some rs)
      × (result ≡ forward_loop P o.tenant path call.token call.action rs u.world)

  -- The result is an error with code 400, in the world as it was.
  abbrev pub IsRefusedAtOnce : B.World → Reply × B.World → Type 0
  IsRefusedAtOnce w result =
      (s : StatusCode) × (s.code ≡ scc_bad_request) × (result ≡ (failed s, w))

  garbage-defined :
      (n : ℕ) (rs : List ElementResponse)
      → n ≤ length rs
      → (left : List ElementResponse) × (remove_garbage n rs ≡ some left)
  unfolding remove_garbage
  garbage-defined zero [] h = ([], refl)
  garbage-defined (suc n) [] h = absurd (omega arith)
  garbage-defined n (r ∷ rs) h = elim (Bool-cases (length (r ∷ rs) == n)) [
    | inl y ↦ (r ∷ rs, rw y refl)
    | inr m ↦ (garbage_loop (r ∷ rs), rw m refl)
  ]

  one_path :
      (paths : List Str)
      → ltb 1 (length paths) ≡ false
      → ltb 1 (length (paths_or_default paths)) ≡ false
  unfolding paths_or_default
  one_path [] h = refl
  one_path (p ∷ ps) h = h

  after_update-none :
      (o : Origin) (n : ℕ) (u : UpdateResponse B) {rs : List ElementResponse}
      → u.error_code ≡ none
      → remove_garbage n u.responses ≡ some rs
      → after_update o n u ≡ forward_loop P o.tenant path call.token call.action rs u.world
  unfolding after_update
  after_update-none o n u e g = rw (after_update, e, g) refl

  module _ (o : Origin) (ces : List ContextElement) (w : B.World) where
    update-no_error :
        ltb 1 (length o.service_paths) ≡ false
        → (mongo_update_context R B (with_paths o) call ces w).error_code ≡ none
    unfolding mongo_update_context
    update-no_error h = rw (one_path o.service_paths h) refl

    updated-IsForwarded :
        ltb 1 (length o.service_paths) ≡ false
        → IsForwarded o ces w
            (after_update o (length ces) (mongo_update_context R B (with_paths o) call ces w))
    updated-IsForwarded h =
        let u = mongo_update_context R B (with_paths o) call ces w in
        elim (mongo_update_context-answers R B (with_paths o) call ces w) [
          | inl (one, e, le) ↦
              let (rs, g) = garbage-defined (length ces) u.responses le in
              (rs, g, after_update-none o (length ces) u e g)
          | inr (many, s, e, c, empty, k) ↦ absurd (ground (arith, update-no_error h))
        ]

    -- A request without service path, or with one that is not empty and has no bytes but letters, digits, underscores
    -- and slashes, is forwarded: its result is that of the forwarding loop on what is left of the responses of
    -- mongoUpdateContext, in the world that this left, and the loop over the garbage never starts on a
    -- vector without responses. Any other request is refused with code 400, with the world as it was.
    pub post_update_context_lem :
        (ArePathsLegal o.service_paths × IsForwarded o ces w (post_update_context o ces w))
        ⊎ ((ArePathsLegal o.service_paths → ⊥) × IsRefusedAtOnce w (post_update_context o ces w))
    unfolding post_update_context
    post_update_context_lem = elim (Bool-cases (ltb 1 (length o.service_paths))) [
      | inl y ↦ inr (many_illegal o.service_paths y, (too_many_paths, refl, rw y refl))
      | inr n ↦
          elim (Bool-cases
            (service_path_check (first_of (paths_or_default o.service_paths)) == codes "OK")) [
              | inl ok ↦
                  inl (checked-legal o.service_paths n ok, rw n (rw ok (updated-IsForwarded n)))
              | inr bad ↦ inr (
                unchecked_illegal o.service_paths bad,
                (
                  record {
                    code = scc_bad_request;
                    details = service_path_check (first_of (paths_or_default o.service_paths));
                  },
                  refl,
                  rw n (rw bad refl),
                ),
              )
            ]
    ]
