-- ===== src/Register/Laws.antt =====
-- What mongoRegisterContext of src/lib/mongoBackend does to the registrations.
use fiware_orion.Base.{
  ℕ, ◌+◌, ◌^◌, ◌≤◌, Str, ◌≡◌, refl, ap, ◌∙◌, ◌≢◌, ◌⊎◌, inl, inr, ◌==◌, str_eq, Bool-cases, Option,
  none, some, [], map, arith,
}
use fiware_orion.Base.Int.{ℤ}
use fiware_orion.Strings.Duration.{undefined, seconds, parse8601}
use fiware_orion.Subscribe.Wanted.{expires-none}
use fiware_orion.Update.{scc_ok}
use fiware_orion.Update.Subscriptions.{DbResult, ok, failed, SubMap}
use fiware_orion.Registry.{Regex}
use fiware_orion.Subscribe.Operations.{duration_or_default, expires}
use fiware_orion.Register.Store.{RegistrationDoc, Store, Lookup, bad_id, absent, present, db_error}
use fiware_orion.Register.Operations.{
  RegisterRequest, RegisterReply, stored_registration, process_registrations, notify_subscriptions,
  registration_doc, upsert_registration, chosen_id, after_registrations, process_register_context,
  path_or_root, update_registration, mongo_register_context, all_entities,
}
use fiware_orion.Register.Kept.{notifications_view, registrations_view}
use fiware_orion.Register.Contract.{put, StoreLaws}

module _ (R : Regex) (S : Store) (L : StoreLaws S) (tenant : Str) (now : ℕ) where
  -- A reply with code 200: the document of the request, with all of its registrations in their order and the
  -- service path, is stored under the identifier of the reply, and no other document changes.
  abbrev pub IsStored : RegisterRequest → Str → S.World → RegisterReply × S.World → Type 0
  IsStored r path w (reply, w') =
      (reply.status.code ≡ scc_ok)
      × (d : RegistrationDoc) × (L.view w' ≡ put (L.view w) tenant reply.registration_id d)
      × (d.service_path ≡ path)
      × (d.registrations ≡ map stored_registration r.registrations)

  -- A reply with another code: no document changes.
  abbrev pub IsRefused : S.World → RegisterReply × S.World → Type 0
  IsRefused w (reply, w') = (reply.status.code ≢ scc_ok) × (L.view w' ≡ L.view w)

  abbrev pub IsRegistered : RegisterRequest → Str → S.World → RegisterReply × S.World → Type 0
  IsRegistered r path w result = IsStored r path w result ⊎ IsRefused w result

  upserted : RegisterRequest → Str → SubMap → Option Str → S.World → RegisterReply × S.World
  upserted r id subs o w = elim o [
    | some text ↦ (
      record {
        status = record { code = 500; details = text };
        duration = [];
        registration_id = [];
      },
      w,
    )
    | none ↦ (
      record {
        status = record { code = scc_ok; details = [] };
        duration = duration_or_default r.duration;
        registration_id = id;
      },
      notify_subscriptions R S tenant now (all_entities R S tenant now r.registrations) subs w,
    )
  ]

  upserted-IsRegistered :
      (r : RegisterRequest) (path id : Str) (subs : SubMap) (d : RegistrationDoc) (o : Option Str)
      (w w' : S.World)
      → d.service_path ≡ path
      → d.registrations ≡ map stored_registration r.registrations
      → (o ≡ none → L.view w' ≡ put (L.view w) tenant id d)
      → ((e : Str) → o ≡ some e → L.view w' ≡ L.view w)
      → IsRegistered r path w (upserted r id subs o w')
  unfolding upserted
  upserted-IsRegistered r path id subs d none w w' p rs on_done on_failed =
      inl (refl, d, notifications_view R S L tenant now _ subs w' ∙ on_done refl, p, rs)
  upserted-IsRegistered r path id subs d (some e) w w' p rs on_done on_failed =
      inr ((λ h. absurd (omega arith)), on_failed e refl)

  upsert-IsRegistered :
      (r : RegisterRequest) (path id : Str) (e : ℤ) (subs : SubMap) (w w2 : S.World)
      → L.view w2 ≡ L.view w
      → IsRegistered r path w (upsert_registration R S tenant now r path id e subs w2)
  unfolding upsert_registration upserted registration_doc
  upsert-IsRegistered r path id e subs w w2 same =
      let d = registration_doc R S tenant now r e path in
      upserted-IsRegistered r path id subs d (S.upsert tenant id d w2).0 w
        (S.upsert tenant id d w2).1 refl refl
        (λ h. L.upsert_done tenant id d w2 h ∙ ap (λ m. put m tenant id d) same)
        (λ text h. L.upsert_failed tenant id d w2 text h ∙ same)

  after-IsRegistered :
      (r : RegisterRequest) (path id : Str) (e : ℤ) (d : DbResult SubMap) (w w2 : S.World)
      → L.view w2 ≡ L.view w
      → IsRegistered r path w (after_registrations R S tenant now r path id e (d, w2))
  unfolding after_registrations
  after-IsRegistered r path id e (failed text) w w2 same = inr ((λ h. absurd (omega arith)), same)
  after-IsRegistered r path id e (ok subs) w w2 same =
      upsert-IsRegistered r path id e subs w w2 same

  chosen_view :
      (known : Option Str) (w : S.World) → L.view (chosen_id R S tenant now known w).1 ≡ L.view w
  unfolding chosen_id
  chosen_view none w = L.new_id_view w
  chosen_view (some id) w = refl

  -- The arithmetic of parse8601 overflows on the text, or the seconds that it reads, added to the time, are more than
  -- a long long holds.
  abbrev pub IsUnreadable : Str → Type 0
  IsUnreadable text =
      (parse8601 text ≡ undefined) ⊎ ((n : ℕ) × (parse8601 text ≡ seconds n) × (2 ^ 63 ≤ now + n))

  abbrev pub IsResult : RegisterRequest → Str → S.World → Option (RegisterReply × S.World) → Type 0
  IsResult r path w none = IsUnreadable (duration_or_default r.duration)
  IsResult r path w (some result) = IsRegistered r path w result

  processed :
      RegisterRequest → Option Str → Str → S.World → Option ℤ → Option (RegisterReply × S.World)
  processed r known path w o = elim o [
    | none ↦ none
    | some e ↦
        let (id, w1) = chosen_id R S tenant now known w in
        some (
          after_registrations R S tenant now r path id e
            (process_registrations R S tenant now r.registrations [] w1))
  ]

  processed-IsResult :
      (r : RegisterRequest) (known : Option Str) (path : Str) (w : S.World) (o : Option ℤ)
      → expires now (duration_or_default r.duration) ≡ o
      → IsResult r path w (processed r known path w o)
  unfolding processed
  processed-IsResult r known path w none e = expires-none now (duration_or_default r.duration) e
  processed-IsResult r known path w (some x) e =
      let (id, w1) = chosen_id R S tenant now known w in
      let (d, w2) = process_registrations R S tenant now r.registrations [] w1 in
      after-IsRegistered r path id x d w w2
        (registrations_view R S L tenant now r.registrations [] w1 ∙ chosen_view known w)

  process-IsResult :
      (r : RegisterRequest) (known : Option Str) (path : Str) (w : S.World)
      → IsResult r path w (process_register_context R S tenant now r known path w)
  unfolding process_register_context processed
  process-IsResult r known path w =
      processed-IsResult r known path w (expires now (duration_or_default r.duration)) refl

  lookup-IsResult :
      (r : RegisterRequest) (path : Str) (w : S.World) (l : Lookup)
      → S.find_one w tenant r.registration_id path ≡ l
      → IsResult r path w (update_registration R S tenant now r path w)
  unfolding update_registration
  lookup-IsResult r path w bad_id e =
      rw (update_registration, e) (inr ((λ h. absurd (omega arith)), refl))
  lookup-IsResult r path w absent e =
      rw (update_registration, e) (inr ((λ h. absurd (omega arith)), refl))
  lookup-IsResult r path w (db_error text) e =
      rw (update_registration, e) (inr ((λ h. absurd (omega arith)), refl))
  lookup-IsResult r path w present e =
      rw (update_registration, e) (process-IsResult r (some r.registration_id) path w)

  -- A registerContext request, for a new registration or for one that is there, whatever the associations, the
  -- subscriptions and the notifications come to: its reply has the code 200, and then the document that is stored under the identifier of the reply has all of the
  -- context registrations of the request in their order and the service path, "/" if the request has none, and no other
  -- document changes; or it has another code, and no document changes. There is no result only
  -- where parse8601 overflows on the duration, PT24H if the request has none, or the seconds that it reads give, added to the
  -- time, 2 ^ 63 or more. The store must satisfy the laws of StoreLaws.
  pub mongo_register_context-IsResult :
      (r : RegisterRequest) (service_path : Str) (w : S.World)
      → IsResult r
          (path_or_root R S tenant now service_path)
          w
          (mongo_register_context R S tenant now r service_path w)
  unfolding mongo_register_context
  mongo_register_context-IsResult r service_path w = elim (Bool-cases (r.registration_id == [])) [
    | inl y ↦ rw y (process-IsResult r none _ w)
    | inr n ↦ rw n (lookup-IsResult r _ w (S.find_one w tenant r.registration_id _) refl)
  ]
