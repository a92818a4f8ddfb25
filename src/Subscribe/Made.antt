-- ===== src/Subscribe/Made.antt =====
-- mongoSubscribeContext of src/lib/mongoBackend does what the contract of the subscriptions allows.
use fiware_orion.Base.{
  ℕ, Str, ◌≡◌, refl, sym, ap, subst, ◌∙◌, ◌==◌, str_eq, Option, none, some, if◌then◌else◌, codes,
  Bool-cases, inl, inr,
}
use fiware_orion.Base.Int.{ℤ}
use fiware_orion.Update.Subscriptions.{xml, json}
use fiware_orion.Subscribe.{Subscription, Store, Caller}
use fiware_orion.Subscribe.Conditions.{Target, Processed, process_condition_vector}
use fiware_orion.Subscribe.Operations.{
  SubscribeRequest, SubscribeReply, accepted, refused, new_subscription, insert_subscription,
  mongo_subscribe_context, duration_or_default, expires, throttling_field,
}
use fiware_orion.Subscribe.Wanted.{
  OfSome, EndsAt, Throttles, AreConditions, expires-EndsAt, throttling_field-Throttles,
  duration_or_default-eq,
}
use fiware_orion.Subscribe.Wanted.Conditions.{conditions-AreConditions}
use fiware_orion.Subscribe.Kept.{IsKept, conditions-IsKept}
use fiware_orion.Subscribe.Contract.{
  SubMap, put, StoreLaws, Event, subscribed, IsSubscription, Allowed, made, not_made,
}

module _ (decimal : ℕ → Str) (S : Store) (L : StoreLaws S) (c : Caller) where
  abbrev pub IsAllowed :
      SubMap → (SubscribeReply → Event) → Option (SubscribeReply × S.World) → Type 0
  IsAllowed m event none = Unit
  IsAllowed m event (some (reply, w')) =
      Allowed c.tenant c.service_paths c.now m (event reply) (L.view w')

  new-IsSubscription :
      (r : SubscribeRequest) (e : ℤ) (th : Option ℤ) (p : Processed S.World)
      → EndsAt c.now (duration_or_default r.duration) e
      → Throttles r.throttling th
      → AreConditions r.conditions p.conditions
      → IsSubscription c.now r c.service_paths (new_subscription decimal S c r e th p)
  unfolding new_subscription
  new-IsSubscription r e th p ends throttles conditions = record {
    entities = refl;
    attributes = refl;
    reference = refl;
    service_path = refl;
    expiration = subst (λ d. EndsAt c.now d e) (duration_or_default-eq r.duration) ends;
    throttling = throttles;
    conditions = conditions;
    notified = elim (Bool-cases p.notified) [
      | inl y ↦ rw y (inr (refl, refl))
      | inr n ↦ rw n (inl (refl, refl))
    ];
    format = refl;
  }

  inserted-IsAllowed :
      (r : SubscribeRequest) (id : Str) (m : SubMap) (s : Subscription) (o : Option Str)
      (w' : S.World)
      → m c.tenant id ≡ none
      → IsSubscription c.now r c.service_paths s
      → (o ≡ none → L.view w' ≡ put m c.tenant id (some s))
      → ((e : Str) → o ≡ some e → L.view w' ≡ m)
      → IsAllowed m (subscribed r) (
          some (elim o [
            | some text ↦ (refused (record { code = 500; details = text }), w')
            | none ↦ (accepted id (duration_or_default r.duration) r.throttling, w')
          ]))
  inserted-IsAllowed r id m s none w' fresh is on_done on_failed =
      subst
        (λ d.
          Allowed c.tenant c.service_paths c.now m (subscribed r (accepted id d r.throttling))
            (L.view w'))
        (sym (duration_or_default-eq r.duration))
        (subst (Allowed c.tenant c.service_paths c.now m (subscribed r (accepted id _ _)))
          (sym (on_done refl)) (made r id s fresh is))
  inserted-IsAllowed r id m s (some e) w' fresh is on_done on_failed =
      subst (Allowed c.tenant c.service_paths c.now m (subscribed r (refused _)))
        (sym (on_failed e refl)) (not_made r _ refl)

  insert-IsAllowed :
      (r : SubscribeRequest) (id : Str) (e : ℤ) (th : Option ℤ) (m : SubMap) (p : Processed S.World)
      → m c.tenant id ≡ none
      → EndsAt c.now (duration_or_default r.duration) e
      → Throttles r.throttling th
      → AreConditions r.conditions p.conditions
      → L.view p.world ≡ m
      → IsAllowed m (subscribed r) (some (insert_subscription decimal S c r id e th p))
  unfolding insert_subscription
  insert-IsAllowed r id e th m p fresh ends throttles conditions same =
      let s = new_subscription decimal S c r e th p in
      let (problem, w') = S.insert c.tenant id s p.world in
      inserted-IsAllowed r id m s problem w' fresh
        (new-IsSubscription r e th p ends throttles conditions)
        (λ h. L.insert_done c.tenant id s p.world h ∙ ap (λ n. put n c.tenant id (some s)) same)
        (λ text h. L.insert_failed c.tenant id s p.world text h ∙ same)

  subscribe_result :
      SubscribeRequest
      → Str
      → Option ℤ
      → Option (Option ℤ)
      → Option (Processed S.World)
      → Option (SubscribeReply × S.World)
  subscribe_result r id o o' q = elim o [
    | none ↦ none
    | some e ↦ elim o' [
      | none ↦ none
      | some th ↦ elim q [
        | none ↦ none
        | some p ↦ some (insert_subscription decimal S c r id e th p)
      ]
    ]
  ]

  subscribe_result-IsAllowed :
      (r : SubscribeRequest) (id : Str) (w1 : S.World) (m : SubMap)
      → L.view w1 ≡ m
      → m c.tenant id ≡ none
      → (o : Option ℤ) (o' : Option (Option ℤ)) (q : Option (Processed S.World))
      → OfSome (EndsAt c.now (duration_or_default r.duration)) o
      → OfSome (Throttles r.throttling) o'
      → OfSome (λ p. AreConditions r.conditions p.conditions) q
      → IsKept decimal S L c w1 q
      → IsAllowed m (subscribed r) (subscribe_result r id o o' q)
  unfolding subscribe_result
  subscribe_result-IsAllowed r id w1 m same fresh none o' q h h' g k = tt
  subscribe_result-IsAllowed r id w1 m same fresh (some e) none q h h' g k = tt
  subscribe_result-IsAllowed r id w1 m same fresh (some e) (some th) none h h' g k = tt
  subscribe_result-IsAllowed r id w1 m same fresh (some e) (some th) (some p) h h' g k =
      insert-IsAllowed r id e th m p fresh h h' g (k ∙ same)

  pub subscribe-IsAllowed :
      (r : SubscribeRequest) (w : S.World)
      → IsAllowed (L.view w) (subscribed r) (mongo_subscribe_context decimal S c r w)
  unfolding mongo_subscribe_context subscribe_result
  subscribe-IsAllowed r w =
      let (id, w1) = S.new_id w in
      let t : Target = record {
        id = id;
        entities = r.entities;
        attributes = r.attributes;
        url = r.reference;
        format = if r.notify_format == codes "XML" then xml else json;
      } in
      subscribe_result-IsAllowed r id w1 (L.view w) (L.new_id_view w) (L.new_id_fresh w c.tenant)
        (expires c.now (duration_or_default r.duration)) (throttling_field r.throttling)
        (process_condition_vector decimal S c t r.conditions w1)
        (expires-EndsAt c.now (duration_or_default r.duration))
        (throttling_field-Throttles r.throttling)
        (conditions-AreConditions decimal S c t r.conditions w1)
        (conditions-IsKept decimal S L c t r.conditions w1)
