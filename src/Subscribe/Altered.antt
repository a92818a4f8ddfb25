-- ===== src/Subscribe/Altered.antt =====
-- mongoUpdateContextSubscription of src/lib/mongoBackend does what the contract of the subscriptions
-- allows.
use fiware_orion.Base.{
  ℕ, ◌+◌, Str, true, false, [], ◌∷◌, ◌≡◌, refl, sym, ap, subst, ◌∙◌, str_eq, Bool, Bool-cases, inl,
  inr, Option, none, some, List,
}
use fiware_orion.Base.Int.{ℤ}
use fiware_orion.Update.Subscriptions.{Format}
use fiware_orion.Registry.{is_nil}
use fiware_orion.Subscribe.{
  NotifyCondition, Condition, Subscription, Found, to_int, bad_id, absent, failed, present, Store,
  Caller,
}
use fiware_orion.Subscribe.Conditions.{Processed}
use fiware_orion.Subscribe.Operations.{
  ChangeRequest, SubscribeReply, accepted, refused, changed_subscription, changed_conditions,
  write_changed, change_present, mongo_update_context_subscription, changed_expiration,
  changed_throttling,
}
use fiware_orion.Subscribe.Kept.{IsKept, conditions-IsKept}
use fiware_orion.Subscribe.Made.{IsAllowed}
use fiware_orion.Subscribe.Contract.{
  SubMap, put, StoreLaws, changed, IsChange, IsNext, as_int, count_of, Allowed, altered,
  not_altered,
}
use fiware_orion.Subscribe.Wanted.{
  OfSome, MovesTo, RethrottlesTo, Reconditions, changed_expiration-MovesTo,
  changed_throttling-RethrottlesTo,
}
use fiware_orion.Subscribe.Wanted.Conditions.{conditions-AreConditions}

module _ (decimal : ℕ → Str) (S : Store) (L : StoreLaws S) (c : Caller) where
  last-as_int :
      (o : Option ℤ)
      → (elim o as (λ x. Option ℤ) [ none ↦ none | some n ↦ some (to_int n) ]) ≡ as_int o
  last-as_int none = refl
  last-as_int (some n) = refl

  count-count_of : (o : Option ℕ) → (elim o as (λ x. ℕ) [ none ↦ 0 | some n ↦ n ]) ≡ count_of o
  count-count_of none = refl
  count-count_of (some n) = refl

  changed-IsNext :
      (f : Format) (old : Subscription) (e : ℤ) (th : Option ℤ) (cs : List Condition) (b : Bool)
      → IsNext c.now old (changed_subscription decimal S c f old e th cs b)
  unfolding changed_subscription
  changed-IsNext f old e th cs true = inr (refl, ap (λ n. some (n + 1)) (count-count_of old.count))
  changed-IsNext f old e th cs false = inl (last-as_int old.last_notification, refl)

  changed_subscription-IsChange :
      (f : Format) (r : ChangeRequest) (old : Subscription) (e : ℤ) (th : Option ℤ)
      (cs : List Condition) (b : Bool)
      → MovesTo c.now r.duration old.expiration e
      → RethrottlesTo r.throttling old.throttling th
      → Reconditions r.conditions old.conditions cs
      → IsChange c.now f r old (changed_subscription decimal S c f old e th cs b)
  unfolding changed_subscription
  changed_subscription-IsChange f r old e th cs b moves throttles conditions = record {
    entities = refl;
    attributes = refl;
    reference = refl;
    service_path = refl;
    expiration = moves;
    throttling = throttles;
    conditions = conditions;
    notified = changed-IsNext f old e th cs b;
    format = refl;
  }

  written-IsAllowed :
      (f : Format) (r : ChangeRequest) (m : SubMap) (old s : Subscription) (o : Option Str)
      (w' : S.World)
      → m c.tenant r.subscription_id ≡ some old
      → IsChange c.now f r old s
      → (o ≡ none → L.view w' ≡ put m c.tenant r.subscription_id (some s))
      → ((e : Str) → o ≡ some e → L.view w' ≡ m)
      → IsAllowed decimal S L c m (changed f r) (
          some (elim o [
            | some text ↦ (refused (record { code = 500; details = text }), w')
            | none ↦ (accepted r.subscription_id r.duration r.throttling, w')
          ]))
  written-IsAllowed f r m old s none w' there is on_done on_failed =
      subst
        (Allowed c.tenant c.service_paths c.now m (changed f r (accepted r.subscription_id _ _)))
        (sym (on_done refl)) (altered f r old s there is)
  written-IsAllowed f r m old s (some e) w' there is on_done on_failed =
      subst (Allowed c.tenant c.service_paths c.now m (changed f r (refused _)))
        (sym (on_failed e refl)) (not_altered f r _ (inr refl))

  write-IsAllowed :
      (f : Format) (r : ChangeRequest) (old : Subscription) (e : ℤ) (th : Option ℤ) (m : SubMap)
      (p : Processed S.World)
      → m c.tenant r.subscription_id ≡ some old
      → MovesTo c.now r.duration old.expiration e
      → RethrottlesTo r.throttling old.throttling th
      → Reconditions r.conditions old.conditions p.conditions
      → L.view p.world ≡ m
      → IsAllowed decimal S L c m (changed f r) (some (write_changed decimal S c f r old e th p))
  unfolding write_changed
  write-IsAllowed f r old e th m p there moves throttles conditions same =
      let s = changed_subscription decimal S c f old e th p.conditions p.notified in
      let (problem, w') = S.update c.tenant r.subscription_id s p.world in
      written-IsAllowed f r m old s problem w' there
        (changed_subscription-IsChange f r old e th p.conditions p.notified moves throttles
          conditions)
        (λ h.
          L.update_done c.tenant r.subscription_id old s p.world
            (ap (λ n. n c.tenant r.subscription_id) same ∙ there) h
          ∙ ap (λ n. put n c.tenant r.subscription_id (some s)) same)
        (λ text h. L.update_failed c.tenant r.subscription_id s p.world text h ∙ same)

  stopped-IsKept :
      (w : S.World) (id : Str) (q : Option (Processed S.World))
      → IsKept decimal S L c (S.stop_intervals id w) q
      → IsKept decimal S L c w q
  stopped-IsKept w id none k = tt
  stopped-IsKept w id (some p) k = k ∙ L.stop_view id w

  changed_conditions-IsKept :
      (f : Format) (r : ChangeRequest) (old : Subscription) (w : S.World)
      → IsKept decimal S L c w (changed_conditions decimal S c f r old w)
  unfolding changed_conditions
  changed_conditions-IsKept f r old w = elim (Bool-cases (is_nil r.conditions)) [
    | inl y ↦ rw y refl
    | inr n ↦
        rw n
          (stopped-IsKept w r.subscription_id _ (conditions-IsKept decimal S L c _ r.conditions _))
  ]

  changed_conditions-Reconditions :
      (f : Format) (ncs : List NotifyCondition) (r : ChangeRequest) (old : Subscription)
      (w : S.World)
      → r.conditions ≡ ncs
      → OfSome
          (λ p. Reconditions r.conditions old.conditions p.conditions)
          (changed_conditions decimal S c f r old w)
  unfolding changed_conditions is_nil
  changed_conditions-Reconditions f [] r old w e = rw e refl
  changed_conditions-Reconditions f (nc ∷ ncs) r old w e =
      rw e
        (conditions-AreConditions decimal S c _ (nc ∷ ncs) (S.stop_intervals r.subscription_id w))

  change_result :
      Format
      → ChangeRequest
      → Subscription
      → Option ℤ
      → Option (Option ℤ)
      → Option (Processed S.World)
      → Option (SubscribeReply × S.World)
  change_result f r old o o' q = elim o [
    | none ↦ none
    | some e ↦ elim o' [
      | none ↦ none
      | some th ↦ elim q [ none ↦ none | some p ↦ some (write_changed decimal S c f r old e th p) ]
    ]
  ]

  change_result-IsAllowed :
      (f : Format) (r : ChangeRequest) (old : Subscription) (w : S.World)
      → L.view w c.tenant r.subscription_id ≡ some old
      → (o : Option ℤ) (o' : Option (Option ℤ)) (q : Option (Processed S.World))
      → OfSome (MovesTo c.now r.duration old.expiration) o
      → OfSome (RethrottlesTo r.throttling old.throttling) o'
      → OfSome (λ p. Reconditions r.conditions old.conditions p.conditions) q
      → IsKept decimal S L c w q
      → IsAllowed decimal S L c (L.view w) (changed f r) (change_result f r old o o' q)
  unfolding change_result
  change_result-IsAllowed f r old w there none o' q h h' g k = tt
  change_result-IsAllowed f r old w there (some e) none q h h' g k = tt
  change_result-IsAllowed f r old w there (some e) (some th) none h h' g k = tt
  change_result-IsAllowed f r old w there (some e) (some th) (some p) h h' g k =
      write-IsAllowed f r old e th (L.view w) p there h h' g k

  change_present-IsAllowed :
      (f : Format) (r : ChangeRequest) (old : Subscription) (w : S.World)
      → L.view w c.tenant r.subscription_id ≡ some old
      → IsAllowed decimal S L c (L.view w) (changed f r) (change_present decimal S c f r old w)
  unfolding change_present change_result
  change_present-IsAllowed f r old w there =
      change_result-IsAllowed f r old w there (changed_expiration c.now r.duration old.expiration)
        (changed_throttling r.throttling old.throttling) (changed_conditions decimal S c f r old w)
        (changed_expiration-MovesTo c.now r.duration old.expiration)
        (changed_throttling-RethrottlesTo r.throttling old.throttling)
        (changed_conditions-Reconditions f r.conditions r old w refl)
        (changed_conditions-IsKept f r old w)

  found-IsAllowed :
      (f : Format) (r : ChangeRequest) (w : S.World) (o : Found)
      → S.find_one w c.tenant r.subscription_id ≡ o
      → IsAllowed decimal S L c
          (L.view w)
          (changed f r)
          (mongo_update_context_subscription decimal S c f r w)
  unfolding mongo_update_context_subscription
  found-IsAllowed f r w bad_id e =
      rw (mongo_update_context_subscription, e)
        (not_altered f r _ (inl (refl, L.find_bad w c.tenant r.subscription_id e)))
  found-IsAllowed f r w absent e =
      rw (mongo_update_context_subscription, e)
        (not_altered f r _ (inl (refl, L.find_absent w c.tenant r.subscription_id e)))
  found-IsAllowed f r w (failed text) e =
      rw (mongo_update_context_subscription, e) (not_altered f r _ (inr refl))
  found-IsAllowed f r w (present old) e =
      rw (mongo_update_context_subscription, e)
        (change_present-IsAllowed f r old w (L.find_present w c.tenant r.subscription_id old e))

  pub update-IsAllowed :
      (f : Format) (r : ChangeRequest) (w : S.World)
      → IsAllowed decimal S L c
          (L.view w)
          (changed f r)
          (mongo_update_context_subscription decimal S c f r w)
  update-IsAllowed f r w = found-IsAllowed f r w (S.find_one w c.tenant r.subscription_id) refl
