-- ===== src/Subscribe/Refinement.antt =====
-- Any sequence of requests to subscriptions, as mongoSubscribeContext, mongoUpdateContextSubscription and
-- mongoUnsubscribeContext of src/lib/mongoBackend serve them, against the contract.
use fiware_orion.Base.{
  ℕ, Str, ◌≡◌, refl, sym, subst, ◌∙◌, Option, none, some, List, [], ◌∷◌, All, inl, inr,
}
use fiware_orion.Update.Subscriptions.{Format}
use fiware_orion.Subscribe.{Subscription, Found, bad_id, absent, failed, present, Store, Caller}
use fiware_orion.Subscribe.Operations.{
  SubscribeRequest, ChangeRequest, SubscribeReply, mongo_subscribe_context,
  mongo_update_context_subscription, removed, mongo_unsubscribe_context,
}
use fiware_orion.Subscribe.Contract.{
  SubMap, put, StoreLaws, Event, subscribed, changed, unsubscribed, Allowed, gone, not_gone,
}
use fiware_orion.Subscribe.Made.{IsAllowed, subscribe-IsAllowed}
use fiware_orion.Subscribe.Altered.{update-IsAllowed}
use fiware_orion.Subscribe.Defined.{
  IsDefined, IsReadableSubscribe, IsReadableChange, subscribe-IsDefined, update-IsDefined,
}

-- A request, with the format of the input where that counts.
pub data Request : Type 0 where
  subscribe : SubscribeRequest → Request
  alter : Format → ChangeRequest → Request
  unsubscribe : Str → Request

abbrev pub request_of : Event → Request
request_of (subscribed r reply) = subscribe r
request_of (changed f r reply) = alter f r
request_of (unsubscribed id status) = unsubscribe id

-- The sequences of events that the contract allows for requests, each at its time, from one map to another.
pub data Chain (tenant : Str) (paths : List Str)
    : SubMap → List (ℕ × Request) → List Event → SubMap → Type 0 where
  stop : {m : SubMap} → Chain tenant paths m [] [] m
  next :
      {m n k : SubMap} (now : ℕ) (r : Request) (rs : List (ℕ × Request)) (e : Event)
      (es : List Event)
      → request_of e ≡ r
      → Allowed tenant paths now m e n
      → Chain tenant paths n rs es k
      → Chain tenant paths m ((now, r) ∷ rs) (e ∷ es) k

abbrev pub IsReadableRequest : ℕ → Request → Type 0
IsReadableRequest now (subscribe r) = IsReadableSubscribe now r
IsReadableRequest now (alter f r) = IsReadableChange now r
IsReadableRequest now (unsubscribe id) = Unit

module _ (decimal : ℕ → Str) (S : Store) (c : Caller) where
  unfoldable pub answer_with :
      (SubscribeReply → Event) → Option (SubscribeReply × S.World) → Option (Event × S.World)
  answer_with event none = none
  answer_with event (some (reply, w)) = some (event reply, w)

  unfoldable pub perform : Request → S.World → Option (Event × S.World)
  unfolding answer_with
  perform (subscribe r) w = answer_with (subscribed r) (mongo_subscribe_context decimal S c r w)
  perform (alter f r) w =
      answer_with (changed f r) (mongo_update_context_subscription decimal S c f r w)
  perform (unsubscribe id) w =
      let (s, w1) = mongo_unsubscribe_context decimal S c id w in some (unsubscribed id s, w1)

-- A tenant's requests, each at its time, with a token and the service paths of the caller.
module _ (decimal : ℕ → Str) (S : Store) (c : Caller) where
  unfoldable pub perform_all : List (ℕ × Request) → S.World → Option (List Event × S.World)
  unfolding perform
  perform_all [] w = some ([], w)
  perform_all ((now, r) ∷ rs) w = elim (perform decimal S (record c { now = now }) r w) [
    | none ↦ none
    | some (e, w1) ↦ elim (perform_all rs w1) [ none ↦ none | some (es, w2) ↦ some (e ∷ es, w2) ]
  ]

module _ (decimal : ℕ → Str) (S : Store) (L : StoreLaws S) (c : Caller) where
  removed-Allowed :
      (id : Str) (m : SubMap) (old : Subscription) (o : Option Str) (w' : S.World)
      → m c.tenant id ≡ some old
      → (o ≡ none → L.view w' ≡ put m c.tenant id none)
      → ((e : Str) → o ≡ some e → L.view w' ≡ m)
      → Allowed c.tenant c.service_paths c.now m
          (unsubscribed id (removed decimal S c id (o, w')).0)
          (L.view (removed decimal S c id (o, w')).1)
  unfolding removed
  removed-Allowed id m old none w' there on_done on_failed =
      subst (Allowed c.tenant c.service_paths c.now m (unsubscribed id _))
        (sym (L.stop_view id w' ∙ on_done refl)) (gone id _ old there refl)
  removed-Allowed id m old (some e) w' there on_done on_failed =
      subst (Allowed c.tenant c.service_paths c.now m (unsubscribed id _)) (sym (on_failed e refl))
        (not_gone id _ (inr refl))

  found-Allowed :
      (id : Str) (w : S.World) (o : Found)
      → S.find_one w c.tenant id ≡ o
      → Allowed c.tenant c.service_paths c.now
          (L.view w)
          (unsubscribed id (mongo_unsubscribe_context decimal S c id w).0)
          (L.view (mongo_unsubscribe_context decimal S c id w).1)
  unfolding mongo_unsubscribe_context
  found-Allowed id w bad_id e =
      rw (mongo_unsubscribe_context, e) (not_gone id _ (inl (refl, L.find_bad w c.tenant id e)))
  found-Allowed id w absent e =
      rw (mongo_unsubscribe_context, e) (not_gone id _ (inl (refl, L.find_absent w c.tenant id e)))
  found-Allowed id w (failed text) e = rw (mongo_unsubscribe_context, e) (not_gone id _ (inr refl))
  found-Allowed id w (present old) e =
      rw (mongo_unsubscribe_context, e)
        (removed-Allowed id (L.view w) old _ _ (L.find_present w c.tenant id old e)
          (λ h. L.remove_done c.tenant id w h) (λ text h. L.remove_failed c.tenant id w text h))

  -- One step of a run: the event and the world that it leaves
  abbrev IsStep : Request → S.World → Option (Event × S.World) → Type 0
  IsStep r w none = ⊥
  IsStep r w (some (e, w')) =
      (request_of e ≡ r) × Allowed c.tenant c.service_paths c.now (L.view w) e (L.view w')

  answer-IsStep :
      (r : Request) (w : S.World) (event : SubscribeReply → Event)
      (same : (reply : SubscribeReply) → request_of (event reply) ≡ r)
      (o : Option (SubscribeReply × S.World))
      → IsDefined o
      → IsAllowed decimal S L c (L.view w) event o
      → IsStep r w (answer_with decimal S c event o)
  unfolding answer_with
  answer-IsStep r w event same none d h = absurd d
  answer-IsStep r w event same (some (reply, w')) d h = (same reply, h)

  perform-IsStep :
      (r : Request) (w : S.World) → IsReadableRequest c.now r → IsStep r w (perform decimal S c r w)
  unfolding perform
  perform-IsStep (subscribe r) w h =
      answer-IsStep (subscribe r) w (subscribed r) (λ reply. refl) _
        (subscribe-IsDefined decimal S c r w h) (subscribe-IsAllowed decimal S L c r w)
  perform-IsStep (alter f r) w h =
      answer-IsStep (alter f r) w (changed f r) (λ reply. refl) _
        (update-IsDefined decimal S c f r w h) (update-IsAllowed decimal S L c f r w)
  perform-IsStep (unsubscribe id) w h = (refl, found-Allowed id w (S.find_one w c.tenant id) refl)

module _ (decimal : ℕ → Str) (S : Store) (L : StoreLaws S) (c : Caller) where
  abbrev pub IsRun : List (ℕ × Request) → S.World → Option (List Event × S.World) → Type 0
  IsRun rs w none = ⊥
  IsRun rs w (some (es, w')) = Chain c.tenant c.service_paths (L.view w) rs es (L.view w')

  abbrev continued : Event → Option (List Event × S.World) → Option (List Event × S.World)
  continued e none = none
  continued e (some (es, w')) = some (e ∷ es, w')

  continued-IsRun :
      (now : ℕ) (r : Request) (rs : List (ℕ × Request)) (w w1 : S.World) (e : Event)
      (o : Option (List Event × S.World))
      → request_of e ≡ r
      → Allowed c.tenant c.service_paths now (L.view w) e (L.view w1)
      → IsRun rs w1 o
      → IsRun ((now, r) ∷ rs) w (continued e o)
  continued-IsRun now r rs w w1 e none same a h = absurd h
  continued-IsRun now r rs w w1 e (some (es, w')) same a h = next now r rs e es same a h

  after_step-IsRun :
      (now : ℕ) (r : Request) (rs : List (ℕ × Request)) (w : S.World) (o : Option (Event × S.World))
      → IsStep decimal S L (record c { now = now }) r w o
      → ((w1 : S.World) → IsRun rs w1 (perform_all decimal S c rs w1))
      → IsRun ((now, r) ∷ rs) w (elim o [
        | none ↦ none
        | some (e, w1) ↦ elim (perform_all decimal S c rs w1) [
          | none ↦ none
          | some (es, w2) ↦ some (e ∷ es, w2)
        ]
      ])
  after_step-IsRun now r rs w none a h = absurd a
  after_step-IsRun now r rs w (some (e, w1)) a h =
      continued-IsRun now r rs w w1 e (perform_all decimal S c rs w1) a.0 a.1 (h w1)

  -- Any sequence of requests to create, change and remove subscriptions of a tenant, each at a time of its own, of which all durations can be read, gets a
  -- result, and this refines the contract: the events, which are these requests in their order with their
  -- replies, are a chain of allowed steps from the map of subscriptions that the store holds before to the
  -- one that it holds after. So an accepted subscription gets an identifier that was not in use, and all its fields are
  -- pinned: entities, attributes, reference, format and service path of the request; the end that its duration gives at the
  -- time, with 24 hours for none and the second before the time for one that parse8601 rejects; the throttling, if any, with -1 for one that it rejects; the conditions in their order, without those of an unknown type; and either no
  -- notification or one at the time. An accepted change is of a subscription that is there and pins
  -- all fields too: entities, attributes and reference are kept, the service path is lost, the format is that
  -- of the caller, the end, the throttling and the conditions are kept where the request has none and are those of
  -- the request otherwise, a throttling of zero takes it out, and either the count is kept and so is the last notification, read as
  -- an int, or the count goes up by one and the last notification is set to the time. The replies repeat duration and throttling. A removal with code 200 takes out the
  -- subscription that was there. Any other reply leaves the map as it was, and has the code 404 where
  -- the identifier is not in use, or 500. The store must satisfy the laws of StoreLaws.
  pub perform_all-IsRun :
      (rs : List (ℕ × Request)) (w : S.World)
      → All (λ t. IsReadableRequest t.0 t.1) rs
      → IsRun rs w (perform_all decimal S c rs w)
  unfolding perform_all
  perform_all-IsRun [] w h = stop
  perform_all-IsRun ((now, r) ∷ rs) w h =
      after_step-IsRun now r rs w (perform decimal S (record c { now = now }) r w)
        (perform-IsStep decimal S L (record c { now = now }) r w h.0)
        (λ w1. perform_all-IsRun rs w1 h.1)
