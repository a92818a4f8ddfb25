-- ===== src/Subscribe/Defined.antt =====
-- The operations on subscriptions of src/lib/mongoBackend give a result where all durations of a request can
-- be read.
use fiware_orion.Base.{
  ℕ, Str, ◌==◌, str_eq, Bool-cases, inl, inr, Option, none, some, List, [], ◌∷◌, if◌then◌else◌,
  str_beq, All, ◌||◌,
}
use fiware_orion.Base.Int.{ℤ, pos}
use fiware_orion.Update.Subscriptions.{Format}
use fiware_orion.Registry.{is_nil}
use fiware_orion.Subscribe.{
  NotifyCondition, interval, change, Subscription, Found, bad_id, absent, failed, present, Store,
  Caller, on_time_interval_condition, on_change_condition, duration_seconds, to_int,
}
use fiware_orion.Subscribe.Conditions.{
  Target, Processed, process_on_change_condition, process_condition_vector,
}
use fiware_orion.Subscribe.Operations.{
  SubscribeRequest, ChangeRequest, SubscribeReply, refused, not_found, mongo_subscribe_context,
  changed_conditions, change_present, mongo_update_context_subscription, duration_or_default,
  expires, throttling_field, changed_expiration, changed_throttling,
}

abbrev pub IsDefined {ℓ} : {A : Type ℓ} → Option A → Type 0
IsDefined none = ⊥
IsDefined (some x) = Unit

abbrev pub HasDuration : List Str → Type 0
HasDuration [] = ⊥
HasDuration (value ∷ values) = IsDefined (duration_seconds value)

-- An interval condition has a value that is a duration, or that at least parse8601 rejects.
abbrev pub IsReadable : NotifyCondition → Type 0
IsReadable nc = if nc.type == on_time_interval_condition then HasDuration nc.values else Unit

abbrev pub IsReadableSubscribe : ℕ → SubscribeRequest → Type 0
IsReadableSubscribe now r =
    IsDefined (expires now (duration_or_default r.duration))
    × IsDefined (throttling_field r.throttling)
    × All IsReadable r.conditions

abbrev pub IsReadableChange : ℕ → ChangeRequest → Type 0
IsReadableChange now r =
    IsDefined (changed_expiration now r.duration (pos 0))
    × IsDefined (changed_throttling r.throttling none)
    × All IsReadable r.conditions

mapped-IsDefined :
    {A B : Type 0} (o : Option A) (f : A → B)
    → IsDefined o
    → IsDefined (elim o [ none ↦ none | some x ↦ some (f x) ])
mapped-IsDefined none f h = absurd h
mapped-IsDefined (some x) f h = tt

module _ (decimal : ℕ → Str) (S : Store) (c : Caller) where
  after_interval-IsDefined :
      (o : Option ℤ) (k : ℤ → Option (Processed S.World))
      → IsDefined o
      → ((n : ℤ) → IsDefined (k n))
      → IsDefined (elim o [
        | none ↦ none
        | some n ↦ elim (k n) [
          | none ↦ none
          | some p ↦ some (record p { conditions = interval n ∷ p.conditions })
        ]
      ])
  after_interval-IsDefined none k h g = absurd h
  after_interval-IsDefined (some n) k h g =
      mapped-IsDefined (k n) (λ p. record p { conditions = interval n ∷ p.conditions }) (g n)

  interval-IsDefined :
      (values : List Str) (k : ℤ → Option (Processed S.World))
      → HasDuration values
      → ((n : ℤ) → IsDefined (k n))
      → IsDefined (elim values [
        | [] ↦ none
        | value ∷ vs ↦ elim (duration_seconds value) [
          | none ↦ none
          | some n ↦ elim (k n) [
            | none ↦ none
            | some p ↦ some (record p { conditions = interval n ∷ p.conditions })
          ]
        ]
      ])
  interval-IsDefined [] k h g = absurd h
  interval-IsDefined (value ∷ vs) k h g = after_interval-IsDefined (duration_seconds value) k h g

  conditions-IsDefined :
      (t : Target) (ncs : List NotifyCondition)
      → All IsReadable ncs
      → (w : S.World) → IsDefined (process_condition_vector decimal S c t ncs w)
  unfolding process_condition_vector
  conditions-IsDefined t [] h w = tt
  conditions-IsDefined t (nc ∷ ncs) h w =
      elim (Bool-cases (nc.type == on_time_interval_condition)) [
        | inl y ↦ rw y (
            interval-IsDefined nc.values
              (λ n.
                process_condition_vector decimal S c t ncs
                  (S.start_interval t.id (to_int n) c.tenant w))
              (rw y at h.0) (λ n. conditions-IsDefined t ncs h.1 _))
        | inr n ↦ rw n (elim (Bool-cases (nc.type == on_change_condition)) [
          | inl y ↦
              let (sent, w1) = process_on_change_condition decimal S c t nc.values w in
              rw y (
                mapped-IsDefined (process_condition_vector decimal S c t ncs w1)
                  (λ p. record p {
                    conditions = change nc.values ∷ p.conditions;
                    notified = sent || p.notified;
                  })
                  (conditions-IsDefined t ncs h.1 w1))
          | inr m ↦ rw m (conditions-IsDefined t ncs h.1 w)
        ])
      ]

  nested-IsDefined :
      {A B D R : Type 0} (o : Option A) (o' : Option B) (q : Option D) (f : A → B → D → R)
      → IsDefined o
      → IsDefined o'
      → IsDefined q
      → IsDefined (elim o [
        | none ↦ none
        | some e ↦ elim o' [
          | none ↦ none
          | some th ↦ elim q [ none ↦ none | some p ↦ some (f e th p) ]
        ]
      ])
  nested-IsDefined none o' q f h h' k = absurd h
  nested-IsDefined (some e) none q f h h' k = absurd h'
  nested-IsDefined (some e) (some th) none f h h' k = absurd k
  nested-IsDefined (some e) (some th) (some p) f h h' k = tt

  -- A subscription of which all durations can be read gives a result.
  pub subscribe-IsDefined :
      (r : SubscribeRequest) (w : S.World)
      → IsReadableSubscribe c.now r
      → IsDefined (mongo_subscribe_context decimal S c r w)
  unfolding mongo_subscribe_context
  subscribe-IsDefined r w h =
      nested-IsDefined (expires c.now (duration_or_default r.duration))
        (throttling_field r.throttling) _ _ h.0 h.1 (conditions-IsDefined _ r.conditions h.2 _)

  expiration-IsDefined :
      (now : ℕ) (text : Str) (old : ℤ)
      → IsDefined (changed_expiration now text (pos 0))
      → IsDefined (changed_expiration now text old)
  unfolding changed_expiration str_beq
  expiration-IsDefined now [] old h = tt
  expiration-IsDefined now (b ∷ s) old h = h

  throttling-IsDefined :
      (text : Str) (old : Option ℤ)
      → IsDefined (changed_throttling text none)
      → IsDefined (changed_throttling text old)
  unfolding changed_throttling str_beq
  throttling-IsDefined [] old h = tt
  throttling-IsDefined (b ∷ s) old h = h

  changed_conditions-IsDefined :
      (f : Format) (r : ChangeRequest) (old : Subscription) (w : S.World)
      → All IsReadable r.conditions
      → IsDefined (changed_conditions decimal S c f r old w)
  unfolding changed_conditions
  changed_conditions-IsDefined f r old w h = elim (Bool-cases (is_nil r.conditions)) [
    | inl y ↦ rw y tt
    | inr n ↦ rw n (conditions-IsDefined _ r.conditions h _)
  ]

  change_present-IsDefined :
      (f : Format) (r : ChangeRequest) (old : Subscription) (w : S.World)
      → IsReadableChange c.now r
      → IsDefined (change_present decimal S c f r old w)
  unfolding change_present
  change_present-IsDefined f r old w h =
      nested-IsDefined (changed_expiration c.now r.duration old.expiration)
        (changed_throttling r.throttling old.throttling) (changed_conditions decimal S c f r old w)
        _ (expiration-IsDefined c.now r.duration old.expiration h.0)
        (throttling-IsDefined r.throttling old.throttling h.1)
        (changed_conditions-IsDefined f r old w h.2)

  found-IsDefined :
      (f : Format) (r : ChangeRequest) (w : S.World) (o : Found)
      → IsReadableChange c.now r
      → IsDefined {A = SubscribeReply × S.World} (elim o [
        | bad_id ↦ some (refused not_found, w)
        | failed text ↦ some (refused (record { code = 500; details = text }), w)
        | absent ↦ some (refused not_found, w)
        | present old ↦ change_present decimal S c f r old w
      ])
  found-IsDefined f r w bad_id h = tt
  found-IsDefined f r w absent h = tt
  found-IsDefined f r w (failed text) h = tt
  found-IsDefined f r w (present old) h = change_present-IsDefined f r old w h

  -- A change of a subscription of which all durations can be read gives a result.
  pub update-IsDefined :
      (f : Format) (r : ChangeRequest) (w : S.World)
      → IsReadableChange c.now r
      → IsDefined (mongo_update_context_subscription decimal S c f r w)
  unfolding mongo_update_context_subscription
  update-IsDefined f r w h = found-IsDefined f r w (S.find_one w c.tenant r.subscription_id) h
