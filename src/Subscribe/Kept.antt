-- ===== src/Subscribe/Kept.antt =====
-- The conditions of a subscription, as processConditionVector of src/lib/mongoBackend/MongoGlobal.cpp
-- processes them, leave the collection of subscriptions alone.
use fiware_orion.Base.{
  ℕ, Str, ◌≡◌, refl, ap, ◌∙◌, ◌==◌, str_eq, Bool, true, false, Bool-cases, inl, inr, Option, none,
  some, List, [], ◌∷◌, if◌then◌else◌, ◌||◌, map,
}
use fiware_orion.Base.Int.{ℤ}
use fiware_orion.Registry.{is_nil, is_cond_value_in}
use fiware_orion.Query.Result.{QueryResponse}
use fiware_orion.Subscribe.{
  NotifyCondition, interval, change, Store, Caller, on_time_interval_condition, on_change_condition,
  duration_seconds, to_int,
}
use fiware_orion.Subscribe.Conditions.{
  Target, Processed, query_entities, initial_notification, process_on_change_condition,
  process_condition_vector,
}
use fiware_orion.Subscribe.Contract.{StoreLaws}

module _ (decimal : ℕ → Str) (S : Store) (L : StoreLaws S) (c : Caller) where
  -- Conditions leave the collection alone.
  abbrev pub IsKept : S.World → Option (Processed S.World) → Type 0
  IsKept w none = Unit
  IsKept w (some p) = L.view p.world ≡ L.view w

  on_change_result :
      Target
      → List Str
      → S.World
      → Option (List QueryResponse)
      → Option (List QueryResponse)
      → Bool × S.World
  on_change_result t values w o o' = elim o [
    | none ↦ (false, w)
    | some responses ↦ if is_nil responses then (false, w) else elim o' [
      | none ↦ (false, w)
      | some all_responses ↦
          if is_cond_value_in values (map (λ r. r.attributes) all_responses)
          then (true, S.notify (initial_notification decimal S c t responses) w)
          else (false, w)
    ]
  ]

  on_change_cases :
      (t : Target) (values : List Str) (w : S.World) (o o' : Option (List QueryResponse))
      → L.view (on_change_result t values w o o').1 ≡ L.view w
  unfolding is_nil on_change_result
  on_change_cases t values w none o' = refl
  on_change_cases t values w (some []) o' = refl
  on_change_cases t values w (some (x ∷ xs)) none = refl
  on_change_cases t values w (some (x ∷ xs)) (some rs) =
      elim (Bool-cases (is_cond_value_in values (map (λ r. r.attributes) rs))) [
        | inl y ↦ rw y (L.notify_view (initial_notification decimal S c t (x ∷ xs)) w)
        | inr n ↦ rw n refl
      ]

  on_change_view :
      (t : Target) (values : List Str) (w : S.World)
      → L.view (process_on_change_condition decimal S c t values w).1 ≡ L.view w
  unfolding process_on_change_condition on_change_result
  on_change_view t values w =
      on_change_cases t values w (query_entities decimal S c t t.attributes w)
        (query_entities decimal S c t [] w)

  extended-IsKept :
      (w w1 : S.World) (f : Processed S.World → Processed S.World)
      → ((p : Processed S.World) → (f p).world ≡ p.world)
      → L.view w1 ≡ L.view w
      → (o : Option (Processed S.World)) → IsKept w1 o
      → IsKept w (elim o [ none ↦ none | some p ↦ some (f p) ])
  extended-IsKept w w1 f same e none h = tt
  extended-IsKept w w1 f same e (some p) h = ap L.view (same p) ∙ h ∙ e

  after_interval : Target → List NotifyCondition → S.World → Option ℤ → Option (Processed S.World)
  after_interval t ncs w o = elim o [
    | none ↦ none
    | some n ↦
        elim (process_condition_vector decimal S c t ncs
          (S.start_interval t.id (to_int n) c.tenant w)) [
            | none ↦ none
            | some p ↦ some (record p { conditions = interval n ∷ p.conditions })
          ]
  ]

  after_interval-IsKept :
      (t : Target) (ncs : List NotifyCondition) (w : S.World) (o : Option ℤ)
      → ((w1 : S.World) → IsKept w1 (process_condition_vector decimal S c t ncs w1))
      → IsKept w (after_interval t ncs w o)
  unfolding after_interval
  after_interval-IsKept t ncs w none h = tt
  after_interval-IsKept t ncs w (some n) h =
      extended-IsKept w (S.start_interval t.id (to_int n) c.tenant w)
        (λ p. record p { conditions = interval n ∷ p.conditions }) (λ p. refl)
        (L.start_view t.id (to_int n) c.tenant w) _ (h _)

  interval-IsKept :
      (t : Target) (ncs : List NotifyCondition) (w : S.World) (values : List Str)
      → ((w1 : S.World) → IsKept w1 (process_condition_vector decimal S c t ncs w1))
      → IsKept w
          (elim values [ [] ↦ none | value ∷ vs ↦ after_interval t ncs w (duration_seconds value) ])
  interval-IsKept t ncs w [] h = tt
  interval-IsKept t ncs w (value ∷ vs) h = after_interval-IsKept t ncs w (duration_seconds value) h

  pub conditions-IsKept :
      (t : Target) (ncs : List NotifyCondition) (w : S.World)
      → IsKept w (process_condition_vector decimal S c t ncs w)
  unfolding process_condition_vector after_interval
  conditions-IsKept t [] w = refl
  conditions-IsKept t (nc ∷ ncs) w = elim (Bool-cases (nc.type == on_time_interval_condition)) [
    | inl y ↦ rw y (interval-IsKept t ncs w nc.values (conditions-IsKept t ncs))
    | inr n ↦ rw n (elim (Bool-cases (nc.type == on_change_condition)) [
      | inl y ↦
          let (sent, w1) = process_on_change_condition decimal S c t nc.values w in
          rw y (
            extended-IsKept w w1
              (λ p. record p {
                conditions = change nc.values ∷ p.conditions;
                notified = sent || p.notified;
              })
              (λ p. refl) (on_change_view t nc.values w) _ (conditions-IsKept t ncs w1))
      | inr m ↦ rw m (conditions-IsKept t ncs w)
    ])
  ]
