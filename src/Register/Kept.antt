-- ===== src/Register/Kept.antt =====
-- Associations, subscriptions and notifications of src/lib/mongoBackend leave the registrations alone.
use fiware_orion.Base.{
  ℕ, Str, ◌≡◌, refl, ◌∙◌, inl, inr, ◌==◌, str_eq, Bool, true, false, Bool-cases, Option, none, some,
  List, [], ◌∷◌, codes,
}
use fiware_orion.Update.{EntityId}
use fiware_orion.Update.Subscriptions.{DbResult, ok, failed, SubDoc, SubMap, Format}
use fiware_orion.Registry.{Regex, Registration, query_result}
use fiware_orion.Register.Store.{RegistrationMetadata, ContextRegistration, Store}
use fiware_orion.Register.Operations.{
  association_doc, process_associations, availability_query, collect_availability,
  process_registrations, process_availability_subscription, notify_subscriptions,
}
use fiware_orion.Register.Contract.{StoreLaws}

module _ (R : Regex) (S : Store) (L : StoreLaws S) (tenant : Str) (now : ℕ) where
  after_associate : List RegistrationMetadata → Option Str → S.World → Option Str × S.World
  after_associate mds o w = elim o [
    | some text ↦ (some text, w)
    | none ↦ process_associations R S tenant now mds w
  ]

  after_associate-view :
      (mds : List RegistrationMetadata) (o : Option Str) (w w0 : S.World)
      → L.view w ≡ L.view w0
      → L.view (process_associations R S tenant now mds w).1 ≡ L.view w
      → L.view (after_associate mds o w).1 ≡ L.view w0
  unfolding after_associate
  after_associate-view mds (some text) w w0 same h = same
  after_associate-view mds none w w0 same h = h ∙ same

  associations_view :
      (mds : List RegistrationMetadata) (w : S.World)
      → L.view (process_associations R S tenant now mds w).1 ≡ L.view w
  unfolding process_associations after_associate
  associations_view [] w = refl
  associations_view (md ∷ mds) w = elim (Bool-cases (md.type == codes "Association")) [
    | inl y ↦
        let (problem, w1) = S.associate tenant (association_doc md) w in
        rw y (
          after_associate-view mds problem w1 w (L.associate_view tenant (association_doc md) w)
            (associations_view mds w1))
    | inr n ↦ rw n (associations_view mds w)
  ]

  sent : List Registration → Str → Str → Format → S.World → Bool × S.World
  sent found id url f w = elim found [
    | [] ↦ (false, w)
    | crr ∷ crrs ↦ (
      true,
      S.mark_notified tenant id (
          S.notify
            (record {
              subscription_id = id;
              responses = crr ∷ crrs;
              url = url;
              tenant = tenant;
              format = f;
            })
            w),
    )
  ]

  sent-view :
      (found : List Registration) (id url : Str) (f : Format) (w : S.World)
      → L.view (sent found id url f w).1 ≡ L.view w
  unfolding sent
  sent-view [] id url f w = refl
  sent-view (crr ∷ crrs) id url f w = L.mark_view tenant id _ ∙ L.notify_view _ w

  queried :
      List EntityId
      → List Str
      → Str
      → Str
      → Format
      → S.World
      → DbResult (List (List Registration))
      → Bool × S.World
  queried ens attributes id url f w d = elim d [
    | failed text ↦ (false, w)
    | ok docs ↦ sent (query_result R ens attributes docs) id url f w
  ]

  queried-view :
      (ens : List EntityId) (attributes : List Str) (id url : Str) (f : Format) (w : S.World)
      (d : DbResult (List (List Registration)))
      → L.view (queried ens attributes id url f w d).1 ≡ L.view w
  unfolding queried
  queried-view ens attributes id url f w (failed text) = refl
  queried-view ens attributes id url f w (ok docs) = sent-view _ id url f w

  availability_view :
      (ens : List EntityId) (attributes : List Str) (id url : Str) (f : Format) (w : S.World)
      → L.view (process_availability_subscription R S tenant now ens attributes id url f w).1
        ≡ L.view w
  unfolding process_availability_subscription queried sent
  availability_view ens attributes id url f w = queried-view ens attributes id url f w _

  pub notifications_view :
      (ens : List EntityId) (subs : SubMap) (w : S.World)
      → L.view (notify_subscriptions R S tenant now ens subs w) ≡ L.view w
  unfolding notify_subscriptions
  notifications_view ens [] w = refl
  notifications_view ens ((id, t) ∷ subs) w =
      notifications_view ens subs _ ∙ availability_view ens t.attributes id t.reference t.format w

  after_subscriptions :
      List ContextRegistration
      → SubMap
      → S.World
      → DbResult (List SubDoc)
      → DbResult SubMap × S.World
  after_subscriptions crs subs w d = elim d [
    | failed text ↦ (failed text, w)
    | ok docs ↦ process_registrations R S tenant now crs (collect_availability docs subs) w
  ]

  after_one :
      ContextRegistration
      → List ContextRegistration
      → SubMap
      → Option Str
      → S.World
      → DbResult SubMap × S.World
  after_one cr crs subs o w = elim o [
    | some text ↦ (failed [], w)
    | none ↦
        after_subscriptions crs subs w (S.subscriptions w (availability_query R S tenant now cr))
  ]

  after_subscriptions-view :
      (crs : List ContextRegistration) (subs : SubMap) (w : S.World) (d : DbResult (List SubDoc))
      → ((subs' : SubMap) → L.view (process_registrations R S tenant now crs subs' w).1 ≡ L.view w)
      → L.view (after_subscriptions crs subs w d).1 ≡ L.view w
  unfolding after_subscriptions
  after_subscriptions-view crs subs w (failed text) h = refl
  after_subscriptions-view crs subs w (ok docs) h = h _

  after_one-view :
      (cr : ContextRegistration) (crs : List ContextRegistration) (subs : SubMap) (o : Option Str)
      (w : S.World)
      → ((subs' : SubMap) → L.view (process_registrations R S tenant now crs subs' w).1 ≡ L.view w)
      → L.view (after_one cr crs subs o w).1 ≡ L.view w
  unfolding after_one
  after_one-view cr crs subs (some text) w h = refl
  after_one-view cr crs subs none w h = after_subscriptions-view crs subs w _ h

  pub registrations_view :
      (crs : List ContextRegistration) (subs : SubMap) (w : S.World)
      → L.view (process_registrations R S tenant now crs subs w).1 ≡ L.view w
  unfolding process_registrations after_one after_subscriptions
  registrations_view [] subs w = refl
  registrations_view (cr ∷ crs) subs w =
      let (problem, w1) = process_associations R S tenant now cr.metadata w in
      after_one-view cr crs subs problem w1 (λ subs'. registrations_view crs subs' w1)
      ∙ associations_view cr.metadata w
