-- ===== src/Update/Notify.antt =====
-- processSubscriptions of src/lib/mongoBackend/MongoCommonUpdate.cpp: the notifications that an update
-- sends, in the order of the map of the subscriptions.
pub mod Laws
use fiware_orion.Base.{
  ℕ, Str, Bool, true, false, Option, none, some, List, [], ◌∷◌, ◌++◌, if◌then◌else◌, ◌&&◌,
}
use fiware_orion.Base.Int.{pos}
use fiware_orion.Strings.Coords.{Double}
use fiware_orion.Update.{EntityId}
use fiware_orion.Update.Subscriptions.{Origin, SubMap, TriggeredSubscription, is_blocked}
use fiware_orion.Update.Backend.{Backend, Notification}

unfoldable pub notification : Origin → EntityId → Str → Str → TriggeredSubscription → Notification
notification o en token id t = record {
  sub_id = id;
  reference = t.reference;
  format = t.format;
  attributes = t.attributes;
  entity = en;
  tenant = o.tenant;
  token = token;
  service_paths = o.service_paths;
}

module _ (D : Double) (B : Backend D) (o : Origin) (en : EntityId) (token : Str) where
  -- Where the notification was sent, `lastNotification` and `count` of the subscription are updated.
  unfoldable pub notify_one : Str → TriggeredSubscription → B.World → Option Str × B.World
  notify_one id t w =
      let (sent, w') = B.notify (notification o en token id t) w in
      if sent then B.mark_notified o.tenant id o.now w' else (none, w')

  -- One round: a blocked subscription is passed over.
  unfoldable pub process_subscription : Str → TriggeredSubscription → B.World → Option Str × B.World
  process_subscription id t w = if is_blocked (pos o.now) t then (none, w) else notify_one id t w

  -- The result, `err`, and the world after the call.
  unfoldable pub process_subscriptions : SubMap → B.World → Bool × Str × B.World
  process_subscriptions [] w = (true, [], w)
  process_subscriptions ((id, t) ∷ subs) w =
      let (err, w1) = process_subscription id t w in
      let (result, errs, w2) = process_subscriptions subs w1 in
      elim err [ none ↦ (result, errs, w2) | some text ↦ (false, text ++ errs, w2) ]
