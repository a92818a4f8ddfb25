-- ===== src/Update/Notify/Laws.antt =====
-- What processSubscriptions of src/lib/mongoBackend/MongoCommonUpdate.cpp sends, and to whom not.
use fiware_orion.Base.{
  ℕ, Str, ◌+◌, ◌<◌, ◌≤◌, ◌≡◌, ◌≢◌, ◌↔◌, true, false, Option, none, List, [], ◌∷◌, ◌++◌, map, arith,
  if_both,
}
use fiware_orion.Base.Int.{pos, ◌-ℤ◌}
use fiware_orion.Strings.Coords.{Double}
use fiware_orion.Update.{EntityId}
use fiware_orion.Update.Subscriptions.{Origin, SubMap, TriggeredSubscription, is_blocked}
use fiware_orion.Update.Backend.{Backend, Notification}
use fiware_orion.Update.Keeps.{Keeps}
use fiware_orion.Update.Notify.{
  notification, notify_one, process_subscription, process_subscriptions,
}

-- A throttling of n seconds, n other than one, blocks a notification exactly until n seconds after
-- the last one, where that is not the time 1.
pub is_blocked_iff :
    (now last n : ℕ) (t : TriggeredSubscription)
    → t.throttling ≡ pos n
    → t.last_notification ≡ pos last
    → n ≢ 1
    → last ≢ 1
    → last ≤ now
    → (is_blocked (pos now) t ≡ true) ↔ (now < last + n)
unfolding is_blocked ◌-ℤ◌
is_blocked_iff now last n t e f h k m = ground (arith, e, f)

-- A throttling of one second blocks no notification, whenever the last one was sent.
pub is_blocked-one_second :
    (now : ℕ) (t : TriggeredSubscription) → t.throttling ≡ pos 1 → is_blocked (pos now) t ≡ false
unfolding is_blocked
is_blocked-one_second now t e = ground (arith, e)

module _ {D : Double} (B : Backend D) (o : Origin) (en : EntityId) (token : Str) where
  process_subscription-keeps :
      (P : B.World → Type 0) (K : Keeps B P) (id : Str) (t : TriggeredSubscription) (w : B.World)
      → P w
      → P (process_subscription D B o en token id t w).1
  unfolding process_subscription notify_one
  process_subscription-keeps P K id t w p =
      let n = notification o en token id t in
      let q = K.notify n w p in
      if_both {A = Option Str × B.World} (λ r. P r.1) (is_blocked (pos o.now) t) (none, w) _ p
        (if_both {A = Option Str × B.World} (λ r. P r.1) (B.notify n w).0 _ (none, (B.notify n w).1)
          (K.mark o.tenant id o.now (B.notify n w).1 q) q)

  pub process_subscriptions-keeps :
      (P : B.World → Type 0) (K : Keeps B P) (subs : SubMap) (w : B.World)
      → P w
      → P (process_subscriptions D B o en token subs w).2
  unfolding process_subscriptions
  process_subscriptions-keeps P K [] w p = p
  process_subscriptions-keeps P K ((id, t) ∷ subs) w p = ground (
    arith,
    process_subscriptions-keeps P K subs (process_subscription D B o en token id t w).1,
    process_subscription-keeps P K id t w p,
  )

  -- The world's record of what was sent.
  module _ (log : B.World → List Notification)
      (logs : (n : Notification) (w : B.World) → log (B.notify n w).1 ≡ log w ++ n ∷ [])
      (silent : (tenant id : Str) (now : ℕ) (w : B.World)
        → log (B.mark_notified tenant id now w).1 ≡ log w) where
    abbrev sent : SubMap → List Notification
    sent subs = map (λ s. notification o en token s.0 s.1) subs
