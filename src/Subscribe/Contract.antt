-- ===== src/Subscribe/Contract.antt =====
-- What a client of the subscriptions of src/lib/mongoBackend can rely on: a map from tenants and identifiers
-- to subscriptions, and what each operation may do to it. StoreLaws says how a store holds such a map.
use fiware_orion.Base.{
  ℕ, ◌+◌, Str, ◌≡◌, ◌⊎◌, ◌==◌, str_eq, ◌&&◌, Option, none, some, List, [], if◌then◌else◌,
}
use fiware_orion.Base.Int.{ℤ, pos}
use fiware_orion.Update.{
  StatusCode, scc_ok, scc_context_element_not_found, scc_receiver_internal_error,
}
use fiware_orion.Update.Subscriptions.{Format, first_path}
use fiware_orion.Subscribe.{
  Subscription, present, absent, bad_id, Store, InitialNotification, to_int,
}
use fiware_orion.Subscribe.Operations.{
  SubscribeRequest, ChangeRequest, SubscribeReply, accepted, refused, format_to_string,
}
use fiware_orion.Subscribe.Wanted.{
  EndsAt, Throttles, RethrottlesTo, MovesTo, wanted_duration, AreConditions, Reconditions,
}

abbrev pub SubMap : Type 0
SubMap = Str → Str → Option Subscription

abbrev pub put : SubMap → Str → Str → Option Subscription → SubMap
put m tenant id v t i = if t == tenant && i == id then v else m t i

-- The documented behaviour of the database: findOne gives the document of the identifier, and rejects no identifier that is in use; a write
-- without an exception changes that document only, one with an exception changes nothing; a new identifier is
-- not in use; notifications and timers leave the collection alone.
pub record StoreLaws (S : Store) : Type 1 where
  pub view : S.World → SubMap
  pub find_present :
      (w : S.World) (t i : Str) (s : Subscription)
      → S.find_one w t i ≡ present s
      → view w t i ≡ some s
  pub find_bad : (w : S.World) (t i : Str) → S.find_one w t i ≡ bad_id → view w t i ≡ none
  pub find_absent : (w : S.World) (t i : Str) → S.find_one w t i ≡ absent → view w t i ≡ none
  pub insert_done :
      (t i : Str) (s : Subscription) (w : S.World)
      → (S.insert t i s w).0 ≡ none
      → view (S.insert t i s w).1 ≡ put (view w) t i (some s)
  pub insert_failed :
      (t i : Str) (s : Subscription) (w : S.World) (e : Str)
      → (S.insert t i s w).0 ≡ some e
      → view (S.insert t i s w).1 ≡ view w
  pub update_done :
      (t i : Str) (old s : Subscription) (w : S.World)
      → view w t i ≡ some old
      → (S.update t i s w).0 ≡ none
      → view (S.update t i s w).1 ≡ put (view w) t i (some s)
  pub update_failed :
      (t i : Str) (s : Subscription) (w : S.World) (e : Str)
      → (S.update t i s w).0 ≡ some e
      → view (S.update t i s w).1 ≡ view w
  pub remove_done :
      (t i : Str) (w : S.World)
      → (S.remove t i w).0 ≡ none
      → view (S.remove t i w).1 ≡ put (view w) t i none
  pub remove_failed :
      (t i : Str) (w : S.World) (e : Str)
      → (S.remove t i w).0 ≡ some e
      → view (S.remove t i w).1 ≡ view w
  pub new_id_view : (w : S.World) → view (S.new_id w).1 ≡ view w
  pub new_id_fresh : (w : S.World) (t : Str) → view w t (S.new_id w).0 ≡ none
  pub notify_view : (n : InitialNotification) (w : S.World) → view (S.notify n w) ≡ view w
  pub start_view :
      (i : Str) (n : ℤ) (t : Str) (w : S.World) → view (S.start_interval i n t w) ≡ view w
  pub stop_view : (i : Str) (w : S.World) → view (S.stop_intervals i w) ≡ view w

-- A request and what it is answered with.
pub data Event : Type 0 where
  subscribed : SubscribeRequest → SubscribeReply → Event
  changed : Format → ChangeRequest → SubscribeReply → Event
  unsubscribed : Str → StatusCode → Event

-- The last notification and the count of a document that is new: none, or one at the time.
abbrev pub IsFirst : ℕ → Subscription → Type 0
IsFirst now s =
    ((s.last_notification ≡ none) × (s.count ≡ none))
    ⊎ ((s.last_notification ≡ some (pos now)) × (s.count ≡ some 1))

-- A new subscription for the request, at the time: every field.
pub record IsSubscription (now : ℕ) (r : SubscribeRequest) (paths : List Str) (s : Subscription)
    : Type 0 where
  pub entities : s.entities ≡ r.entities
  pub attributes : s.attributes ≡ r.attributes
  pub reference : s.reference ≡ r.reference
  pub service_path :
      s.service_path ≡ (if first_path paths == [] then none else some (first_path paths))
  pub expiration : EndsAt now (wanted_duration r.duration) s.expiration
  pub throttling : Throttles r.throttling s.throttling
  pub conditions : AreConditions r.conditions s.conditions
  pub notified : IsFirst now s
  pub format : s.format ≡ r.notify_format

abbrev pub count_of : Option ℕ → ℕ
count_of none = 0
count_of (some n) = n

abbrev pub as_int : Option ℤ → Option ℤ
as_int none = none
as_int (some z) = some (to_int z)

-- The last notification and the count after a change: the old ones, of which the time is read as an int, or one
-- more at the time.
abbrev pub IsNext : ℕ → Subscription → Subscription → Type 0
IsNext now old new =
    ((new.last_notification ≡ as_int old.last_notification) × (new.count ≡ old.count))
    ⊎ ((new.last_notification ≡ some (pos now)) × (new.count ≡ some (count_of old.count + 1)))

-- A subscription after the change, at the time: every field. The service path is lost.
pub record IsChange (now : ℕ) (f : Format) (r : ChangeRequest) (old new : Subscription)
    : Type 0 where
  pub entities : new.entities ≡ old.entities
  pub attributes : new.attributes ≡ old.attributes
  pub reference : new.reference ≡ old.reference
  pub service_path : new.service_path ≡ none
  pub expiration : MovesTo now r.duration old.expiration new.expiration
  pub throttling : RethrottlesTo r.throttling old.throttling new.throttling
  pub conditions : Reconditions r.conditions old.conditions new.conditions
  pub notified : IsNext now old new
  pub format : new.format ≡ format_to_string f

-- A refusal of a request for the identifier: 404 where it is not in use, or 500.
abbrev pub IsRefusal : Option Subscription → StatusCode → Type 0
IsRefusal o e =
    ((e.code ≡ scc_context_element_not_found) × (o ≡ none)) ⊎ (e.code ≡ scc_receiver_internal_error)

-- What an event at the time `now` may do to the map of one tenant, whose requests have these service paths.
pub data Allowed (tenant : Str) (paths : List Str) (now : ℕ) (m : SubMap)
    : Event → SubMap → Type 0 where
  made :
      (r : SubscribeRequest) (id : Str) (s : Subscription)
      → m tenant id ≡ none
      → IsSubscription now r paths s
      → Allowed tenant paths now m
          (subscribed r (accepted id (wanted_duration r.duration) r.throttling))
          (put m tenant id (some s))
  not_made :
      (r : SubscribeRequest) (e : StatusCode)
      → e.code ≡ scc_receiver_internal_error
      → Allowed tenant paths now m (subscribed r (refused e)) m
  altered :
      (f : Format) (r : ChangeRequest) (old new : Subscription)
      → m tenant r.subscription_id ≡ some old
      → IsChange now f r old new
      → Allowed tenant paths now m
          (changed f r (accepted r.subscription_id r.duration r.throttling))
          (put m tenant r.subscription_id (some new))
  not_altered :
      (f : Format) (r : ChangeRequest) (e : StatusCode)
      → IsRefusal (m tenant r.subscription_id) e
      → Allowed tenant paths now m (changed f r (refused e)) m
  gone :
      (id : Str) (s : StatusCode) (old : Subscription)
      → m tenant id ≡ some old
      → s.code ≡ scc_ok
      → Allowed tenant paths now m (unsubscribed id s) (put m tenant id none)
  not_gone :
      (id : Str) (s : StatusCode)
      → IsRefusal (m tenant id) s
      → Allowed tenant paths now m (unsubscribed id s) m
