-- ===== src/Subscribe.antt =====
-- The subscriptions of NGSI10: mongoSubscribeContext, mongoUpdateContextSubscription and
-- mongoUnsubscribeContext of src/lib/mongoBackend, with the conditions that MongoGlobal.cpp processes. The collection, the
-- queries and the notifier are a parameter (Store).
pub mod Conditions
pub mod Operations
pub mod Wanted
pub mod Contract
pub mod Kept
pub mod Made
pub mod Altered
pub mod Defined
pub mod Refinement
pub mod Samples
use fiware_orion.Base.{
  ℕ, ◌+◌, ◌^◌, ◌%◌, ◌-◌, Str, Option, none, some, List, codes, ltb, leb, if◌then◌else◌,
}
use fiware_orion.Base.Int.{ℤ, pos, negsuc, negate}
use fiware_orion.Strings.Duration.{Parsed, error, undefined, seconds, parse8601}
use fiware_orion.Update.{EntityId, StatusCode}
use fiware_orion.Update.Subscriptions.{Format}
use fiware_orion.Query.{EntityToken}
use fiware_orion.Query.Result.{QueryDoc, QueryResponse}

abbrev pub on_time_interval_condition : Str
on_time_interval_condition = codes "ONTIMEINTERVAL"

abbrev pub on_change_condition : Str
on_change_condition = codes "ONCHANGE"

abbrev pub default_duration : Str
default_duration = codes "PT24H"

-- class NotifyCondition: `type` and `condValueList`
pub record NotifyCondition : Type 0 where
  pub type : Str
  pub values : List Str

-- An element of the array `conditions` of a subscription.
pub data Condition : Type 0 where
  interval : ℤ → Condition
  change : List Str → Condition

-- A document of the collection, without its identifier.
pub record Subscription : Type 0 where
  pub expiration : ℤ
  pub reference : Str
  pub throttling : Option ℤ
  pub service_path : Option Str
  pub entities : List EntityId
  pub attributes : List Str
  pub conditions : List Condition
  pub last_notification : Option ℤ
  pub count : Option ℕ
  pub format : Str

-- What findOne of a subscription gives: an exception for the identifier, one of the database, an empty
-- document, or the subscription.
pub data Found : Type 0 where
  bad_id absent : Found
  failed : Str → Found
  present : Subscription → Found

-- The query of entitiesQuery for a subscription. No names stand for no condition on the attributes.
pub record EntitiesQuery : Type 0 where
  pub entities : List EntityToken
  pub attribute_names : List Str
  pub tenant : Str
  pub service_paths : List Str

-- The NotifyContextRequest, and where it goes.
pub record InitialNotification : Type 0 where
  pub subscription_id : Str
  pub originator : Str
  pub responses : List QueryResponse
  pub url : Str
  pub tenant : Str
  pub token : Str
  pub format : Format

-- A write gives the text that the broker makes of an exception, or none.
pub record Store : Type 1 where
  pub World : Type 0
  pub find_one : World → Str → Str → Found
  pub insert : Str → Str → Subscription → World → Option Str × World
  pub update : Str → Str → Subscription → World → Option Str × World
  pub remove : Str → Str → World → Option Str × World
  pub new_id : World → Str × World
  pub documents : World → EntitiesQuery → Option (List QueryDoc)
  pub notify : InitialNotification → World → World
  pub start_interval : Str → ℤ → Str → World → World
  pub stop_intervals : Str → World → World

-- What comes with a request. The clock is read once.
pub record Caller : Type 0 where
  pub tenant : Str
  pub token : Str
  pub service_paths : List Str
  pub now : ℕ

-- Duration::parse; none for undefined behaviour
unfoldable pub duration_seconds : Str → Option ℤ
unfolding parse8601
duration_seconds s = elim (parse8601 s) [
  | error ↦ some (negsuc 0)
  | undefined ↦ none
  | seconds n ↦ some (pos n)
]

-- getCurrentTime() + duration.parse(), in a long long
unfoldable pub expiration_after : ℕ → ℤ → Option ℤ
expiration_after now (pos n) = if ltb (now + n) (2 ^ 63) then some (pos (now + n)) else none
expiration_after now (negsuc n) =
    if leb (n + 1) now then some (pos (now - n - 1)) else some (negate (n + 1 - now))

-- The conversion of a long long to an int
unfoldable pub to_int : ℤ → ℤ
to_int (pos n) = let low = n % 2 ^ 32 in if ltb low (2 ^ 31) then pos low else negate (2 ^ 32 - low)
to_int (negsuc n) = negsuc n
