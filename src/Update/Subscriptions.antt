-- ===== src/Update/Subscriptions.antt =====
-- The subscriptions that an update triggers: addTriggeredSubscriptions and processSubscriptions of
-- src/lib/mongoBackend/MongoCommonUpdate.cpp, class TriggeredSubscription, and the regular
-- expression for the service path. The database and the notifier are parameters.
use fiware_orion.Base.{
  ℕ, Str, ◌==◌, str_eq, ◌&&◌, not, Bool, true, false, Option, none, some, List, [], ◌∷◌, ◌++◌,
  codes, ltb, if◌then◌else◌,
}
use fiware_orion.Base.Int.{ℤ, pos, negsuc, ◌-ℤ◌, ltb_ℤ, eqb_ℤ}
use fiware_orion.Bson.{str_field}
use fiware_orion.Update.ServicePath.{service_path_subscription_regex}

-- The fields of a subscription document that the update reads.
pub record SubDoc : Type 0 where
  pub id : Option Str
  pub throttling : Option ℤ
  pub last_notification : Option ℤ
  pub format : Option Str
  pub reference : Option Str
  pub attributes : List Str

-- enum Format and stringToFormat of src/lib/common/Format.cpp
pub data Format : Type 0 where
  no_format xml json : Format

unfoldable pub string_to_format : Str → Format
string_to_format s = if s == codes "XML" then xml else if s == codes "JSON" then json else no_format

pub record TriggeredSubscription : Type 0 where
  pub throttling : ℤ
  pub last_notification : ℤ
  pub format : Format
  pub reference : Str
  pub attributes : List Str

-- std::map<string, TriggeredSubscription*>, in the order of its keys
abbrev pub SubMap : Type 0
SubMap = List (Str × TriggeredSubscription)

-- std::string's operator<
unfoldable pub str_lt : Str → Str → Bool
str_lt [] [] = false
str_lt [] (b ∷ t) = true
str_lt (a ∷ s) [] = false
str_lt (a ∷ s) (b ∷ t) = if ltb a b then true else if ltb b a then false else str_lt s t

-- subs.count (id) == 0 and then subs.insert
unfoldable pub insert_sub : Str → TriggeredSubscription → SubMap → SubMap
insert_sub k t [] = (k, t) ∷ []
insert_sub k t ((j, u) ∷ subs) =
    if j == k
    then (j, u) ∷ subs
    else if str_lt k j
    then (k, t) ∷ (j, u) ∷ subs
    else (j, u) ∷ insert_sub k t subs

abbrev minus_one : ℤ
minus_one = negsuc 0

abbrev or_minus_one : Option ℤ → ℤ
or_minus_one none = minus_one
or_minus_one (some n) = n

-- XML for a document with no format
abbrev format_of : Option Str → Format
format_of none = xml
format_of (some s) = string_to_format s

unfoldable pub triggered : SubDoc → TriggeredSubscription
triggered sub = record {
  throttling = or_minus_one sub.throttling;
  last_notification = or_minus_one sub.last_notification;
  format = format_of sub.format;
  reference = str_field sub.reference;
  attributes = sub.attributes;
}

-- The loop over the cursor: a document without `_id` is passed over.
unfoldable pub collect : List SubDoc → SubMap → SubMap
collect [] subs = subs
collect (sub ∷ docs) subs =
    collect docs (elim sub.id [ none ↦ subs | some id ↦ insert_sub id (triggered sub) subs ])

-- What the query for the subscriptions of an attribute is built from.
pub record SubQuery : Type 0 where
  pub entity_id : Str
  pub entity_type : Str
  pub attribute : Str
  pub path_pattern : Str
  pub now : ℕ
  pub tenant : Str

-- A query returns documents, or fails with the text that the caller reports.
pub data DbResult {ℓ} (A : Type ℓ) : Type ℓ where
  ok : A → DbResult A
  failed : Str → DbResult A

-- servicePathV[0], or the empty string
abbrev pub first_path : List Str → Str
first_path [] = []
first_path (p ∷ ps) = p

-- What one request brings: its tenant, its service paths and the time.
pub record Origin : Type 0 where
  pub tenant : Str
  pub service_paths : List Str
  pub now : ℕ

unfoldable pub sub_query : Origin → Str → Str → Str → SubQuery
sub_query o id type attr =
    let (regex, parts) = service_path_subscription_regex (first_path o.service_paths) [] in
    record {
      entity_id = id;
      entity_type = type;
      attribute = attr;
      path_pattern = codes "/" ++ (regex ++ codes "/");
      now = o.now;
      tenant = o.tenant;
    }

module _ (query : SubQuery → DbResult (List SubDoc)) where
  unfoldable pub add_triggered_subscriptions : Origin → Str → Str → Str → SubMap → DbResult SubMap
  add_triggered_subscriptions o id type attr subs = elim (query (sub_query o id type attr)) [
    | ok docs ↦ ok (collect docs subs)
    | failed err ↦ failed err
  ]

-- The test of processSubscriptions: is the notification blocked at the time `current`?
unfoldable pub is_blocked : ℤ → TriggeredSubscription → Bool
is_blocked current trigs =
    if not (eqb_ℤ trigs.throttling (pos 1)) && not (eqb_ℤ trigs.last_notification (pos 1))
    then ltb_ℤ (current -ℤ trigs.last_notification) trigs.throttling
    else false

-- The subscriptions that are notified, in order.
unfoldable pub notified : ℤ → SubMap → SubMap
notified current [] = []
notified current ((k, t) ∷ subs) =
    let rest = notified current subs in if is_blocked current t then rest else (k, t) ∷ rest
