-- ===== src/Update/Samples.antt =====
-- Runs of the update of an entity, and its theorems at the room of Entity/Samples.antt.
use fiware_orion.Base.{
  none, some, str_beq, ℕ, ◌+◌, ◌-◌, ◌*◌, Str, ◌≡◌, refl, Bool, true, false, List, [], ◌∷◌, codes,
  All, arith, ltb,
}
use fiware_orion.Strings.Bytes.{strcasecmp_eq}
use fiware_orion.Strings.Coords.{Double}
use fiware_orion.Entity.{ContextAttribute}
use fiware_orion.Entity.CustomMetadata.{get_location}
use fiware_orion.Entity.Keys.{keys, target, HasKey}
use fiware_orion.Entity.Stored.{IsStored}
use fiware_orion.Entity.Consistent.{IsConsistent}
use fiware_orion.Entity.Samples.{room, warmer, room-IsStored, room-IsConsistent, all_of_it}
use fiware_orion.Update.{EntityId, no_status, scc_invalid_parameter}
use fiware_orion.Update.Subscriptions.{
  SubQuery, SubDoc, DbResult, ok, Origin, add_triggered_subscriptions,
}
use fiware_orion.Update.Subscriptions.{
  TriggeredSubscription, triggered, collect, insert_sub, str_lt,
}
use fiware_orion.Update.Process.{
  Run, process_context_attribute_vector, process_loop, process_attribute, process_update,
  update_location, trigger, fail, finish,
}
use fiware_orion.Update.Process.Invariant.{process-IsConsistent, process-IsStored}
use fiware_orion.Update.Process.Outcome.{IsOutcome, process-IsOutcome}
use fiware_orion.Update.Process.Present.{process-update_present, process-update_missing}

-- Numbers without sign and fraction stand for `double` here.
abbrev digits : ℕ → Str → ℕ
digits n [] = n
digits n (c ∷ s) = digits (n * 10 + (c - 48)) s

abbrev pub plain : Double
plain = record {
  Carrier = ℕ;
  zero = 0;
  atof = digits 0;
  above = λ x n. ltb n x;
  below = λ x n. false;
}

abbrev pub no_subscriptions : SubQuery → DbResult (List SubDoc)
no_subscriptions q = ok []

abbrev pub request : Origin
request = record { tenant = []; service_paths = []; now = 500 }

abbrev pub room_id : EntityId
room_id = record { id = codes "room1"; type = codes "room"; is_pattern = codes "false" }

abbrev start : Run plain
start = record {
  attrs = room;
  modified = false;
  loc_attr = [];
  coords = record { latitude = 0; longitude = 0 };
  subs = [];
  response = [];
  status = no_status;
  not_found = false;
}

abbrev process : Str → List ContextAttribute → Bool × Run plain
process = λ action cas.
    process_context_attribute_vector plain no_subscriptions request room_id action cas start

abbrev pub humidity : ContextAttribute
humidity = record {
  name = codes "humidity";
  type = [];
  value = codes "40";
  metadata = [];
  compound = none;
}

update_succeeds : (process (codes "UPDATE") (warmer ∷ [])).0 ≡ true
unfolding all_of_it get_location process_context_attribute_vector process_loop process_attribute
    process_update update_location trigger fail finish strcasecmp_eq add_triggered_subscriptions
update_succeeds = refl

is_update : strcasecmp_eq (codes "UPDATE") (codes "update") ≡ true
unfolding strcasecmp_eq
is_update = refl

humidity_missing : ¬ HasKey (target humidity) (keys room)
unfolding all_of_it
humidity_missing = ground arith

process-IsConsistent_example : IsConsistent (keys (process (codes "delete") (warmer ∷ [])).1.attrs)
process-IsConsistent_example =
    process-IsConsistent plain no_subscriptions request room_id (codes "delete") (warmer ∷ []) start
      room-IsConsistent

process-IsStored_example : All IsStored (process (codes "append") (humidity ∷ [])).1.attrs
process-IsStored_example =
    process-IsStored plain no_subscriptions request room_id (codes "append") (humidity ∷ []) start
      room-IsConsistent room-IsStored

process-IsOutcome_example :
    IsOutcome plain no_subscriptions request room_id
      (warmer ∷ humidity ∷ [])
      start
      (process (codes "update") (warmer ∷ humidity ∷ []))
process-IsOutcome_example =
    process-IsOutcome plain no_subscriptions request room_id (codes "update")
      (warmer ∷ humidity ∷ []) start

process-update_present_example :
    (keys (process (codes "UPDATE") (warmer ∷ [])).1.attrs ≡ keys room)
    × All (λ ca. HasKey (target ca) (keys room)) (warmer ∷ [])
process-update_present_example =
    process-update_present plain no_subscriptions request room_id (codes "UPDATE") is_update
      (warmer ∷ []) start update_succeeds

no_humidity : ¬ HasKey (target humidity) (keys room)
unfolding all_of_it
no_humidity h = absurd (ground (arith, h))

process-update_missing_example :
    ((process (codes "UPDATE") (humidity ∷ (warmer ∷ []))).0 ≡ false)
    × ((process (codes "UPDATE") (humidity ∷ (warmer ∷ []))).1.attrs ≡ room)
    × ((process (codes "UPDATE") (humidity ∷ (warmer ∷ []))).1.not_found ≡ true)
    × ((process (codes "UPDATE") (humidity ∷ (warmer ∷ []))).1.status.code ≡ scc_invalid_parameter)
process-update_missing_example =
    process-update_missing plain no_subscriptions request room_id (codes "UPDATE") is_update
      humidity (warmer ∷ []) start no_humidity

-- Two documents of the database, found in the order of their insertion.
abbrev seen : Str → SubDoc
seen id = record {
  id = some id;
  throttling = none;
  last_notification = none;
  format = none;
  reference = some (codes "http://h/n");
  attributes = [];
}

abbrev two_found : SubQuery → DbResult (List SubDoc)
two_found q = ok (seen (codes "s2") ∷ seen (codes "s1") ∷ seen (codes "s2") ∷ [])

abbrev two_triggered : List (Str × TriggeredSubscription)
two_triggered =
    (codes "s1", triggered (seen (codes "s1"))) ∷ (codes "s2", triggered (seen (codes "s2"))) ∷ []

two_triggered_lem :
    add_triggered_subscriptions two_found request (codes "room1") (codes "room") (codes "t") []
    ≡ ok two_triggered
unfolding add_triggered_subscriptions collect insert_sub str_lt str_beq
two_triggered_lem = refl
