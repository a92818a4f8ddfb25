-- ===== src/Update/Process/Samples.antt =====
-- The theorems on locations at a concrete entity: a car whose position is its location.
use fiware_orion.Base.{◌≡◌, refl, inl, Bool, true, false, none, some, [], ◌∷◌, codes, all}
use fiware_orion.Bson.{text}
use fiware_orion.Strings.Bytes.{strcasecmp_eq, c_str, is_digit}
use fiware_orion.Strings.Coords.{
  string2coords, split_comma, a_to_f, check_a_to_f, check_number, count_dots, is_digit_or_dot,
  is_sign, starts_number, in_range,
}
use fiware_orion.Strings.Strip.{ws_strip}
use fiware_orion.Entity.{ContextAttribute, AttrDoc}
use fiware_orion.Entity.Keys.{keys}
use fiware_orion.Entity.Consistent.{IsConsistent}
use fiware_orion.Entity.CustomMetadata.{get_location}
use fiware_orion.Entity.Samples.{all_of_it}
use fiware_orion.Update.{no_status}
use fiware_orion.Update.Samples.{plain, no_subscriptions, request, room_id}
use fiware_orion.Update.Subscriptions.{add_triggered_subscriptions, collect}
use fiware_orion.Update.Process.{
  Run, process_context_attribute_vector, process_loop, process_attribute, process_append,
  append_location, trigger, finish, fail,
}
use fiware_orion.Update.Process.Location.{IsLocated, process-IsLocated}

abbrev place : AttrDoc
place = record {
  name = some (codes "place");
  id = none;
  type = none;
  value = some (text (codes "10, 20"));
  md = none;
  cre_date = some 100;
  mod_date = some 100;
}

abbrev set_place : ContextAttribute
set_place = record {
  name = codes "place";
  type = [];
  value = codes "10, 20";
  metadata = record { name = codes "location"; type = []; value = codes "WGS84" } ∷ [];
  compound = none;
}

abbrev move : ContextAttribute
move = record set_place { value = codes "11, 20" }

abbrev begin : Run plain
begin = record {
  attrs = place ∷ [];
  modified = false;
  loc_attr = [];
  coords = record { latitude = 0; longitude = 0 };
  subs = [];
  response = [];
  status = no_status;
  not_found = false;
}

abbrev process : ContextAttribute → Bool × Run plain
process = λ ca.
    process_context_attribute_vector plain no_subscriptions request room_id (codes "append")
      (ca ∷ []) begin

begin-IsConsistent : IsConsistent (keys begin.attrs)
begin-IsConsistent = (tt, tt)

moved : (process move).0 ≡ true
unfolding all_of_it get_location process_context_attribute_vector process_loop process_attribute
    process_append append_location trigger finish fail strcasecmp_eq add_triggered_subscriptions
    string2coords split_comma a_to_f check_a_to_f check_number count_dots is_digit_or_dot is_sign
    starts_number in_range is_digit ws_strip c_str all collect
moved = refl

process-IsLocated_example : IsLocated (process move).1.attrs (process move).1.loc_attr
process-IsLocated_example =
    process-IsLocated plain no_subscriptions request room_id (codes "append") (move ∷ []) begin
      begin-IsConsistent (inl refl) moved
