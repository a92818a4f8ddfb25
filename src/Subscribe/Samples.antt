-- ===== src/Subscribe/Samples.antt =====
-- A store that satisfies the laws, and the contract of the subscriptions at two requests.
use fiware_orion.Base.{
  ℕ, zero, suc, ◌+◌, ◌≤◌, ◌<◌, Str, ◌≡◌, refl, ap, ◌==◌, str_eq, str_beq, str_sound, ◌&&◌, true,
  Bool-cases, inl, inr, Option, none, some, List, [], ◌∷◌, codes, length, any, replicate, All,
  arith,
}
use fiware_orion.Subscribe.{
  Subscription, Found, bad_id, absent, present, Store, Caller, duration_seconds, expiration_after,
}
use fiware_orion.Strings.Bytes.{c_str, is_digit}
use fiware_orion.Strings.Url.{leading_digits}
use fiware_orion.Strings.Duration.{
  parse8601, parse_after_p, parse_loop, kind_of, add_unit, to_seconds, time_unit,
}
use fiware_orion.Subscribe.Operations.{
  SubscribeRequest, expires, duration_or_default, throttling_field,
}
use fiware_orion.Subscribe.Contract.{SubMap, put, StoreLaws}
use fiware_orion.Subscribe.Refinement.{
  Request, subscribe, unsubscribe, IsReadableRequest, perform_all, IsRun, perform_all-IsRun,
}

-- A map, and a length that no identifier in it has.
record Kept : Type 0 where
  map : SubMap
  bound : ℕ
  fresh : (t i : Str) → bound ≤ length i → map t i ≡ none

length-replicate : (n : ℕ) → length (replicate {A = ℕ} n b'0') ≡ n
length-replicate zero = refl
length-replicate (suc n) = omega (arith, length-replicate n)

put_fresh :
    (m : SubMap) (t i : Str) (v : Option Subscription) (t' i' : Str)
    → length i < length i'
    → m t' i' ≡ none
    → put m t i v t' i' ≡ none
put_fresh m t i v t' i' lt h = elim (Bool-cases (t' == t && i' == i)) [
  | inl y ↦
      let same : str_beq i' i ≡ true = ground arith in
      let e = ap length (str_sound i' i same) in absurd (omega arith)
  | inr n ↦ rw n h
]

abbrev write : Str → Str → Subscription → Kept → Kept
write t i s w = record {
  map = put w.map t i (some s);
  bound = w.bound + length i + 1;
  fresh =
      λ t' i' le. put_fresh w.map t i (some s) t' i' (omega arith) (w.fresh t' i' (omega arith));
}

put-none : (m : SubMap) (t i t' i' : Str) → m t' i' ≡ none → put m t i none t' i' ≡ none
put-none m t i t' i' h = elim (Bool-cases (t' == t && i' == i)) [
  | inl y ↦ rw y refl
  | inr n ↦ rw n h
]

found : Option Subscription → Found
found none = absent
found (some s) = present s

abbrev store : Store
store = record {
  World = Kept;
  find_one = λ w t i. found (w.map t i);
  insert = λ t i s w. (none, write t i s w);
  update = λ t i s w. (none, write t i s w);
  remove = λ t i w. (
    none,
    record {
      map = put w.map t i none;
      bound = w.bound;
      fresh = λ t' i' le. put-none w.map t i t' i' (w.fresh t' i' le);
    },
  );
  new_id = λ w. (replicate w.bound b'0', w);
  documents = λ w q. some [];
  notify = λ n w. w;
  start_interval = λ i n t w. w;
  stop_intervals = λ i w. w;
}

found-present : (o : Option Subscription) (s : Subscription) → found o ≡ present s → o ≡ some s
unfolding found
found-present o s h = ground arith

found-absent : (o : Option Subscription) → found o ≡ absent → o ≡ none
unfolding found
found-absent o h = ground arith

found_accepts : (o : Option Subscription) → found o ≡ bad_id → o ≡ none
unfolding found
found_accepts none h = refl
found_accepts (some s) h = absurd (ground (arith, h))

store-laws : StoreLaws store
store-laws = record {
  view = λ w. w.map;
  find_present = λ w t i s h. found-present (w.map t i) s h;
  find_bad = λ w t i h. found_accepts (w.map t i) h;
  find_absent = λ w t i h. found-absent (w.map t i) h;
  insert_done = λ t i s w h. refl;
  insert_failed = λ t i s w e h. ground (arith, h);
  update_done = λ t i old s w there h. refl;
  update_failed = λ t i s w e h. ground (arith, h);
  remove_done = λ t i w h. refl;
  remove_failed = λ t i w e h. ground (arith, h);
  new_id_view = λ w. refl;
  new_id_fresh =
      λ w t. w.fresh t (replicate w.bound b'0') (omega (arith, length-replicate w.bound));
  notify_view = λ n w. refl;
  start_view = λ i n t w. refl;
  stop_view = λ i w. refl;
}

abbrev nothing : Kept
nothing = record { map = λ t i. none; bound = 0; fresh = λ t i le. refl }

abbrev caller : Caller
caller = record { tenant = []; token = []; service_paths = codes "/madrid" ∷ []; now = 1000 }

abbrev hourly : SubscribeRequest
hourly = record {
  entities = record { id = codes "Room.*"; type = codes "Room"; is_pattern = codes "true" } ∷ [];
  attributes = codes "temperature" ∷ [];
  reference = codes "http://app/notify";
  duration = codes "PT1H";
  throttling = [];
  conditions = record { type = codes "ONCHANGE"; values = codes "temperature" ∷ [] } ∷ [];
  notify_format = codes "JSON";
}

-- A subscription is made, and removed under the identifier that it got.
abbrev two_requests : List (ℕ × Request)
two_requests = (1000, subscribe hourly) ∷ ((2000, unsubscribe []) ∷ [])

two_readable : All (λ t. IsReadableRequest t.0 t.1) two_requests
unfolding expires duration_or_default throttling_field duration_seconds parse8601 expiration_after
    str_beq c_str parse_after_p parse_loop kind_of is_digit any add_unit leading_digits to_seconds
    time_unit
two_readable = ((tt, tt, (tt, tt)), (tt, tt))

perform_all-IsRun_example :
    IsRun
      (λ n. [])
      store
      store-laws
      caller
      two_requests
      nothing
      (perform_all (λ n. []) store caller two_requests nothing)
perform_all-IsRun_example =
    perform_all-IsRun (λ n. []) store store-laws caller two_requests nothing two_readable
