-- ===== src/Register/Samples.antt =====
-- A registration at a concrete store.
use fiware_orion.Base.{ℕ, ◌+◌, refl, none, [], ◌∷◌, codes, arith}
use fiware_orion.Update.Subscriptions.{ok}
use fiware_orion.Registry.Samples.{literal}
use fiware_orion.Register.Store.{Store, present}
use fiware_orion.Register.Operations.{RegisterRequest, path_or_root, mongo_register_context}
use fiware_orion.Register.Contract.{RegistrationMap, put, StoreLaws}
use fiware_orion.Register.Laws.{IsResult, mongo_register_context-IsResult}

-- The map, and the number of notifications that were sent.
abbrev store : Store
store = record {
  World = RegistrationMap × ℕ;
  new_id = λ w. (codes "1", w);
  find_one = λ w t i p. present;
  associate = λ t d w. (none, w);
  subscriptions = λ w q. ok [];
  registrations = λ w q. ok [];
  upsert = λ t i d w. (none, (put w.0 t i d, w.1));
  notify = λ n w. (w.0, w.1 + 1);
  mark_notified = λ t i w. w;
}

store-laws : StoreLaws store
store-laws = record {
  view = λ w. w.0;
  new_id_view = λ w. refl;
  associate_view = λ t d w. refl;
  upsert_done = λ t i d w h. refl;
  upsert_failed = λ t i d w e h. ground (arith, h);
  notify_view = λ n w. refl;
  mark_view = λ t i w. refl;
}

abbrev two_rooms : RegisterRequest
two_rooms = record {
  registrations =
      record {
        entities =
            record { id = codes "Room1"; type = codes "Room"; is_pattern = codes "false" }
            ∷ record { id = codes "Room2"; type = []; is_pattern = codes "false" }
            ∷ [];
        attributes =
            record { name = codes "temperature"; type = codes "float"; is_domain = codes "false" }
            ∷ [];
        metadata = [];
        providing_application = codes "http://app:1028/v1";
      }
      ∷ [];
  duration = codes "P1M";
  registration_id = [];
}

abbrev empty : RegistrationMap × ℕ
empty = ((λ t i. none), 0)

mongo_register_context-IsResult_example :
    IsResult literal store store-laws [] 1000 two_rooms
      (path_or_root literal store [] 1000 [])
      empty
      (mongo_register_context literal store [] 1000 two_rooms [] empty)
mongo_register_context-IsResult_example =
    mongo_register_context-IsResult literal store store-laws [] 1000 two_rooms [] empty
