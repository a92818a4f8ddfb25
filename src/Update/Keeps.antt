-- ===== src/Update/Keeps.antt =====
-- A property of the outside world that each operation of src/lib/mongoBackend/MongoCommonUpdate.cpp
-- on it keeps, as an interface: the entities that the database finds have consistent attributes, and
-- it stays so where what is written has.
use fiware_orion.Base.{ℕ, Str, ◌≡◌, List, All}
use fiware_orion.Strings.Coords.{Double}
use fiware_orion.Entity.Keys.{keys}
use fiware_orion.Entity.Consistent.{IsConsistent}
use fiware_orion.Update.Subscriptions.{ok}
use fiware_orion.Update.Backend.{
  Backend, EntityQuery, EntityDoc, EntityUpdate, NewEntity, Notification,
}

pub record Keeps {D : Double} (B : Backend D) (P : B.World → Type 0) : Type 0 where
  pub found :
      (w : B.World) (tenant : Str) (q : EntityQuery) (docs : List (EntityDoc D))
      → P w
      → B.entities w tenant q ≡ ok docs
      → All (λ d. IsConsistent (keys d.attrs)) docs
  pub index : (tenant : Str) (w : B.World) → P w → P (B.ensure_location_index tenant w)
  pub update :
      (tenant : Str) (q : EntityQuery) (u : EntityUpdate D) (w : B.World)
      → IsConsistent (keys u.attrs)
      → P w
      → P (B.update tenant q u w).1
  pub insert :
      (tenant : Str) (d : NewEntity D) (w : B.World)
      → IsConsistent (keys d.attrs)
      → P w
      → P (B.insert tenant d w).1
  pub remove : (tenant : Str) (q : EntityQuery) (w : B.World) → P w → P (B.remove tenant q w).1
  pub notify : (n : Notification) (w : B.World) → P w → P (B.notify n w).1
  pub mark : (tenant id : Str) (now : ℕ) (w : B.World) → P w → P (B.mark_notified tenant id now w).1
