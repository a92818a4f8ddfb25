-- ===== src/Register/Contract.antt =====
-- What the registrations of src/lib/mongoBackend are to a client: a map from tenants and identifiers to
-- documents. StoreLaws says how a store holds it.
use fiware_orion.Base.{Str, ◌≡◌, ◌==◌, str_eq, ◌&&◌, Option, none, some, if◌then◌else◌}
use fiware_orion.Register.Store.{RegistrationDoc, AssociationDoc, AvailabilityNotification, Store}

abbrev pub RegistrationMap : Type 0
RegistrationMap = Str → Str → Option RegistrationDoc

abbrev pub put : RegistrationMap → Str → Str → RegistrationDoc → RegistrationMap
put m tenant id d t i = if t == tenant && i == id then some d else m t i

-- The documented behaviour of the database: an upsert without an exception stores the document under its
-- identifier, one with an exception changes nothing, and nothing else touches the collection.
pub record StoreLaws (S : Store) : Type 1 where
  pub view : S.World → RegistrationMap
  pub new_id_view : (w : S.World) → view (S.new_id w).1 ≡ view w
  pub associate_view :
      (t : Str) (d : AssociationDoc) (w : S.World) → view (S.associate t d w).1 ≡ view w
  pub upsert_done :
      (t i : Str) (d : RegistrationDoc) (w : S.World)
      → (S.upsert t i d w).0 ≡ none
      → view (S.upsert t i d w).1 ≡ put (view w) t i d
  pub upsert_failed :
      (t i : Str) (d : RegistrationDoc) (w : S.World) (e : Str)
      → (S.upsert t i d w).0 ≡ some e
      → view (S.upsert t i d w).1 ≡ view w
  pub notify_view : (n : AvailabilityNotification) (w : S.World) → view (S.notify n w) ≡ view w
  pub mark_view : (t i : Str) (w : S.World) → view (S.mark_notified t i w) ≡ view w
