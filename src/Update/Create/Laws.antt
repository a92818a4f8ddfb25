-- ===== src/Update/Create/Laws.antt =====
-- The document that createEntity of src/lib/mongoBackend/MongoCommonUpdate.cpp inserts.
use fiware_orion.Base.{
  ℕ, Str, ◌≡◌, refl, subst, ap₂, ◌⊎◌, inl, inr, ◌==◌, str_eq, Option, none, some, List, [], ◌∷◌,
  map, All, arith, if◌then◌else◌, Bool-cases, str_beq_iff,
}
use fiware_orion.Strings.Coords.{Double, Coords, string2coords}
use fiware_orion.Entity.{ContextAttribute, Metadata}
use fiware_orion.Entity.CustomMetadata.{ngsi_md_location}
use fiware_orion.Entity.Attribute.{new_attribute}
use fiware_orion.Entity.Keys.{keys, target, key-new_attribute}
use fiware_orion.Entity.Stored.{IsStored, new_attribute-IsStored}
use fiware_orion.Registry.Laws.{Some}
use fiware_orion.Update.{EntityId}
use fiware_orion.Update.Subscriptions.{Origin}
use fiware_orion.Update.Backend.{NewEntity}
use fiware_orion.Update.Create.{
  new_doc_id, Located, LocationResult, located, bad_location, location_metadata, metadata_location,
  process_location, no_location, created, new_entity,
}

pub keys-new_attribute :
    (now : ℕ) (cas : List ContextAttribute) → keys (map (new_attribute now) cas) ≡ map target cas
keys-new_attribute now [] = refl
keys-new_attribute now (ca ∷ cas) = ap₂ ◌∷◌ (key-new_attribute now ca) (keys-new_attribute now cas)

-- The attribute that a location names: one of the request, with a location metadata.
abbrev pub IsLocation : ContextAttribute → Type 0
IsLocation ca = Some (λ m. m.name ≡ ngsi_md_location) ca.metadata

module _ (D : Double) where
  LocationResult-cases :
      (x : LocationResult D)
      → ((l : Located D) × (x ≡ located l)) ⊎ ((err : Str) × (x ≡ bad_location err))
  LocationResult-cases (located l) = inl (l, refl)
  LocationResult-cases (bad_location err) = inr (err, refl)

  metadata-name :
      (ca : ContextAttribute) (ms : List Metadata) (l r : Located D)
      → metadata_location D ca ms l ≡ located r
      → (r.loc_attr ≡ l.loc_attr)
        ⊎ ((ca.name ≡ r.loc_attr) × Some (λ m. m.name ≡ ngsi_md_location) ms)
  unfolding metadata_location location_metadata
  metadata-name ca [] l r e = ground arith
  metadata-name ca (m ∷ ms) l r e = ground (
    arith,
    metadata-name ca ms l r,
    metadata-name ca ms
        (record { loc_attr = ca.name; coords = (string2coords D ca.value l.coords).1 }) r,
    str_beq_iff m.name ngsi_md_location,
  )

  IsLocation-name :
      (cas : List ContextAttribute) (l r : Located D)
      → process_location D cas l ≡ located r
      → (r.loc_attr ≡ l.loc_attr) ⊎ Some (λ ca. (ca.name ≡ r.loc_attr) × IsLocation ca) cas
  unfolding process_location
  IsLocation-name [] l r e = ground arith
  IsLocation-name (ca ∷ cas) l r e =
      elim (LocationResult-cases (metadata_location D ca ca.metadata l)) [
        | inl (k, f) ↦ ground (
          arith,
          IsLocation-name cas k r (rw (f, process_location) at e),
          metadata-name ca ca.metadata l k f,
        )
        | inr (err, f) ↦ cc (rw (f, process_location) at e)
      ]

  abbrev pub IsLocated : List ContextAttribute → Option (Str × Coords D) → Type 0
  IsLocated cas none = Unit
  IsLocated cas (some l) = Some (λ ca. (ca.name ≡ l.0) × IsLocation ca) cas

  -- A document for the attributes of a request.
  pub record IsNewEntity (o : Origin) (en : EntityId) (cas : List ContextAttribute)
      (d : NewEntity D) : Type 0 where
    pub doc_id : d.doc_id ≡ new_doc_id en o.service_paths
    pub keyed : keys d.attrs ≡ map target cas
    pub stored : All IsStored d.attrs
    pub located : IsLocated cas d.location

  IsLocated-of :
      (cas : List ContextAttribute) (l : Located D)
      → (l.loc_attr ≡ []) ⊎ Some (λ ca. (ca.name ≡ l.loc_attr) × IsLocation ca) cas
      → IsLocated cas (if l.loc_attr == [] then none else some (l.loc_attr, l.coords))
  IsLocated-of cas l h = elim (Bool-cases (l.loc_attr == [])) [
    | inl y ↦ rw y tt
    | inr n ↦ rw n (ground (arith, h, n, str_beq_iff l.loc_attr []))
  ]

  IsStored-new :
      (now : ℕ) (cas : List ContextAttribute) → All IsStored (map (new_attribute now) cas)
  IsStored-new now [] = tt
  IsStored-new now (ca ∷ cas) = (new_attribute-IsStored now ca, IsStored-new now cas)

  abbrev document : Origin → EntityId → List ContextAttribute → Located D → NewEntity D
  document o en cas l = record {
    doc_id = new_doc_id en o.service_paths;
    attrs = map (new_attribute o.now) cas;
    cre_date = o.now;
    mod_date = o.now;
    location = if l.loc_attr == [] then none else some (l.loc_attr, l.coords);
  }

  document-IsNewEntity :
      (o : Origin) (en : EntityId) (cas : List ContextAttribute) (l : Located D)
      → process_location D cas (no_location D) ≡ located l
      → IsNewEntity o en cas (document o en cas l)
  document-IsNewEntity o en cas l f = record {
    doc_id = refl;
    keyed = keys-new_attribute o.now cas;
    stored = IsStored-new o.now cas;
    located = IsLocated-of cas l (IsLocation-name cas (no_location D) l f);
  }

  -- The document that createEntity inserts has one attribute for each request attribute, in their
  -- order and with their names and identifiers, also where two are the same; its attributes are stored ones, and
  -- its location, if it has one, is that of a request attribute with a location metadata.
  pub new_entity-IsNewEntity :
      (o : Origin) (en : EntityId) (cas : List ContextAttribute) (d : NewEntity D)
      → new_entity D o en cas ≡ created d
      → IsNewEntity o en cas d
  unfolding new_entity
  new_entity-IsNewEntity o en cas d e =
      elim (LocationResult-cases (process_location D cas (no_location D))) [
        | inl (l, f) ↦
            let same : document o en cas l ≡ d = ground (arith, e, f) in
            subst (IsNewEntity o en cas) same (document-IsNewEntity o en cas l f)
        | inr (err, f) ↦ ground (arith, e, f)
      ]
