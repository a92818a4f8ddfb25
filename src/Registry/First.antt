-- ===== src/Registry/First.antt =====
-- The first registration that registrationsQuery of src/lib/mongoBackend/MongoGlobal.cpp returns.
use fiware_orion.Base.{
  Str, ◌≡◌, refl, sym, ap, ◌∙◌, ◌↔◌, ◌⊎◌, inl, inr, not, ◌&&◌, ◌||◌, false, List, [], ◌∷◌, ◌++◌,
  arith, Bool-cases, append_assoc,
}
use fiware_orion.Update.{EntityId}
use fiware_orion.Registry.{
  Regex, is_nil, Registration, registered_entities, registered_attributes, registration_element,
  registration_elements, query_result,
}
use fiware_orion.Registry.Laws.{Some}
use fiware_orion.Registry.Complete.{HasAnswer, element_iff, elements_iff}

-- The first member of the list that has the property.
abbrev pub IsFirst : {A : Type 0} → (A → Type 0) → A → List A → Type 0
IsFirst P x [] = ⊥
IsFirst P x (a ∷ l) = (P a × (x ≡ a)) ⊎ ((P a → ⊥) × IsFirst P x l)

-- The registrations of all documents, in their order.
abbrev pub all_of : List (List Registration) → List Registration
all_of [] = []
all_of (doc ∷ docs) = doc ++ all_of docs

filled {ℓ} : {A : Type ℓ} {l : List A} → l ≡ [] → is_nil l ≡ false → ⊥
unfolding is_nil
filled e h = absurd (ground (arith, e, h))

module _ (R : Regex) (ens : List EntityId) (attrs : List Str) where
  elements-append :
      (l r : List Registration)
      → registration_elements R ens attrs (l ++ r)
        ≡ registration_elements R ens attrs l ++ registration_elements R ens attrs r
  unfolding registration_elements
  elements-append [] r = refl
  elements-append (cr ∷ l) r =
      ap (λ x. registration_element R ens attrs cr ++ x) (elements-append l r)
      ∙ sym (append_assoc (registration_element R ens attrs cr) _ _)

  pub query_result-all_of :
      (docs : List (List Registration))
      → query_result R ens attrs docs ≡ registration_elements R ens attrs (all_of docs)
  unfolding query_result registration_elements
  query_result-all_of [] = refl
  query_result-all_of (doc ∷ docs) =
      ap (λ x. registration_elements R ens attrs doc ++ x) (query_result-all_of docs)
      ∙ sym (elements-append doc (all_of docs))

  one_or_none :
      (cr : Registration)
      → (registration_element R ens attrs cr ≡ [])
        ⊎ ((y : Registration) × (registration_element R ens attrs cr ≡ y ∷ [])
            × (y.providing_application ≡ cr.providing_application))
  unfolding registration_element
  one_or_none cr = elim (Bool-cases (is_nil (registered_entities R ens cr.entities))) [
    | inl y ↦ inl (rw y refl)
    | inr n ↦
        rw n
          (elim (Bool-cases (
            not (is_nil (registered_attributes R attrs cr.attributes))
            || (is_nil (registered_attributes R attrs cr.attributes) && is_nil attrs))) [
              | inl y ↦ inr (
                record {
                  entities = registered_entities R ens cr.entities;
                  attributes = registered_attributes R attrs cr.attributes;
                  providing_application = cr.providing_application;
                },
                rw y refl,
                refl,
              )
              | inr m ↦ inl (rw m refl)
            ])
  ]

  -- The application of the first result is that of the first registration that answers.
  pub first-IsFirst :
      (crs : List Registration) (x : Registration) (xs : List Registration)
      → registration_elements R ens attrs crs ≡ x ∷ xs
      → (cr : Registration) × IsFirst (HasAnswer R ens attrs) cr crs
        × (x.providing_application ≡ cr.providing_application)
  unfolding registration_elements is_nil
  first-IsFirst [] x xs h = absurd (ground (arith, h))
  first-IsFirst (cr ∷ crs) x xs h = elim (one_or_none cr) [
    | inl e ↦
        let later : registration_elements R ens attrs crs ≡ x ∷ xs =
          ap (λ l. l ++ registration_elements R ens attrs crs) (sym e) ∙ h in
        let (found, first, same) = first-IsFirst crs x xs later in
        let not_here : HasAnswer R ens attrs cr → ⊥ =
          λ a. absurd (filled e ((element_iff R ens attrs cr).1 a)) in
        (found, inr (not_here, first), same)
    | inr (y, e, same) ↦
        let eq : y ∷ registration_elements R ens attrs crs ≡ x ∷ xs =
          ap (λ l. l ++ registration_elements R ens attrs crs) (sym e) ∙ h in
        let y_is_x : y ≡ x = ground (arith, eq) in
        let here = (element_iff R ens attrs cr).0 (rw e refl) in
        (
          cr,
          inl (here, refl),
          ap (λ (r : Registration). r.providing_application) (sym y_is_x) ∙ same,
        )
  ]

  pub none_answers :
      (docs : List (List Registration))
      → query_result R ens attrs docs ≡ []
      → Some (HasAnswer R ens attrs) (all_of docs)
      → ⊥
  none_answers docs h a =
      filled (sym (query_result-all_of docs) ∙ h) ((elements_iff R ens attrs (all_of docs)).1 a)

  pub answers_iff :
      (docs : List (List Registration))
      → (is_nil (query_result R ens attrs docs) ≡ false)
        ↔ Some (HasAnswer R ens attrs) (all_of docs)
  answers_iff docs = rw (query_result-all_of docs) (elements_iff R ens attrs (all_of docs))
